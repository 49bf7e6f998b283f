-- ===== src/Backend/Sessions/Expiry.antt =====
-- What Redis's time to live leaves of a session in the tables of
-- cloud-container/backend/app/sessions/manager.py.
use cloud_robotics.Prelude.{
  ℕ, suc, ◌<◌, ◌≤◌, Text, ==_of_ne, ◌≡◌, refl, ◌∙◌, ◌≢◌, Option-cases, none, some, inl, inr, arith,
}
use cloud_robotics.Exec.{ok}
use cloud_robotics.Services.{Services, Lock}
use cloud_robotics.Backend.World.{World}
use cloud_robotics.Backend.Sessions.{key, acquire, get_holder, audit_row}
use cloud_robotics.Backend.Sessions.Holding.{
  Free, Holds, IsOpen, new_lock, info_of, locked, locked-held, acquire-Free-eq,
}
use cloud_robotics.Backend.Sessions.Ending.{get_holder-Holds, wait}
use cloud_robotics.Backend.Sessions.Shown.{IsOpen-kept}

module _ (σ : Services) where
  -- The robot is free once the seconds of its session have passed.
  wait-Free :
      (n : ℕ) (w : World σ) (r : Text) (l : Lock) (t : ℕ)
      → t ≤ n
      → Holds σ w r l t
      → Free σ (wait σ n w) r
  wait-Free n w r l t over h = ground (arith, σ.redis.lookup-elapse n (key r) w.redis)

  -- A session whose operator fell silent ends with its seconds: another operator's acquisition then
  -- succeeds and makes that one the holder. The audit row of the session that expired stays open.
  pub expired-IsOpen :
      (ttl n : ℕ) (w : World σ) (r o : Text) (l : Lock) (t : ℕ)
      → 0 < ttl
      → t ≤ n
      → Holds σ w r l t
      → IsOpen σ w r l
      → σ.pg.robot_row w.pg r ≢ none
      → σ.pg.session_row w.pg (σ.uuid4 w.drawn) ≡ none
      → let (res, w') = acquire σ ttl r o (wait σ n w) in
        (res ≡ ok (info_of σ (wait σ n w) r (new_lock σ w o) ttl))
        × (get_holder σ r w' ≡ (ok (some o), w'))
        × IsOpen σ w' r l
  expired-IsOpen ttl n w r o l t pos over h row known fresh =
      let v = wait σ n w in
      let free = wait-Free n w r l t over h in
      elim (Option-cases (σ.pg.insert_session (σ.uuid4 w.drawn) (audit_row σ r o w.now) w.pg)) [
        | inl refused ↦ absurd (
            σ.pg.insert_session-allowed (σ.uuid4 w.drawn) (audit_row σ r o w.now) w.pg known fresh
              refused)
        | inr (d, e) ↦ rw (acquire-Free-eq σ ttl v r o d pos free e) (
          refl,
          get_holder-Holds σ (after_insert d) r (new_lock σ w o) ttl
              (locked-held σ ttl v r (new_lock σ v o) pos),
          IsOpen-kept σ w (after_insert d) r l row (
              σ.pg.session_row-insert_session (σ.uuid4 w.drawn) l.session_id (audit_row σ r o w.now)
                w.pg d e
              ∙ rw
                  (==_of_ne (σ.uuid4 w.drawn) l.session_id
                    (λ p. let found = row.found in absurd (ground arith)))
                  refl),
        )
      ]
    where
      after_insert : σ.pg.Db → World σ
      after_insert d = record (locked σ ttl (wait σ n w) r (new_lock σ w o)) {
        pg = d;
        drawn = suc w.drawn;
      }
