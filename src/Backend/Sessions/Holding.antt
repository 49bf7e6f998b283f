-- ===== src/Backend/Sessions/Holding.antt =====
-- What each method of cloud-container/backend/app/sessions/manager.py does to a robot's session,
-- branch by branch.
use cloud_robotics.Prelude.{
  Option, ==_iff, Bool-cases, ◌⊎◌, ℕ, suc, ◌+◌, ◌*◌, ◌<◌, Text, ◌==◌, ==_refl, ==_of_ne, ◌≡◌, refl,
  ◌∙◌, ◌≢◌, false, none, some, inl, inr, Option-cases, arith,
}
use cloud_robotics.Exec.{ok, err, session_conflict, Error, Result}
use cloud_robotics.Services.{Services, Lock, Stored, entry, SessionRow}
use cloud_robotics.Backend.World.{World}
use cloud_robotics.Backend.Sessions.{
  as_lock, get_holder, SessionInfo, key, acquire, renew, release, require_holder, audit_row,
  already_controlled, not_active_holder, not_control_holder,
}

module _ (σ : Services) where
  -- No session for the robot, and one with `t` seconds left.
  abbrev pub Free : World σ → Text → Type 0
  Free w r = σ.redis.lookup w.redis (key r) ≡ none

  abbrev pub Holds : World σ → Text → Lock → ℕ → Type 0
  Holds w r l t = σ.redis.lookup w.redis (key r) ≡ some (entry (Stored.lock l) (some t))

  -- A session that another operator holds: acquire, renew, release and require_holder raise a
  -- conflict and change nothing.
  pub refused_to_others :
      (ttl : ℕ) (w : World σ) (r o : Text) (l : Lock) (t : ℕ)
      → Holds w r l t
      → l.operator ≢ o
      → (acquire σ ttl r o w ≡ (err (session_conflict (already_controlled r)), w))
        × (renew σ ttl r o w ≡ (err (session_conflict (not_active_holder o r)), w))
        × (release σ r o w ≡ (err (session_conflict (not_active_holder o r)), w))
        × (require_holder σ r o w ≡ (err (session_conflict (not_control_holder o r)), w))
  unfolding acquire renew release require_holder
  refused_to_others ttl w r o l t h n =
      let no : (l.operator == o) ≡ false = ==_of_ne l.operator o n in
      (ground arith, ground arith, ground arith, ground arith)

  -- Without a session, renew and require_holder raise, and release returns; nothing changes.
  pub refused_if_Free :
      (ttl : ℕ) (w : World σ) (r o : Text)
      → Free w r
      → (renew σ ttl r o w ≡ (err (session_conflict (not_active_holder o r)), w))
        × (release σ r o w ≡ (ok tt, w))
        × (require_holder σ r o w ≡ (err (session_conflict (not_control_holder o r)), w))
  unfolding renew release require_holder
  refused_if_Free ttl w r o h = (ground arith, ground arith, ground arith)

  -- The audit row of a session that is open.
  pub record IsOpen (w : World σ) (r : Text) (l : Lock) : Type 0 where
    pub row : SessionRow
    pub found : σ.pg.session_row w.pg l.session_id ≡ some row
    pub of_robot : row.robot_id ≡ r
    pub of_operator : row.operator ≡ l.operator
    pub still_open : row.ended_at ≡ none

  -- `w'` has the session `l` of robot `r` with `t` seconds left, and the other sessions of `w`.
  pub record Takes (w w' : World σ) (r : Text) (l : Lock) (t : ℕ) : Type 0 where
    pub held : Holds w' r l t
    pub others :
        (k : Text) → (key r == k) ≡ false → σ.redis.lookup w'.redis k ≡ σ.redis.lookup w.redis k

  -- The lock that a new session of the operator is held by.
  abbrev pub new_lock : World σ → Text → Lock
  new_lock w o = record { session_id = σ.uuid4 w.drawn; operator = o; acquired_at = w.now }

  abbrev pub info_of : World σ → Text → Lock → ℕ → SessionInfo
  info_of w r l t = record {
    session_id = l.session_id;
    robot_id = r;
    operator = l.operator;
    acquired_at = l.acquired_at;
    expires_at = w.now + t * 1000;
  }

  -- The world after the lock is written.
  abbrev pub locked : ℕ → World σ → Text → Lock → World σ
  locked ttl w r l = record w { redis = σ.redis.set (key r) (Stored.lock l) (some ttl) w.redis }

  pub locked-held :
      (ttl : ℕ) (w : World σ) (r : Text) (l : Lock) → 0 < ttl → Holds (locked ttl w r l) r l ttl
  locked-held ttl w r l pos =
      σ.redis.lookup-set_ex (key r) (key r) (Stored.lock l) ttl w.redis pos
      ∙ rw (==_refl (key r)) refl

  pub locked-others :
      (ttl : ℕ) (w : World σ) (r : Text) (l : Lock) (k : Text)
      → 0 < ttl
      → (key r == k) ≡ false
      → σ.redis.lookup (locked ttl w r l).redis k ≡ σ.redis.lookup w.redis k
  locked-others ttl w r l k pos h =
      σ.redis.lookup-set_ex (key r) k (Stored.lock l) ttl w.redis pos ∙ rw h refl

  pub acquire-Free-eq :
      (ttl : ℕ) (w : World σ) (r o : Text) (d : σ.pg.Db)
      → 0 < ttl
      → Free w r
      → σ.pg.insert_session (σ.uuid4 w.drawn) (audit_row σ r o w.now) w.pg ≡ some d
      → acquire σ ttl r o w ≡ (
        ok (info_of w r (new_lock w o) ttl),
        record (locked ttl w r (new_lock w o)) { pg = d; drawn = suc w.drawn },
      )
  unfolding acquire
  acquire-Free-eq ttl w r o d pos free e = ground (arith, locked-held ttl w r (new_lock w o) pos)

  -- Of a robot without a session, known to Postgres, and a fresh identifier: acquire answers with a
  -- new session that expires `ttl` seconds from now, holds the lock for that long, leaves the other
  -- keys alone and opens an audit row.
  pub acquire-Free :
      (ttl : ℕ) (w : World σ) (r o : Text)
      → 0 < ttl
      → Free w r
      → σ.pg.robot_row w.pg r ≢ none
      → σ.pg.session_row w.pg (σ.uuid4 w.drawn) ≡ none
      → let (res, w') = acquire σ ttl r o w in
        (res ≡ ok (info_of w r (new_lock w o) ttl))
        × Takes w w' r (new_lock w o) ttl
        × IsOpen w' r (new_lock w o)
  acquire-Free ttl w r o pos free known fresh =
      let l = new_lock w o in
      let row = audit_row σ r o w.now in
      elim (Option-cases (σ.pg.insert_session l.session_id row w.pg)) [
        | inl refused ↦
            absurd (σ.pg.insert_session-allowed l.session_id row w.pg known fresh refused)
        | inr (d, e) ↦ rw (acquire-Free-eq ttl w r o d pos free e) (
          refl,
          record {
            held = locked-held ttl w r l pos;
            others = λ k h. locked-others ttl w r l k pos h;
          },
          record {
            row = row;
            found =
                σ.pg.session_row-insert_session l.session_id l.session_id row w.pg d e
                ∙ rw (==_refl l.session_id) refl;
            of_robot = refl;
            of_operator = refl;
            still_open = refl;
          },
        )
      ]

  -- Of a robot that the operator holds: acquire keeps the session, its identifier and its start, and
  -- gives it `ttl` seconds again; no identifier is drawn and Postgres is not written.
  pub acquire_held :
      (ttl : ℕ) (w : World σ) (r : Text) (l : Lock) (t : ℕ)
      → 0 < ttl
      → Holds w r l t
      → let (res, w') = acquire σ ttl r l.operator w in
        (res ≡ ok (info_of w r l ttl)) × Takes w w' r l ttl × (w'.pg ≡ w.pg) × (w'.drawn ≡ w.drawn)
  acquire_held ttl w r l t pos h = rw (acquire_held-eq) (
    refl,
    record { held = locked-held ttl w r l pos; others = λ k n. locked-others ttl w r l k pos n },
    refl,
    refl,
  )
    where
      acquire_held-eq : acquire σ ttl r l.operator w ≡ (ok (info_of w r l ttl), locked ttl w r l)
      acquire_held-eq =
          unfold acquire in ground (arith, locked-held ttl w r l pos, ==_refl l.operator)

  -- The world after the time to live is set again.
  abbrev pub renewed : ℕ → World σ → Text → World σ
  renewed ttl w r = record w { redis = σ.redis.expire (key r) ttl w.redis }

  pub renewed-Takes :
      (ttl : ℕ) (w : World σ) (r : Text) (l : Lock) (t : ℕ)
      → 0 < ttl
      → Holds w r l t
      → Takes w (renewed ttl w r) r l ttl
  renewed-Takes ttl w r l t pos h = record {
    held = ground (arith, σ.redis.lookup-expire (key r) (key r) ttl w.redis pos, ==_refl (key r));
    others = λ k n. ground (arith, σ.redis.lookup-expire (key r) k ttl w.redis pos);
  }

  -- A holder passes `require_holder`, and its renewal sets the time to live again.
  pub require_holder_held :
      (w : World σ) (r : Text) (l : Lock) (t : ℕ)
      → Holds w r l t
      → require_holder σ r l.operator w ≡ (ok tt, w)
  unfolding require_holder
  require_holder_held w r l t h = ground (arith, ==_refl l.operator)

  pub renew_held :
      (ttl : ℕ) (w : World σ) (r : Text) (l : Lock) (t : ℕ)
      → Holds w r l t
      → renew σ ttl r l.operator w ≡ (ok tt, renewed ttl w r)
  unfolding renew
  renew_held ttl w r l t h = ground (arith, ==_refl l.operator)

  -- `require_holder` returns exactly when `get_holder` names the operator, and writes nothing.
  pub require_holder_cases :
      (w : World σ) (r o : Text)
      → ((get_holder σ r w ≡ (ok (some o), w)) × (require_holder σ r o w ≡ (ok tt, w)))
        ⊎ ((x : Error) × (require_holder σ r o w ≡ (err x, w)))
  unfolding get_holder require_holder
  require_holder_cases w r o = go (as_lock (σ.redis.lookup w.redis (key r))) refl
    where
      go :
          (a : Result (Option Lock))
          → as_lock (σ.redis.lookup w.redis (key r)) ≡ a
          → ((get_holder σ r w ≡ (ok (some o), w)) × (require_holder σ r o w ≡ (ok tt, w)))
            ⊎ ((x : Error) × (require_holder σ r o w ≡ (err x, w)))
      go (ok none) e = inr (session_conflict (not_control_holder o r), ground arith)
      go (ok (some l)) e = elim (Bool-cases (l.operator == o)) [
        | inl same ↦ inl (ground (arith, ==_iff l.operator o), ground arith)
        | inr other ↦ inr (session_conflict (not_control_holder o r), ground arith)
      ]
      go (err x) e = inr (x, ground arith)

  pub published-renew :
      (ttl : ℕ) (w : World σ) (r o : Text) → (renew σ ttl r o w).1.published ≡ w.published
  unfolding renew
  published-renew ttl w r o = ground arith
