-- ===== src/Backend/Sessions/Race.antt =====
-- Two runs of `acquire` (cloud-container/backend/app/sessions/manager.py) that take turns at their
-- awaits: both read the key before either writes it.
use cloud_robotics.Prelude.{
  ℕ, suc, ◌<◌, Text, ◌==◌, ==_refl, ==_of_ne, ◌≡◌, refl, sym, ◌∙◌, ◌≢◌, none, some, inl, inr,
  Option-cases, arith, false,
}
use cloud_robotics.Exec.{ok, err, session_conflict}
use cloud_robotics.Services.{Services, Lock}
use cloud_robotics.Backend.World.{World}
use cloud_robotics.Backend.Sessions.{
  read, to_info, acquire_from, renew, audit_row, get_holder, not_active_holder,
}
use cloud_robotics.Backend.Sessions.Holding.{
  Free, Holds, IsOpen, new_lock, info_of, locked, locked-held, refused_to_others,
}
use cloud_robotics.Backend.Sessions.Ending.{get_holder-Holds}

module _ (σ : Services) where
  -- Postgres takes a session's row for a known robot under a fresh identifier.
  pub record IsReady (w : World σ) (r : Text) : Type 0 where
    pub known : σ.pg.robot_row w.pg r ≢ none
    pub fresh : (n : ℕ) → w.drawn < suc n → σ.pg.session_row w.pg (σ.uuid4 n) ≡ none

  -- What the rest of `acquire` leaves where the read found no session.
  record Creates (w w' : World σ) (r o : Text) (ttl : ℕ) : Type 0 where
    pub held : Holds σ w' r (new_lock σ w o) ttl
    pub ready : IsReady w' r
    pub drawn : w'.drawn ≡ suc w.drawn
    pub opened : IsOpen σ w' r (new_lock σ w o)
    pub rows :
        (i : Text)
        → (σ.uuid4 w.drawn == i) ≡ false
        → σ.pg.session_row w'.pg i ≡ σ.pg.session_row w.pg i

  creates :
      (ttl : ℕ) (w : World σ) (r o : Text)
      → 0 < ttl
      → IsReady w r
      → (w' : World σ) × (acquire_from σ ttl r o none w
          ≡ (ok (info_of σ w r (new_lock σ w o) ttl), w'))
        × Creates w w' r o ttl
  creates ttl w r o pos ready =
      elim (Option-cases (σ.pg.insert_session (σ.uuid4 w.drawn) (audit_row σ r o w.now) w.pg)) [
        | inl refused ↦ absurd (
            σ.pg.insert_session-allowed (σ.uuid4 w.drawn) (audit_row σ r o w.now) w.pg ready.known
              (ready.fresh w.drawn (omega arith)) refused)
        | inr (d, e) ↦ (
          record (locked σ ttl w r (new_lock σ w o)) { pg = d; drawn = suc w.drawn },
          unfold to_info in ground (arith, e, locked-held σ ttl w r (new_lock σ w o) pos),
          created d e,
        )
      ]
    where
      l : Lock
      l = new_lock σ w o

      created :
          (d : σ.pg.Db)
          → σ.pg.insert_session (σ.uuid4 w.drawn) (audit_row σ r o w.now) w.pg ≡ some d
          → Creates w (record (locked σ ttl w r l) { pg = d; drawn = suc w.drawn }) r o ttl
      created d e = record {
        held = locked-held σ ttl w r l pos;
        ready = record {
          known = λ n. ready.known (
              sym
                (σ.pg.robot_row-insert_session (σ.uuid4 w.drawn) r (audit_row σ r o w.now) w.pg d e)
              ∙ n);
          fresh = λ n later.
              σ.pg.session_row-insert_session (σ.uuid4 w.drawn) (σ.uuid4 n) (audit_row σ r o w.now)
                w.pg d e
              ∙ rw
                  (==_of_ne (σ.uuid4 w.drawn) (σ.uuid4 n)
                    (λ p. absurd (omega (arith, σ.uuid4_injective w.drawn n p))))
                  (ready.fresh n (omega arith));
        };
        drawn = refl;
        opened = record {
          row = audit_row σ r o w.now;
          found =
              σ.pg.session_row-insert_session (σ.uuid4 w.drawn) (σ.uuid4 w.drawn)
                (audit_row σ r o w.now) w.pg d e
              ∙ rw (==_refl (σ.uuid4 w.drawn)) refl;
          of_robot = refl;
          of_operator = refl;
          still_open = refl;
        };
        rows = λ i n.
            σ.pg.session_row-insert_session (σ.uuid4 w.drawn) i (audit_row σ r o w.now) w.pg d e
            ∙ rw n refl;
      }

  read-Free : (w : World σ) (r : Text) → Free σ w r → read σ r w ≡ (ok none, w)
  unfolding read
  read-Free w r free = ground arith

  -- After the reads of two operators that both find no session, both writes succeed. Each operator is
  -- told that the session is its own, the later writer holds it, the earlier one's renewal is refused,
  -- and its audit row stays open.
  pub both_acquire :
      (ttl : ℕ) (w : World σ) (r a b : Text)
      → 0 < ttl
      → IsReady w r
      → Free σ w r
      → a ≢ b
      → let (res_a, w₁) = acquire_from σ ttl r a none w in
        let (res_b, w₂) = acquire_from σ ttl r b none w₁ in
        (read σ r w ≡ (ok none, w))
        × (res_a ≡ ok (info_of σ w r (new_lock σ w a) ttl))
        × (res_b ≡ ok (info_of σ w₁ r (new_lock σ w₁ b) ttl))
        × (get_holder σ r w₂ ≡ (ok (some b), w₂))
        × (renew σ ttl r a w₂ ≡ (err (session_conflict (not_active_holder a r)), w₂))
        × IsOpen σ w₂ r (new_lock σ w a)
  both_acquire ttl w r a b pos ready free ne =
      let (w₁, run₁, made₁) = creates ttl w r a pos ready in
      let (w₂, run₂, made₂) = creates ttl w₁ r b pos made₁.ready in
      rw (run₁) (
        rw (run₂) (
          read-Free w r free,
          refl,
          refl,
          get_holder-Holds σ w₂ r (new_lock σ w₁ b) ttl made₂.held,
          (refused_to_others σ ttl w₂ r a (new_lock σ w₁ b) ttl made₂.held (λ e. ne (sym e))).1,
          record {
            row = made₁.opened.row;
            found = made₂.rows (σ.uuid4 w.drawn) (later w₁ made₁.drawn) ∙ made₁.opened.found;
            of_robot = made₁.opened.of_robot;
            of_operator = made₁.opened.of_operator;
            still_open = made₁.opened.still_open;
          },
        ))
    where
      later : (v : World σ) → v.drawn ≡ suc w.drawn → (σ.uuid4 v.drawn == σ.uuid4 w.drawn) ≡ false
      later v e =
          ==_of_ne (σ.uuid4 v.drawn) (σ.uuid4 w.drawn)
            (λ p. absurd (omega (arith, σ.uuid4_injective v.drawn w.drawn p)))
