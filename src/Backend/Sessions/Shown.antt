-- ===== src/Backend/Sessions/Shown.antt =====
-- How the stores of cloud-container/backend/app/sessions/manager.py show the sessions of the
-- specification, and that each kind of write keeps them doing so.
use mathlib.Core.Option
use cloud_robotics.Prelude.{
  ℕ, suc, ◌<◌, Text, lit, ◌==◌, ==_iff, ==_refl, ==_of_ne, ◌≡◌, refl, sym, ap, ◌∙◌, ◌≢◌, Bool-cases,
  false, Option, none, some, inl, inr, [], ◌∷◌, ◌++◌, arith, leb, if◌then◌else◌, subst, ◌-◌,
}
use cloud_robotics.Services.{Services, Lock, SessionRow, ended}
use cloud_robotics.Backend.World.{World}
use cloud_robotics.Backend.Sessions.{key, audit_row}
use cloud_robotics.Backend.Sessions.Holding.{
  Free, Holds, IsOpen, new_lock, locked, locked-held, locked-others, Takes,
}
use cloud_robotics.Backend.Sessions.Ending.{Releases}
use cloud_robotics.Backend.Sessions.Spec.{Op, Spec, perform, put, later}

append_cancel : (p s t : Text) → p ++ s ≡ p ++ t → s ≡ t
append_cancel [] s t e = e
append_cancel (c ∷ p) s t e = append_cancel p s t (ground arith)

key-ne : (r j : Text) → (r == j) ≡ false → (key r == key j) ≡ false
unfolding key
key-ne r j n = ==_of_ne (key r) (key j) (λ e.
    let same : r ≡ j = append_cancel (lit "session:") r j e in absurd (ground (arith, ==_iff r j)))

module _ (σ : Services) where
  -- What stands in the stores of a robot's session.
  pub data Shows (w : World σ) (r : Text) : Option (Text × ℕ) → Type 0 where
    idle : Free σ w r → Shows w r none
    held : (l : Lock) (t : ℕ) → Holds σ w r l t → IsOpen σ w r l → Shows w r (some (l.operator, t))

  -- The world shows the sessions of the specification, and no identifier that is yet to be drawn has
  -- an audit row.
  pub record Refines (w : World σ) (s : Spec) : Type 0 where
    pub shows : (r : Text) → Shows w r (s r)
    pub fresh : (n : ℕ) → w.drawn < suc n → σ.pg.session_row w.pg (σ.uuid4 n) ≡ none

  -- Postgres knows the robots that sessions are taken of.
  unfoldable pub OfKnown : World σ → Op → Type 0
  OfKnown w (Op.acquire r o) = σ.pg.robot_row w.pg r ≢ none
  OfKnown w (Op.renew r o) = Unit
  OfKnown w (Op.release r o) = Unit
  OfKnown w (Op.require_holder r o) = Unit
  OfKnown w (Op.get_holder r) = Unit
  OfKnown w (Op.elapse n) = Unit

  -- A session that is open stays so where its audit row does.
  pub IsOpen-kept :
      (w w' : World σ) (r : Text) (l : Lock)
      → IsOpen σ w r l
      → σ.pg.session_row w'.pg l.session_id ≡ σ.pg.session_row w.pg l.session_id
      → IsOpen σ w' r l
  IsOpen-kept w w' r l h e = record {
    row = h.row;
    found = e ∙ h.found;
    of_robot = h.of_robot;
    of_operator = h.of_operator;
    still_open = h.still_open;
  }

  -- A robot's session is shown on where its key and the open rows of its sessions are left.
  Shows-kept :
      (w w' : World σ) (r : Text) (x : Option (Text × ℕ))
      → σ.redis.lookup w'.redis (key r) ≡ σ.redis.lookup w.redis (key r)
      → ((l : Lock) → IsOpen σ w r l → IsOpen σ w' r l)
      → Shows w r x
      → Shows w' r x
  Shows-kept w w' r x e still (idle free) = idle (e ∙ free)
  Shows-kept w w' r x e still (held l t h o) = held l t (e ∙ h) (still l o)

  -- After a write of one robot's session, the world shows that, and the others as before.
  write-Refines :
      (w w' : World σ) (s : Spec) (r : Text) (x : Option (Text × ℕ))
      → Refines w s
      → Shows w' r x
      → ((j : Text) → (r == j) ≡ false → Shows w j (s j) → Shows w' j (s j))
      → ((n : ℕ) → w'.drawn < suc n → σ.pg.session_row w'.pg (σ.uuid4 n) ≡ none)
      → Refines w' (put r x s)
  write-Refines w w' s r x h here there new = record {
    shows = λ j. elim (Bool-cases (r == j)) [
      | inl same ↦ rw (same) (subst (λ k. Shows w' k x) ((==_iff r j).0 same) here)
      | inr other ↦ rw (other) (there j other (h.shows j))
    ];
    fresh = new;
  }

  Free-of : (w : World σ) (r : Text) (x : Option (Text × ℕ)) → Shows w r x → x ≡ none → Free σ w r
  Free-of w r x (idle free) e = free
  Free-of w r x (held l t h o) e = absurd (ground arith)

  -- The methods that only look, and the seconds that pass.
  module _ (ttl : ℕ) (pos : 0 < ttl) where
    pub elapse_Shows :
        (n : ℕ) (w : World σ) (r : Text) (x : Option (Text × ℕ))
        → Shows w r x
        → Shows (perform σ ttl (Op.elapse n) w).1 r (later n x)
    unfolding perform
    elapse_Shows n w r x (idle free) =
        idle (ground (arith, σ.redis.lookup-elapse n (key r) w.redis))
    elapse_Shows n w r x (held l t h o) = elim (Bool-cases (leb t n)) [
      | inl gone ↦ rw (gone) (idle (ground (arith, σ.redis.lookup-elapse n (key r) w.redis)))
      | inr stays ↦ rw (stays) (
          held l (t - n) (ground (arith, σ.redis.lookup-elapse n (key r) w.redis))
            (IsOpen-kept w (perform σ ttl (Op.elapse n) w).1 r l o refl))
    ]

    -- The session of an identifier that is not drawn yet is not open.
    ids-ne :
        (w : World σ) (s : Spec) (r : Text) (l : Lock)
        → Refines w s
        → IsOpen σ w r l
        → (σ.uuid4 w.drawn == l.session_id) ≡ false
    ids-ne w s r l h o = ==_of_ne (σ.uuid4 w.drawn) l.session_id (λ e.
        let unused = h.fresh w.drawn (omega arith) in let used = o.found in absurd (ground arith))

    pub new_session :
        (w : World σ) (s : Spec) (r o : Text) (d : σ.pg.Db)
        → Refines w s
        → Free σ w r
        → σ.pg.insert_session (σ.uuid4 w.drawn) (audit_row σ r o w.now) w.pg ≡ some d
        → Refines
            (record (locked σ ttl w r (new_lock σ w o)) { pg = d; drawn = suc w.drawn })
            (put r (some (o, ttl)) s)
    new_session w s r o d h free e =
        let l = new_lock σ w o in
        let row = audit_row σ r o w.now in
        let w' = record (locked σ ttl w r l) { pg = d; drawn = suc w.drawn } in
        let at = λ (i : Text). σ.pg.session_row-insert_session l.session_id i row w.pg d e in
        write-Refines w w' s r (some (o, ttl)) h
          (held l ttl (locked-held σ ttl w r l pos) (record {
            row = row;
            found = at l.session_id ∙ rw (==_refl l.session_id) refl;
            of_robot = refl;
            of_operator = refl;
            still_open = refl;
          }))
          (λ j other was.
            Shows-kept w w' j (s j) (locked-others σ ttl w r l (key j) pos (key-ne r j other))
              (λ m o'. IsOpen-kept w w' j m o' (at m.session_id ∙ rw (ids-ne w s j m h o') refl))
              was)
          (λ n later.
            at (σ.uuid4 n)
            ∙ rw
                (==_of_ne (σ.uuid4 w.drawn) (σ.uuid4 n)
                  (λ p. absurd (omega (arith, σ.uuid4_injective w.drawn n p))))
                (h.fresh n (omega arith)))

    -- A session that is taken or renewed by its holder.
    pub kept_session :
        (w w' : World σ) (s : Spec) (r : Text) (l : Lock)
        → Refines w s
        → IsOpen σ w r l
        → Takes σ w w' r l ttl
        → w'.pg ≡ w.pg
        → w'.drawn ≡ w.drawn
        → Refines w' (put r (some (l.operator, ttl)) s)
    kept_session w w' s r l h o takes pg drawn =
        let same = λ (i : Text). ap (λ d. σ.pg.session_row d i) pg in
        write-Refines w w' s r (some (l.operator, ttl)) h
          (held l ttl takes.held (IsOpen-kept w w' r l o (same l.session_id)))
          (λ j other was.
            Shows-kept w w' j (s j) (takes.others (key j) (key-ne r j other))
              (λ m o'. IsOpen-kept w w' j m o' (same m.session_id)) was)
          (λ n later. same (σ.uuid4 n) ∙ h.fresh n (omega (arith, drawn)))

    -- Sessions of two robots have two identifiers.
    sessions-ne :
        (w : World σ) (r j : Text) (l m : Lock)
        → (r == j) ≡ false
        → IsOpen σ w r l
        → IsOpen σ w j m
        → (l.session_id == m.session_id) ≡ false
    sessions-ne w r j l m other o o' = ==_of_ne l.session_id m.session_id (λ e.
        let row : o.row ≡ o'.row =
          ground (arith, sym o.found ∙ ap (σ.pg.session_row w.pg) e ∙ o'.found) in
        let robots : r ≡ j =
          sym o.of_robot ∙ ap (λ (x : SessionRow). x.robot_id) row ∙ o'.of_robot in
        absurd (ground (arith, ==_iff r j)))

    pub ended_session :
        (w w' : World σ) (s : Spec) (r : Text) (l : Lock)
        → Refines w s
        → IsOpen σ w r l
        → Releases σ w w' r l
        → w'.drawn ≡ w.drawn
        → Refines w' (put r none s)
    ended_session w w' s r l h o gone drawn =
        write-Refines w w' s r none h (idle gone.free)
          (λ j other was.
            Shows-kept w w' j (s j) (gone.others (key j) (key-ne r j other))
              (λ m o'.
                IsOpen-kept w w' j m o'
                  (gone.rows m.session_id ∙ rw (sessions-ne w r j l m other o o') refl))
              was)
          (λ n later. gone.rows (σ.uuid4 n) ∙ unused n (h.fresh n (omega (arith, drawn))))
      where
        unused :
            (n : ℕ)
            → σ.pg.session_row w.pg (σ.uuid4 n) ≡ none
            → (if l.session_id == σ.uuid4 n
                then Option.map (ended w.now) (σ.pg.session_row w.pg (σ.uuid4 n))
                else σ.pg.session_row w.pg (σ.uuid4 n))
              ≡ none
        unused n e = ground arith
