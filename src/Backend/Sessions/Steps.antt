-- ===== src/Backend/Sessions/Steps.antt =====
-- Each operation of cloud-container/backend/app/sessions/manager.py, on a world that shows the
-- sessions of the specification: its answer, and the sessions that the world shows then.
use cloud_robotics.Prelude.{
  ℕ, ◌<◌, Text, ◌==◌, ==_iff, ==_refl, ◌≡◌, refl, ap, ◌≢◌, Bool-cases, true, Option, Option-cases,
  none, some, inl, inr, arith, subst, ==_apart,
}
use cloud_robotics.Services.{Services, Lock}
use cloud_robotics.Backend.World.{World}
use cloud_robotics.Backend.Sessions
use cloud_robotics.Backend.Sessions.{key, audit_row}
use cloud_robotics.Backend.Sessions.Holding.{
  Holds, IsOpen, new_lock, acquire-Free-eq, renewed, renewed-Takes, renew_held, acquire_held,
  refused_to_others, refused_if_Free,
}
use cloud_robotics.Backend.Sessions.Ending.{release_by_holder, drawn-release, robot_row-release}
use cloud_robotics.Backend.Sessions.Shown.{
  Shows, idle, held, Refines, OfKnown, elapse_Shows, new_session, kept_session, ended_session,
}
use cloud_robotics.Backend.Sessions.Spec.{Op, Spec, after, answer, perform}

module _ (σ : Services) (ttl : ℕ) (pos : 0 < ttl) where
  -- What a step comes to: the answer, the sessions, and the robots that Postgres knows.
  pub record Steps (op : Op) (w : World σ) (s : Spec) : Type 0 where
    pub answered : (perform σ ttl op w).0 ≡ answer op s
    pub refines : Refines σ (perform σ ttl op w).1 (after ttl op s)
    pub robots : (j : Text) → σ.pg.robot_row (perform σ ttl op w).1.pg j ≡ σ.pg.robot_row w.pg j

  -- A call that changes nothing, and that the specification takes for one.
  unchanged_steps :
      (op : Op) (w : World σ) (s : Spec)
      → Refines σ w s
      → perform σ ttl op w ≡ (answer op s, w)
      → after ttl op s ≡ s
      → Steps op w s
  unchanged_steps op w s h ran same = record {
    answered = rw (ran) refl;
    refines = rw (ran) (rw (same) h);
    robots = λ j. rw (ran) refl;
  }

  -- The holder's calls.
  held_acquire :
      (w : World σ) (s : Spec) (r : Text) (l : Lock) (t : ℕ)
      → Refines σ w s
      → s r ≡ some (l.operator, t)
      → Holds σ w r l t
      → IsOpen σ w r l
      → Steps (Op.acquire r l.operator) w s
  unfolding perform after answer
  held_acquire w s r l t h e lock row =
      let (res, takes, pg, drawn) = acquire_held σ ttl w r l t pos lock in
      let may : (l.operator == l.operator) ≡ true = ==_refl l.operator in
      let w' = (Sessions.acquire σ ttl r l.operator w).1 in
      record {
        answered = rw (e, may, res) refl;
        refines = rw (e, may) (kept_session σ ttl pos w w' s r l h row takes pg drawn);
        robots = λ j. ap (λ d. σ.pg.robot_row d j) pg;
      }

  held_renew :
      (w : World σ) (s : Spec) (r : Text) (l : Lock) (t : ℕ)
      → Refines σ w s
      → s r ≡ some (l.operator, t)
      → Holds σ w r l t
      → IsOpen σ w r l
      → Steps (Op.renew r l.operator) w s
  unfolding perform after answer
  held_renew w s r l t h e lock row =
      let may : (l.operator == l.operator) ≡ true = ==_refl l.operator in
      let takes = renewed-Takes σ ttl w r l t pos lock in
      let ran = renew_held σ ttl w r l t lock in
      record {
        answered = rw (e, may, ran) refl;
        refines =
            rw (e, may, ran)
              (kept_session σ ttl pos w (renewed σ ttl w r) s r l h row takes refl refl);
        robots = λ j. rw (ran) refl;
      }

  held_release :
      (w : World σ) (s : Spec) (r : Text) (l : Lock) (t : ℕ)
      → Refines σ w s
      → s r ≡ some (l.operator, t)
      → Holds σ w r l t
      → IsOpen σ w r l
      → Steps (Op.release r l.operator) w s
  unfolding perform after answer
  held_release w s r l t h e lock row =
      let may : (l.operator == l.operator) ≡ true = ==_refl l.operator in
      let (res, gone) = release_by_holder σ w r l t lock in
      let w' = (Sessions.release σ r l.operator w).1 in
      record {
        answered = rw (e, may, res) refl;
        refines =
            rw (e, may)
              (ended_session σ ttl pos w w' s r l h row gone (drawn-release σ w r l.operator));
        robots = λ j. robot_row-release σ w r l t j lock;
      }

  acquire_steps :
      (w : World σ) (s : Spec) (r o : Text) (x : Option (Text × ℕ))
      → σ.pg.robot_row w.pg r ≢ none
      → Refines σ w s
      → s r ≡ x
      → Shows σ w r x
      → Steps (Op.acquire r o) w s
  acquire_steps w s r o none known h e (idle free) =
      let l = new_lock σ w o in
      let row = audit_row σ r o w.now in
      elim (Option-cases (σ.pg.insert_session l.session_id row w.pg)) [
        | inl refused ↦ absurd (
            σ.pg.insert_session-allowed l.session_id row w.pg known (h.fresh w.drawn (omega arith))
              refused)
        | inr (d, inserted) ↦ record {
          answered =
              unfold perform answer in
              rw (e) (rw (acquire-Free-eq σ ttl w r o d pos free inserted) refl);
          refines =
              unfold perform after in
              rw (e) (
                rw (acquire-Free-eq σ ttl w r o d pos free inserted)
                  (new_session σ ttl pos w s r o d h free inserted));
          robots = λ j.
              unfold perform in
              rw (acquire-Free-eq σ ttl w r o d pos free inserted)
                (σ.pg.robot_row-insert_session l.session_id j row w.pg d inserted);
        }
      ]
  acquire_steps w s r o _ known h e (held l t lock row) = elim (Bool-cases (l.operator == o)) [
    | inl same ↦
        subst (λ p. Steps (Op.acquire r p) w s) ((==_iff l.operator o).0 same)
          (held_acquire w s r l t h e lock row)
    | inr other ↦
        unchanged_steps (Op.acquire r o) w s h
          (unfold perform answer in
            rw (e, other, (refused_to_others σ ttl w r o l t lock (==_apart l.operator o other)).0)
              refl)
          (unfold after in rw (e, other) refl)
  ]

  renew_steps :
      (w : World σ) (s : Spec) (r o : Text) (x : Option (Text × ℕ))
      → Refines σ w s
      → s r ≡ x
      → Shows σ w r x
      → Steps (Op.renew r o) w s
  renew_steps w s r o none h e (idle free) =
      unchanged_steps (Op.renew r o) w s h
        (unfold perform answer in rw (e, (refused_if_Free σ ttl w r o free).0) refl)
        (unfold after in rw (e) refl)
  renew_steps w s r o _ h e (held l t lock row) = elim (Bool-cases (l.operator == o)) [
    | inl same ↦
        subst (λ p. Steps (Op.renew r p) w s) ((==_iff l.operator o).0 same)
          (held_renew w s r l t h e lock row)
    | inr other ↦
        unchanged_steps (Op.renew r o) w s h
          (unfold perform answer in
            rw (e, other, (refused_to_others σ ttl w r o l t lock (==_apart l.operator o other)).1)
              refl)
          (unfold after in rw (e, other) refl)
  ]

  release_steps :
      (w : World σ) (s : Spec) (r o : Text) (x : Option (Text × ℕ))
      → Refines σ w s
      → s r ≡ x
      → Shows σ w r x
      → Steps (Op.release r o) w s
  release_steps w s r o none h e (idle free) =
      unchanged_steps (Op.release r o) w s h
        (unfold perform answer in rw (e, (refused_if_Free σ ttl w r o free).1) refl)
        (unfold after in rw (e) refl)
  release_steps w s r o _ h e (held l t lock row) = elim (Bool-cases (l.operator == o)) [
    | inl same ↦
        subst (λ p. Steps (Op.release r p) w s) ((==_iff l.operator o).0 same)
          (held_release w s r l t h e lock row)
    | inr other ↦
        unchanged_steps (Op.release r o) w s h
          (unfold perform answer in
            rw (e, other, (refused_to_others σ ttl w r o l t lock (==_apart l.operator o other)).2)
              refl)
          (unfold after in rw (e, other) refl)
  ]

  require_steps :
      (w : World σ) (s : Spec) (r o : Text) (x : Option (Text × ℕ))
      → Refines σ w s
      → s r ≡ x
      → Shows σ w r x
      → Steps (Op.require_holder r o) w s
  require_steps w s r o none h e (idle free) =
      unchanged_steps (Op.require_holder r o) w s h
        (unfold perform answer in rw (e, (refused_if_Free σ ttl w r o free).2) refl)
        (unfold after in refl)
  require_steps w s r o _ h e (held l t lock row) = elim (Bool-cases (l.operator == o)) [
    | inl same ↦
        unchanged_steps (Op.require_holder r o) w s h
          (unfold perform answer Sessions.require_holder in ground arith) (unfold after in refl)
    | inr other ↦
        unchanged_steps (Op.require_holder r o) w s h
          (unfold perform answer Sessions.require_holder in ground arith) (unfold after in refl)
  ]

  get_steps :
      (w : World σ) (s : Spec) (r : Text) (x : Option (Text × ℕ))
      → Refines σ w s
      → s r ≡ x
      → Shows σ w r x
      → Steps (Op.get_holder r) w s
  unfolding perform answer after Sessions.get_holder
  get_steps w s r none h e (idle free) = unchanged_steps (Op.get_holder r) w s h (ground arith) refl
  get_steps w s r _ h e (held l t lock row) =
      unchanged_steps (Op.get_holder r) w s h (ground arith) refl

  -- Each operation.
  pub steps : (op : Op) (w : World σ) (s : Spec) → OfKnown σ w op → Refines σ w s → Steps op w s
  steps (Op.acquire r o) w s known h =
      unfold OfKnown in acquire_steps w s r o (s r) known h refl (h.shows r)
  steps (Op.renew r o) w s known h = renew_steps w s r o (s r) h refl (h.shows r)
  steps (Op.release r o) w s known h = release_steps w s r o (s r) h refl (h.shows r)
  steps (Op.require_holder r o) w s known h = require_steps w s r o (s r) h refl (h.shows r)
  steps (Op.get_holder r) w s known h = get_steps w s r (s r) h refl (h.shows r)
  steps (Op.elapse n) w s known h =
      unfold perform answer after in
      record {
        answered = refl;
        refines = record {
          shows = λ r. unfold perform in elapse_Shows σ ttl pos n w r (s r) (h.shows r);
          fresh = h.fresh;
        };
        robots = λ j. refl;
      }
