-- ===== src/Backend/Sessions/Ending.antt =====
-- How a session of cloud-container/backend/app/sessions/manager.py ends: by `release`, or by the
-- time to live that Redis counts down.
use mathlib.Core.Option
use cloud_robotics.Prelude.{
  ℕ, Text, ◌==◌, ==_refl, ==_iff, refl, ◌∙◌, ◌≢◌, Option, ◌≡◌, true, false, none, some, arith, leb,
  if◌then◌else◌,
}
use cloud_robotics.Exec.{ok, err, Result}
use cloud_robotics.Services.{Services, Lock, ended}
use cloud_robotics.Backend.World.{World}
use cloud_robotics.Backend.Sessions.{key, as_lock, release, get_holder}
use cloud_robotics.Backend.Sessions.Holding.{Free, Holds}

module _ (σ : Services) where
  -- `n` seconds in which the backend does nothing.
  abbrev pub wait : ℕ → World σ → World σ
  wait n w = record w { redis = σ.redis.elapse n w.redis }

  -- What `release` by the holder leaves: the robot has no session, the other keys are as they were,
  -- the session's audit row is ended now and the other rows are as they were.
  pub record Releases (w w' : World σ) (r : Text) (l : Lock) : Type 0 where
    pub free : Free σ w' r
    pub others :
        (k : Text) → (key r == k) ≡ false → σ.redis.lookup w'.redis k ≡ σ.redis.lookup w.redis k
    pub rows :
        (i : Text)
        → σ.pg.session_row w'.pg i ≡ (
            if l.session_id == i
            then Option.map (ended w.now) (σ.pg.session_row w.pg i)
            else σ.pg.session_row w.pg i)

  -- A holder's release returns; the robot is free, the audit row is ended and nothing else changes.
  pub release_by_holder :
      (w : World σ) (r : Text) (l : Lock) (t : ℕ)
      → Holds σ w r l t
      → let (res, w') = release σ r l.operator w in (res ≡ ok tt) × Releases w w' r l
  unfolding release
  release_by_holder w r l t h =
      let same : (l.operator == l.operator) ≡ true = ==_refl l.operator in
      (
        ground arith,
        record {
          free =
              ground (arith, σ.redis.lookup-delete (key r) (key r) w.redis, ==_refl (key r), same);
          others = λ k n. ground (arith, σ.redis.lookup-delete (key r) k w.redis, same);
          rows = λ i. ground (arith, σ.pg.session_row-end_session l.session_id i w.now w.pg, same);
        },
      )

  -- No release draws an identifier, and a holder's does not write the table of robots.
  pub drawn-release : (w : World σ) (r o : Text) → (release σ r o w).1.drawn ≡ w.drawn
  unfolding release
  drawn-release w r o = ground arith

  pub robot_row-release :
      (w : World σ) (r : Text) (l : Lock) (t : ℕ) (j : Text)
      → Holds σ w r l t
      → σ.pg.robot_row (release σ r l.operator w).1.pg j ≡ σ.pg.robot_row w.pg j
  unfolding release
  robot_row-release w r l t j h =
      ground (arith, σ.pg.robot_row-end_session l.session_id j w.now w.pg, ==_refl l.operator)

  pub get_holder-Holds :
      (w : World σ) (r : Text) (l : Lock) (t : ℕ)
      → Holds σ w r l t
      → get_holder σ r w ≡ (ok (some l.operator), w)
  unfolding get_holder
  get_holder-Holds w r l t h = ground arith

  pub get_holder-Free : (w : World σ) (r : Text) → Free σ w r → get_holder σ r w ≡ (ok none, w)
  unfolding get_holder
  get_holder-Free w r free = ground arith

  -- A session with `t` seconds left, of a client that fell silent, is held for less than `t` seconds
  -- and gone from then on.
  pub session_expires :
      (n : ℕ) (w : World σ) (r : Text) (l : Lock) (t : ℕ)
      → Holds σ w r l t
      → get_holder σ r (wait n w) ≡ (ok (if leb t n then none else some l.operator), wait n w)
  unfolding get_holder
  session_expires n w r l t h = ground (arith, σ.redis.lookup-elapse n (key r) w.redis)

  -- After an operator's release, whatever the key held before, that operator is not the holder.
  pub release_ends :
      (w : World σ) (r o : Text) → (get_holder σ r (release σ r o w).1).0 ≢ ok (some o)
  unfolding get_holder release
  release_ends w r o = go (as_lock (σ.redis.lookup w.redis (key r))) refl
    where
      deleted : σ.redis.lookup (σ.redis.delete (key r) w.redis) (key r) ≡ none
      deleted = σ.redis.lookup-delete (key r) (key r) w.redis ∙ rw (==_refl (key r)) refl

      go :
          (a : Result (Option Lock))
          → as_lock (σ.redis.lookup w.redis (key r)) ≡ a
          → (get_holder σ r (release σ r o w).1).0 ≢ ok (some o)
      go (ok none) e = ground arith
      go (ok (some l)) e = ground (arith, deleted, ==_iff l.operator o)
      go (err x) e = ground arith
