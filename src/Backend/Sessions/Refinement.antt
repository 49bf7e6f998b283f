-- ===== src/Backend/Sessions/Refinement.antt =====
-- The session manager (cloud-container/backend/app/sessions/manager.py) against its specification:
-- over any sequence of operations it answers as the specification does, and each session that is held
-- has its audit row open.
use cloud_robotics.Prelude.{ℕ, ◌<◌, Text, ◌≡◌, refl, sym, ◌∙◌, List, [], ◌∷◌, All}
use cloud_robotics.Services.{Services}
use cloud_robotics.Backend.World.{World}
use cloud_robotics.Backend.Sessions.Shown.{Refines, OfKnown}
use cloud_robotics.Backend.Sessions.Spec.{Op, Spec, after, replay, perform, run}
use cloud_robotics.Backend.Sessions.Steps.{steps}

module _ (σ : Services) (ttl : ℕ) (pos : 0 < ttl) where
  -- The robots of the operations stay known.
  known_kept :
      (w w' : World σ) (ops : List Op)
      → ((j : Text) → σ.pg.robot_row w'.pg j ≡ σ.pg.robot_row w.pg j)
      → All (OfKnown σ w) ops
      → All (OfKnown σ w') ops
  unfolding OfKnown
  known_kept w w' [] e known = tt
  known_kept w w' (Op.acquire r o ∷ ops) e known =
      (λ gone. known.0 (sym (e r) ∙ gone), known_kept w w' ops e known.1)
  known_kept w w' (Op.renew r o ∷ ops) e known = (tt, known_kept w w' ops e known.1)
  known_kept w w' (Op.release r o ∷ ops) e known = (tt, known_kept w w' ops e known.1)
  known_kept w w' (Op.require_holder r o ∷ ops) e known = (tt, known_kept w w' ops e known.1)
  known_kept w w' (Op.get_holder r ∷ ops) e known = (tt, known_kept w w' ops e known.1)
  known_kept w w' (Op.elapse n ∷ ops) e known = (tt, known_kept w w' ops e known.1)

  -- Over any operations on robots that Postgres knows, from a world that shows the sessions of a
  -- specification, the session manager gives the answers of the specification's replay, and the
  -- world that it leaves shows the sessions after that: who holds each robot, for how many seconds,
  -- each with its audit row open.
  pub run-Refines :
      (ops : List Op) (w : World σ) (s : Spec)
      → All (OfKnown σ w) ops
      → Refines σ w s
      → let (answers, w') = run σ ttl ops w in
        (answers ≡ (replay ttl ops s).0) × Refines σ w' (replay ttl ops s).1
  unfolding run replay
  run-Refines [] w s known h = (refl, h)
  run-Refines (op ∷ ops) w s known h =
      let step = steps σ ttl pos op w s known.0 h in
      let (answers, shown) =
        run-Refines ops (perform σ ttl op w).1 (after ttl op s)
          (known_kept w (perform σ ttl op w).1 ops step.robots known.1) step.refines in
      (rw (step.answered, answers) refl, shown)
