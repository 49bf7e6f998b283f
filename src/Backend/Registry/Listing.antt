-- ===== src/Backend/Registry/Listing.antt =====
-- What GET /robots and GET /robots/{id} read through cloud-container/backend/app/registry/store.py.
use cloud_robotics.Prelude.{
  Text, lit, ==_iff, ◌≡◌, refl, sym, ◌≢◌, ◌∙◌, false, none, some, List, [], ◌∷◌, arith, All,
  Option-cases, inl, inr,
}
use cloud_robotics.Exec.{is_ok, ok, err, validation_error}
use cloud_robotics.Services.{Services, find_row}
use cloud_robotics.Backend.World.{World}
use cloud_robotics.Backend.Registry.{
  key, RobotSummary, summarize, summarize_all, list_robots, get_robot, as_status,
}

module _ (σ : Services) where
  -- Reading writes nothing.
  pub summarize_pure : (r d : Text) (w : World σ) → (summarize σ r d w).1 ≡ w
  unfolding summarize
  summarize_pure r d w = ground arith

  summarize_all_pure : (rows : List (Text × Text)) (w : World σ) → (summarize_all σ rows w).1 ≡ w
  unfolding summarize_all
  summarize_all_pure [] w = refl
  summarize_all_pure ((r, d) ∷ rows) w =
      ground (arith, summarize_pure r d w, summarize_all_pure rows w)

  -- A robot's key holds a status that is none of the three literals.
  abbrev pub HasBadStatus : World σ → Text → Type 0
  HasBadStatus w r =
      as_status (σ.redis.lookup w.redis (key r (lit "status"))) ≡ err validation_error

  summarize-bad :
      (r d : Text) (w : World σ) → HasBadStatus w r → is_ok (summarize σ r d w).0 ≡ false
  unfolding summarize
  summarize-bad r d w bad = ground arith

  summarize_all-bad :
      (r : Text) (rows : List (Text × Text)) (w : World σ)
      → HasBadStatus w r
      → find_row rows r ≢ none
      → is_ok (summarize_all σ rows w).0 ≡ false
  unfolding summarize_all
  summarize_all-bad r [] w bad known = absurd (known refl)
  summarize_all-bad r ((i, d) ∷ rows) w bad known = ground (
    arith,
    ==_iff i r,
    summarize-bad r d w bad,
    summarize_pure i d w,
    summarize_all-bad r rows w bad,
  )

  -- One robot whose stored status is none of the three literals makes the listing of the whole
  -- fleet raise, whatever the other robots are.
  pub list_robots-bad :
      (r : Text) (w : World σ)
      → σ.pg.robot_row w.pg r ≢ none
      → HasBadStatus w r
      → is_ok (list_robots σ w).0 ≡ false
  unfolding list_robots
  list_robots-bad r w known bad =
      summarize_all-bad r (σ.pg.robots w.pg) w bad
        (λ e. known (sym (σ.pg.find_row-robots w.pg r) ∙ e))

  pub get_robot_pure : (r : Text) (w : World σ) → (get_robot σ r w).1 ≡ w
  unfolding get_robot
  get_robot_pure r w = elim (Option-cases (σ.pg.robot_row w.pg r)) [
    | inl e ↦ ground arith
    | inr (d, e) ↦ ground (arith, summarize_pure r d w)
  ]

  -- A robot with a bad status is no robot that the registry answers for.
  pub get_robot-bad :
      (r : Text) (w : World σ) (s : RobotSummary)
      → HasBadStatus w r
      → (get_robot σ r w).0 ≢ ok (some s)
  unfolding get_robot
  get_robot-bad r w s bad = elim (Option-cases (σ.pg.robot_row w.pg r)) [
    | inl e ↦ ground arith
    | inr (d, e) ↦ ground (arith, summarize-bad r d w bad)
  ]

  -- The summaries of a list of rows.
  unfoldable pub Summarizes : World σ → List (Text × Text) → List RobotSummary → Type 0
  Summarizes w [] [] = Unit
  Summarizes w [] (s ∷ ss) = ⊥
  Summarizes w (row ∷ rows) [] = ⊥
  Summarizes w (row ∷ rows) (s ∷ ss) =
      (summarize σ row.0 row.1 w ≡ (ok s, w)) × Summarizes w rows ss

  -- What the stores hold of a robot can be read.
  abbrev pub IsSummarized : World σ → Text × Text → Type 0
  IsSummarized w row = (s : RobotSummary) × (summarize σ row.0 row.1 w ≡ (ok s, w))

  summarize_all-Summarizes :
      (w : World σ) (rows : List (Text × Text))
      → All (IsSummarized w) rows
      → (ss : List RobotSummary) × (summarize_all σ rows w ≡ (ok ss, w)) × Summarizes w rows ss
  unfolding summarize_all Summarizes
  summarize_all-Summarizes w [] h = ([], refl, tt)
  summarize_all-Summarizes w (row ∷ rows) ((s, e), h) =
      let (ss, all, each) = summarize_all-Summarizes w rows h in (s ∷ ss, ground arith, (e, each))

  pub list_robots-Summarizes :
      (w : World σ)
      → All (IsSummarized w) (σ.pg.robots w.pg)
      → (ss : List RobotSummary) × (list_robots σ w ≡ (ok ss, w))
        × Summarizes w (σ.pg.robots w.pg) ss
  unfolding list_robots
  list_robots-Summarizes w h = summarize_all-Summarizes w (σ.pg.robots w.pg) h

  pub summarize-fields :
      (w : World σ) (r d : Text) (s : RobotSummary)
      → summarize σ r d w ≡ (ok s, w)
      → (s.robot_id ≡ r) × (s.display_name ≡ d) × (s.in_use_by ≡ none)
  unfolding summarize
  summarize-fields w r d s e = ground arith
