-- ===== src/Backend/Fleet/Listing.antt =====
-- What `list_robots` of cloud-container/backend/app/fleet/manager.py answers.
use cloud_robotics.Prelude.{Text, ◌≡◌, refl, ap, ◌∙◌, Option, none, List, [], ◌∷◌, All, arith}
use cloud_robotics.Exec.{ok}
use cloud_robotics.Services.{Services}
use cloud_robotics.Backend.World.{World}
use cloud_robotics.Backend.Sessions.{get_holder}
use cloud_robotics.Backend.Registry.{RobotSummary, summarize}
use cloud_robotics.Backend.Registry.Listing.{
  IsSummarized, Summarizes, list_robots-Summarizes, summarize-fields,
}
use cloud_robotics.Backend.Fleet.{list_robots, add_holders}

module _ (σ : Services) where
  -- Each robot under its identifier and its name, with what the registry has of it and the holder
  -- of its session.
  unfoldable pub Describes : World σ → List (Text × Text) → List RobotSummary → Type 0
  Describes w [] [] = Unit
  Describes w [] (s ∷ ss) = ⊥
  Describes w (row ∷ rows) [] = ⊥
  Describes w (row ∷ rows) (s ∷ ss) =
      (s.robot_id ≡ row.0)
      × (s.display_name ≡ row.1)
      × (summarize σ row.0 row.1 w ≡ (ok (record s { in_use_by = none }), w))
      × (get_holder σ row.0 w ≡ (ok s.in_use_by, w))
      × Describes w rows ss

  -- What the stores hold of a robot and its session can be read.
  pub record IsReadable (w : World σ) (row : Text × Text) : Type 0 where
    pub summary : IsSummarized σ w row
    pub holder : Option Text
    pub held : get_holder σ row.0 w ≡ (ok holder, w)

  to_summarized :
      (w : World σ) (rows : List (Text × Text))
      → All (IsReadable w) rows
      → All (IsSummarized σ w) rows
  to_summarized w [] h = tt
  to_summarized w (row ∷ rows) h = (h.0.summary, to_summarized w rows h.1)

  add_holders-Describes :
      (w : World σ) (rows : List (Text × Text)) (ss : List RobotSummary)
      → All (IsReadable w) rows
      → Summarizes σ w rows ss
      → (rs : List RobotSummary) × (add_holders σ ss w ≡ (ok rs, w)) × Describes w rows rs
  unfolding add_holders Summarizes Describes
  add_holders-Describes w [] [] h each = ([], refl, tt)
  add_holders-Describes w [] (s ∷ ss) h each = absurd each
  add_holders-Describes w (row ∷ rows) [] h each = absurd each
  add_holders-Describes w (row ∷ rows) (s ∷ ss) h each =
      let (rs, all, described) = add_holders-Describes w rows ss h.1 each.1 in
      let (id, name, free) = summarize-fields σ w row.0 row.1 s each.0 in
      let held = h.0.held in
      (
        record s { in_use_by = h.0.holder } ∷ rs,
        ground (arith, id, held, all),
        (
          id,
          name,
          each.0 ∙ ap (λ (o : Option Text). (ok (record s { in_use_by = o }), w)) free,
          held,
          described,
        ),
      )

  -- Where what the stores hold can be read, the fleet's listing has each robot of the table once, in
  -- its order, with its name, the registry's summary and the holder of its session, and it writes
  -- nothing.
  pub list_robots-Describes :
      (w : World σ)
      → All (IsReadable w) (σ.pg.robots w.pg)
      → (rs : List RobotSummary) × (list_robots σ w ≡ (ok rs, w))
        × Describes w (σ.pg.robots w.pg) rs
  unfolding list_robots
  list_robots-Describes w h =
      let (ss, listed, each) = list_robots-Summarizes σ w (to_summarized w (σ.pg.robots w.pg) h) in
      let (rs, added, described) = add_holders-Describes w (σ.pg.robots w.pg) ss h each in
      (rs, ground arith, described)
