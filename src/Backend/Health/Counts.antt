-- ===== src/Backend/Health/Counts.antt =====
-- The numbers that cloud-container/backend/app/api/health.py reports.
use cloud_robotics.Prelude.{
  ◌≤◌, Text, Bool, true, false, Option, none, some, List, [], ◌∷◌, length, All, ◌≡◌, refl, arith,
}
use cloud_robotics.Exec.{ok, err}
use cloud_robotics.Services.{Services}
use cloud_robotics.Backend.World.{World}
use cloud_robotics.Backend.Mqtt.{Mqtt}
use cloud_robotics.Backend.Sessions.{get_holder}
use cloud_robotics.Backend.Registry.{RobotSummary}
use cloud_robotics.Backend.Fleet.Listing.{IsReadable, Describes, list_robots-Describes}
use cloud_robotics.Backend.Health.{Metrics, metrics, count, is_connected, is_online, is_in_use}

count_bounded : {A : Type 0} (test : A → Bool) (rs : List A) → count test rs ≤ length rs
count_bounded test [] = omega arith
count_bounded test (r ∷ rs) = ground (arith, count_bounded test rs)

module _ (σ : Services) where
  -- Whether somebody holds the robot of a row.
  abbrev pub is_held : World σ → Text × Text → Bool
  is_held w row = elim (get_holder σ row.0 w).0 [
    | err e ↦ false
    | ok h ↦ elim h [ none ↦ false | some _ ↦ true ]
  ]

  counted :
      (w : World σ) (rows : List (Text × Text)) (rs : List RobotSummary)
      → Describes σ w rows rs
      → (length rs ≡ length rows) × (count is_in_use rs ≡ count (is_held w) rows)
  unfolding Describes
  counted w [] [] h = (refl, refl)
  counted w [] (r ∷ rs) h = absurd h
  counted w (row ∷ rows) [] h = absurd h
  counted w (row ∷ rows) (r ∷ rs) (id, name, sum, held, h) =
      let (lengths, counts) = counted w rows rs h in (omega (arith, lengths), ground arith)

  -- Where what the stores hold can be read, the metrics count the table's robots and those that
  -- somebody holds, and no more robots online than there are; nothing is written.
  pub metrics_lem :
      {H : Type 0} (mqtt : Option (Mqtt H)) (w : World σ)
      → All (IsReadable σ w) (σ.pg.robots w.pg)
      → (m : Metrics) × (metrics σ mqtt true w ≡ (ok m, w))
        × (m.robots_known ≡ length (σ.pg.robots w.pg))
        × (m.robots_in_use ≡ count (is_held w) (σ.pg.robots w.pg))
        × (m.robots_online ≤ m.robots_known)
        × (m.mqtt_connected ≡ is_connected mqtt)
  unfolding metrics
  metrics_lem mqtt w h =
      let (rs, listed, described) = list_robots-Describes σ w h in
      let (lengths, counts) = counted w (σ.pg.robots w.pg) rs described in
      (
        record {
          robots_known = length rs;
          robots_online = count is_online rs;
          robots_in_use = count is_in_use rs;
          mqtt_connected = is_connected mqtt;
        },
        ground (arith, listed),
        lengths,
        counts,
        count_bounded is_online rs,
        refl,
      )
