-- ===== src/Backend/Health/Stream.antt =====
-- What cloud-container/backend/app/ws/status.py sends to a dashboard.
use cloud_robotics.Prelude.{
  true, false, none, List, [], ◌∷◌, All, ◌≡◌, refl, Bool-cases, inl, inr, arith,
}
use cloud_robotics.Exec.{ok}
use cloud_robotics.Services.{Services}
use cloud_robotics.Backend.World.{World}
use cloud_robotics.Backend.Registry.{RobotSummary}
use cloud_robotics.Backend.Fleet.{list_robots}
use cloud_robotics.Backend.Fleet.Listing.{IsReadable, Describes, list_robots-Describes}
use cloud_robotics.Backend.Health.{Turn, status_stream}

module _ (σ : Services) where
  -- At each turn of the loop what the stores hold can be read.
  unfoldable pub StaysReadable : List (Turn σ) → World σ → Type 0
  StaysReadable [] w = Unit
  StaysReadable (turn ∷ turns) w =
      All (IsReadable σ w) (σ.pg.robots w.pg) × StaysReadable turns (turn.elsewhere w)

  -- The snapshots are of the turns up to the first that the client does not take, each of the world
  -- as it is at its turn.
  unfoldable pub Follows : List (Turn σ) → World σ → List (List RobotSummary) → Type 0
  Follows [] w sent = sent ≡ []
  Follows (turn ∷ turns) w [] = turn.taken ≡ false
  Follows (turn ∷ turns) w (robots ∷ sent) =
      (turn.taken ≡ true)
      × Describes σ w (σ.pg.robots w.pg) robots
      × Follows turns (turn.elsewhere w) sent

  -- A turn at which the fleet is listed, of a client that is there and of one that is gone.
  taken_turn :
      (turn : Turn σ) (turns : List (Turn σ)) (w : World σ) (robots : List RobotSummary)
      → list_robots σ w ≡ (ok robots, w)
      → turn.taken ≡ true
      → (status_stream σ (turn ∷ turns) w).0 ≡ (
        robots ∷ (status_stream σ turns (turn.elsewhere w)).0.0,
        (status_stream σ turns (turn.elsewhere w)).0.1,
      )
  unfolding status_stream
  taken_turn turn turns w robots listed taken = ground (arith, listed, taken)

  gone_turn :
      (turn : Turn σ) (turns : List (Turn σ)) (w : World σ) (robots : List RobotSummary)
      → list_robots σ w ≡ (ok robots, w)
      → turn.taken ≡ false
      → (status_stream σ (turn ∷ turns) w).0 ≡ ([], none)
  unfolding status_stream
  gone_turn turn turns w robots listed gone = ground (arith, listed, gone)

  -- While what the stores hold can be read, the stream sends at each turn the whole fleet as it is
  -- then, up to the turn at which the client is gone, and ends without an exception, whatever the
  -- rest of the backend does between the turns.
  pub status_stream-Follows :
      (turns : List (Turn σ)) (w : World σ)
      → StaysReadable turns w
      → Follows turns w (status_stream σ turns w).0.0 × ((status_stream σ turns w).0.1 ≡ none)
  unfolding StaysReadable Follows status_stream
  status_stream-Follows [] w h = (refl, refl)
  status_stream-Follows (turn ∷ turns) w h =
      let (robots, listed, described) = list_robots-Describes σ w h.0 in
      let (follows, ends) = status_stream-Follows turns (turn.elsewhere w) h.1 in
      elim (Bool-cases turn.taken) [
        | inl taken ↦
            rw (taken_turn turn turns w robots listed taken) ((taken, described, follows), ends)
        | inr gone ↦ rw (gone_turn turn turns w robots listed gone) (gone, refl)
      ]
