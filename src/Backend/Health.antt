-- ===== src/Backend/Health.antt =====
-- cloud-container/backend/app/api/health.py and ws/status.py: what the backend tells of itself and
-- of the fleet. `app.state` may lack the MQTT service or the fleet manager.
pub mod Counts
pub mod Stream
use cloud_robotics.Prelude.{
  ℕ, suc, Text, lit, Bool, true, false, Option, none, some, List, [], ◌∷◌, length, if◌then◌else◌,
}
use cloud_robotics.Exec.{Exec, Error, ok, err, pure, ◌>>=◌}
use cloud_robotics.Services.{Services}
use cloud_robotics.Backend.World.{World}
use cloud_robotics.Backend.Mqtt.{Mqtt}
use cloud_robotics.Backend.Registry.{RobotSummary, Status, online, offline, unknown}
use cloud_robotics.Backend.Fleet

pub record Health : Type 0 where
  pub status : Text
  pub service : Text
  pub mqtt_connected : Bool
  pub timestamp : Text

pub record Metrics : Type 0 where
  pub robots_known : ℕ
  pub robots_online : ℕ
  pub robots_in_use : ℕ
  pub mqtt_connected : Bool

-- `bool(mqtt and mqtt.is_connected)`
abbrev pub is_connected : {H : Type 0} → Option (Mqtt H) → Bool
is_connected none = false
is_connected (some m) = m.connected

abbrev pub is_online : RobotSummary → Bool
is_online r = elim r.status [ online ↦ true | offline ↦ false | unknown ↦ false ]

abbrev pub is_in_use : RobotSummary → Bool
is_in_use r = elim r.in_use_by [ none ↦ false | some _ ↦ true ]

-- `sum(1 for r in robots if test(r))`
abbrev pub count : {A : Type 0} → (A → Bool) → List A → ℕ
count test [] = 0
count test (r ∷ rs) = let n = count test rs in if test r then suc n else n

module _ (σ : Services) {H : Type 0} where
  pub health : Option (Mqtt H) → World σ → Health
  health mqtt w = record {
    status = if is_connected mqtt then lit "ok" else lit "degraded";
    service = lit "cloud-robotics-backend";
    mqtt_connected = is_connected mqtt;
    timestamp = σ.isoformat w.now;
  }

  -- `has_fleet`: whether `app.state` has the fleet manager.
  pub metrics : Option (Mqtt H) → Bool → Exec (World σ) Metrics
  metrics mqtt has_fleet = do
    robots ← if has_fleet then Fleet.list_robots σ else pure []
    pure (record {
      robots_known = length robots;
      robots_online = count is_online robots;
      robots_in_use = count is_in_use robots;
      mqtt_connected = is_connected mqtt;
    })

-- A turn of the status stream's loop: whether the client takes the snapshot, and what the rest of
-- the backend does while the stream sleeps.
pub record Turn (σ : Services) : Type 0 where
  pub taken : Bool
  pub elsewhere : World σ → World σ

module _ (σ : Services) where
  -- The `while True` of `status_stream`: the snapshots that are sent, and the exception that left the
  -- loop; a disconnection ends it without one.
  unfoldable pub status_stream :
      List (Turn σ) → World σ → (List (List RobotSummary) × Option Error) × World σ
  status_stream [] w = (([], none), w)
  status_stream (turn ∷ turns) w =
      let (r, w') = Fleet.list_robots σ w in
      let ((sent, e), v) = status_stream turns (turn.elsewhere w') in
      elim r [
        | err x ↦ (([], some x), w')
        | ok robots ↦ if turn.taken then ((robots ∷ sent, e), v) else (([], none), w')
      ]
