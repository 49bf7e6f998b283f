-- ===== src/Backend/Fleet.antt =====
-- cloud-container/backend/app/fleet/manager.py: the operations that the API and the WebSockets
-- call, composed of the registry, the sessions and MQTT.
pub mod Commands
pub mod Listing
use cloud_robotics.Prelude.{Text, Option, none, some, List, [], ◌∷◌, ℕ}
use cloud_robotics.Json.{Json}
use cloud_robotics.Exec.{Exec, pure, raise, lift, ◌>>=◌, ◌>>◌, robot_not_found}
use cloud_robotics.Services.{Services}
use cloud_robotics.Backend.World.{World}
use cloud_robotics.Backend.Models.{Command, forward, backward, left, right, stop}
use cloud_robotics.Backend.Sessions
use cloud_robotics.Backend.Sessions.{SessionInfo}
use cloud_robotics.Backend.Registry
use cloud_robotics.Backend.Registry.{RobotSummary, as_optional_dict}
use cloud_robotics.Backend.Mqtt.{publish_command}

-- `RobotDetail`: a summary with the three payloads, each a dict or null.
pub record RobotDetail : Type 0 where
  pub summary : RobotSummary
  pub telemetry : Json
  pub health : Json
  pub lidar : Json

module _ (σ : Services) where
  abbrev require_some : {A : Type 0} → Text → Option A → Exec (World σ) A
  require_some robot_id none = raise (robot_not_found robot_id)
  require_some robot_id (some a) = pure a

  unfoldable pub require_known : Text → Exec (World σ) (Unit {0})
  require_known robot_id = do
    found ← Registry.get_robot σ robot_id
    require_some robot_id found
    pure tt

  add_holders : List RobotSummary → Exec (World σ) (List RobotSummary)
  add_holders [] = pure []
  add_holders (summary ∷ summaries) = do
    holder ← Sessions.get_holder σ summary.robot_id
    rest ← add_holders summaries
    pure (record summary { in_use_by = holder } ∷ rest)

  pub list_robots : Exec (World σ) (List RobotSummary)
  list_robots = do summaries ← Registry.list_robots σ; add_holders summaries

  pub get_robot : Text → Exec (World σ) RobotDetail
  get_robot robot_id = do
    found ← Registry.get_robot σ robot_id
    summary ← require_some robot_id found
    holder ← Sessions.get_holder σ robot_id
    telemetry ← Registry.get_telemetry σ robot_id
    health ← Registry.get_health σ robot_id
    lidar ← Registry.get_lidar_scan σ robot_id
    telemetry' ← lift (as_optional_dict telemetry)
    health' ← lift (as_optional_dict health)
    lidar' ← lift (as_optional_dict lidar)
    pure (record {
      summary = record summary { in_use_by = holder };
      telemetry = telemetry';
      health = health';
      lidar = lidar';
    })

  pub release_session : Text → Text → Exec (World σ) (Unit {0})
  unfolding require_known
  release_session robot_id operator = do
    require_known robot_id
    Sessions.release σ robot_id operator

  module _ (ttl_seconds : ℕ) where
    unfoldable pub acquire_session : Text → Text → Exec (World σ) SessionInfo
    unfolding require_known
    acquire_session robot_id operator = do
      require_known robot_id
      Sessions.acquire σ ttl_seconds robot_id operator

    -- `if command != "stop":`
    abbrev hold_session : Text → Text → Exec (World σ) (Unit {0})
    hold_session robot_id operator = do
      Sessions.require_holder σ robot_id operator
      Sessions.renew σ ttl_seconds robot_id operator

    abbrev authorise : Text → Text → Command → Exec (World σ) (Unit {0})
    authorise robot_id operator stop = pure tt
    authorise robot_id operator forward = hold_session robot_id operator
    authorise robot_id operator backward = hold_session robot_id operator
    authorise robot_id operator left = hold_session robot_id operator
    authorise robot_id operator right = hold_session robot_id operator

    pub send_command : Text → Text → Command → Exec (World σ) (Unit {0})
    unfolding require_known
    send_command robot_id operator command = do
      require_known robot_id
      authorise robot_id operator command
      publish_command σ robot_id command
