-- ===== src/Backend/Main/Wiring.antt =====
-- From a robot's packet to the backend's answers: robot-container/robot_agent/agent.py through
-- cloud-container/backend/app/main.py, mqtt/service.py and registry/store.py.
use cloud_robotics.Prelude.{Text, ◌==◌, ◌≡◌, refl, [], ◌∷◌, arith}
use cloud_robotics.Json.{Json, encoded, malformed}
use cloud_robotics.Backend.Topics.Parsing.{IsRobotId, parse_topic-robot_topics}
use cloud_robotics.Backend.Mqtt.{on_message, handle_message}
use cloud_robotics.Backend.Main.{
  on_status, on_telemetry, on_health, on_heartbeat, on_lidar, on_answer, mqtt_service,
}
use cloud_robotics.Robot.Topics

-- A JSON payload on each of a robot's topics is handed once, with the robot's id, to the handler
-- that main.py registered for it, and to no other; a payload that is no JSON to none.
pub handle_message-robot_topics :
    (id : Text) (p : Json)
    → IsRobotId id
    → (handle_message mqtt_service (Topics.status_topic id) (encoded p) ≡ (on_status, id, p) ∷ [])
      × (handle_message mqtt_service (Topics.telemetry_topic id) (encoded p)
          ≡ (on_telemetry, id, p) ∷ [])
      × (handle_message mqtt_service (Topics.health_topic id) (encoded p) ≡ (on_health, id, p) ∷ [])
      × (handle_message mqtt_service (Topics.heartbeat_topic id) (encoded p)
          ≡ (on_heartbeat, id, p) ∷ [])
      × (handle_message mqtt_service (Topics.lidar_topic id) (encoded p) ≡ (on_lidar, id, p) ∷ [])
      × (handle_message mqtt_service (Topics.camera_answer_topic id) (encoded p)
          ≡ (on_answer, id, p) ∷ [])
      × ((t : Text) → handle_message mqtt_service t malformed ≡ [])
unfolding handle_message mqtt_service on_message ◌==◌
handle_message-robot_topics id p h =
    let (status, telemetry, health, heartbeat, lidar, answer) = parse_topic-robot_topics id h in
    (
      rw status refl,
      rw telemetry refl,
      rw health refl,
      rw heartbeat refl,
      rw lidar refl,
      rw answer refl,
      λ t. ground arith,
    )
