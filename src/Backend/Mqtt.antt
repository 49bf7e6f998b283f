-- ===== src/Backend/Mqtt.antt =====
-- cloud-container/backend/app/mqtt/service.py: the backend's one MQTT client. paho and the event
-- loop are outside: what paho's callbacks are called with are the arguments, and what they hand to
-- the event loop or to paho is their result. A handler is a value of a type `H`.
pub mod Retrying
use cloud_robotics.Prelude.{
  ℕ, zero, ◌*◌, min, Text, lit, ◌==◌, Bool, true, false, Option, none, some, List, [], ◌∷◌, ◌++◌,
  map, if◌then◌else◌,
}
use cloud_robotics.Json.{Json, Wire, encoded, malformed, field, end, str, obj}
use cloud_robotics.Exec.{Exec, modify}
use cloud_robotics.Services.{Services}
use cloud_robotics.Backend.World.{World, Packet}
use cloud_robotics.Backend.Topics.{
  cmd_topic, camera_offer_topic, status_topic_wildcard, telemetry_topic_wildcard,
  health_topic_wildcard, heartbeat_topic_wildcard, camera_answer_topic_wildcard,
  lidar_topic_wildcard, parse_topic,
}
use cloud_robotics.Backend.Models.{Command, command_text}

-- `_handlers` in insertion order, `_connected`, and whether `_loop` is set.
pub record Mqtt (H : Type 0) : Type 0 where
  pub handlers : List (Text × List H)
  pub connected : Bool
  pub has_loop : Bool

module _ {H : Type 0} where
  -- `_handlers.get(suffix)`, where a missing key has no handlers.
  abbrev pub handlers_of : Text → List (Text × List H) → List H
  handlers_of suffix [] = []
  handlers_of suffix ((k, hs) ∷ rest) = if k == suffix then hs else handlers_of suffix rest

  -- `_handlers.setdefault(suffix, []).append(handler)`
  abbrev pub append_handler : Text → H → List (Text × List H) → List (Text × List H)
  append_handler suffix h [] = (suffix, h ∷ []) ∷ []
  append_handler suffix h ((k, hs) ∷ rest) =
      if k == suffix then (k, hs ++ h ∷ []) ∷ rest else (k, hs) ∷ append_handler suffix h rest

  unfoldable pub on_message : Text → H → Mqtt H → Mqtt H
  on_message suffix handler m = record m { handlers = append_handler suffix handler m.handlers }

  -- The calls that are scheduled for the handlers of a suffix, if the payload is JSON.
  abbrev schedule : List H → Bool → Text → Wire → List (H × Text × Json)
  schedule handlers has_loop robot_id malformed = []
  schedule handlers has_loop robot_id (encoded payload) =
      if has_loop then map (λ h. (h, robot_id, payload)) handlers else []

  -- `if not handlers: return` is the empty list.
  abbrev route : Mqtt H → Option (Text × Text) → Wire → List (H × Text × Json)
  route m none payload = []
  route m (some (robot_id, suffix)) payload =
      schedule (handlers_of suffix m.handlers) m.has_loop robot_id payload

  unfoldable pub handle_message : Mqtt H → Text → Wire → List (H × Text × Json)
  handle_message m topic payload = route m (parse_topic topic) payload

  -- The subscriptions of a connection, each at QoS 1; a refused one makes none. `_connected` is set
  -- on the event loop.
  unfoldable pub handle_connect : ℕ → Mqtt H → Mqtt H × List (Text × ℕ)
  handle_connect zero m = (
    record m { connected = if m.has_loop then true else m.connected },
    map (λ t. (t, 1))
        (status_topic_wildcard ∷ telemetry_topic_wildcard ∷ health_topic_wildcard
          ∷ heartbeat_topic_wildcard ∷ camera_answer_topic_wildcard ∷ lidar_topic_wildcard ∷ []),
  )
  handle_connect rc m = (m, [])

  unfoldable pub handle_disconnect : Mqtt H → Mqtt H
  handle_disconnect m = record m { connected = if m.has_loop then false else m.connected }

  -- `disconnect`
  unfoldable pub disconnect : Mqtt H → Mqtt H
  disconnect m = record m { connected = false }

-- The `while True` of `connect`: each attempt raises OSError (false) or succeeds (true). The result
-- is the seconds slept after each failure, and whether an attempt has succeeded; where the attempts
-- run out the loop is still waiting.
unfoldable pub connect_from : ℕ → List Bool → List ℕ × Bool
connect_from delay [] = ([], false)
connect_from delay (true ∷ attempts) = ([], true)
connect_from delay (false ∷ attempts) =
    let (slept, done) = connect_from (min (delay * 2) 30) attempts in (delay ∷ slept, done)

unfoldable pub connect : List Bool → List ℕ × Bool
unfolding connect_from
connect attempts = connect_from 1 attempts

module _ (σ : Services) where
  abbrev publish : Text → Json → Exec (World σ) (Unit {0})
  publish topic payload = modify (λ w. record w {
    published =
        w.published ++ (record { topic = topic; payload = payload; qos = 1; retain = false }) ∷ [];
  })

  -- `{"command": command, "issued_at": _iso_now()}`
  abbrev pub command_payload : Text → Text → Json
  command_payload command issued_at =
      obj (field (lit "command") (str command) (field (lit "issued_at") (str issued_at) end))

  unfoldable pub publish_command : Text → Command → Exec (World σ) (Unit {0})
  publish_command robot_id command w =
      publish (cmd_topic robot_id) (command_payload (command_text command) (σ.isoformat w.now)) w

-- `{"request_id": request_id, "sdp": sdp}`
abbrev pub signal_payload : Text → Json → Json
signal_payload request_id sdp =
    obj (field (lit "request_id") (str request_id) (field (lit "sdp") sdp end))

unfoldable pub publish_camera_offer : Text → Text → Text → List Packet → List Packet
publish_camera_offer robot_id request_id sdp published =
    published
    ++ (record {
      topic = camera_offer_topic robot_id;
      payload = signal_payload request_id (str sdp);
      qos = 1;
      retain = false;
    })
      ∷ []
