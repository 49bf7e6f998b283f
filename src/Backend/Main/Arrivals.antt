-- ===== src/Backend/Main/Arrivals.antt =====
-- What the backend answers about a robot once a packet of its agent has arrived
-- (robot-container/robot_agent/agent.py to cloud-container/backend/app/registry/store.py and
-- webrtc/relay.py).
use mathlib.Core.Option
use cloud_robotics.Prelude.{
  Text, lit, ◌==◌, ◌≡◌, refl, ◌≢◌, true, false, Option, some, [], ◌∷◌, ◌++◌,
}
use cloud_robotics.Prelude.Int.{ℤ, is_nonzero}
use cloud_robotics.Json.{Json, encoded, str, num, num_or_null, Fields, fields, find}
use cloud_robotics.Exec.{Result, ok}
use cloud_robotics.Services.{Services}
use cloud_robotics.Backend.World.{World, Packet}
use cloud_robotics.Backend.Topics.Parsing.{IsRobotId}
use cloud_robotics.Backend.Registry.{key, Status, get_telemetry, get_robot, battery_of, is_datetime}
use cloud_robotics.Backend.Registry.Recorded.{status_text, summary_of, get_robot-record_status}
use cloud_robotics.Backend.Registry.Updates.{get-record}
use cloud_robotics.Backend.Relay.{Relay, offer, resume}
use cloud_robotics.Backend.Relay.Correlation.{resume-handle_answer}
use cloud_robotics.Backend.Mqtt.{signal_payload, publish_camera_offer}
use cloud_robotics.Robot.Agent.Messages.{handle_camera_offer}
use cloud_robotics.Robot.Agent.Messages.Signalling.{handle_camera_offer-signal_payload}
use cloud_robotics.Backend.Main.{receive}
use cloud_robotics.Backend.Main.Wiring.{handle_message-robot_topics}
use cloud_robotics.Robot.Agent.{Agent, publish, packet, status_payload, publish_status}
use cloud_robotics.Robot.Agent.Publishing.{publish_telemetry, telemetry_payload}
use cloud_robotics.Robot.Topics.{telemetry_topic, status_topic, camera_offer_topic}

-- The packet that the agent publishes at a telemetry tick, once it has arrived, is what the backend
-- answers as the robot's telemetry, whatever it knew before; for a robot id without a slash that is
-- not empty.
pub telemetry_arrives :
    (σ : Services) (now : ℤ) (a : Agent) (w : World σ) (s : Relay)
    → IsRobotId a.robot_id
    → (p : Packet) × ((publish_telemetry now a).mqtt ≡ a.mqtt ++ publish p ∷ [])
      × let w' = (receive σ p.topic (encoded p.payload) (w, s)).0 in
        (get_telemetry σ a.robot_id w' ≡ (ok (telemetry_payload now a), w'))
unfolding receive publish_telemetry
telemetry_arrives σ now a w s h = (
  packet (telemetry_topic a.robot_id) (telemetry_payload now a) 0 false,
  refl,
  rw ((handle_message-robot_topics a.robot_id (telemetry_payload now a) h).1)
      ((get-record σ a.robot_id (telemetry_payload now a) w).0),
)

abbrev status_fields : Agent → Status → ℤ → Fields
status_fields a st now = fields (
    (lit "robot_id", str a.robot_id)
    ∷ (lit "status", str (status_text st))
    ∷ (lit "timestamp", num now)
    ∷ [])

found-status :
    (a : Agent) (st : Status) (now : ℤ)
    → find (status_fields a st now) (lit "status") ≡ some (str (status_text st))
unfolding find ◌==◌
found-status a st now = refl

found-timestamp :
    (a : Agent) (st : Status) (now : ℤ)
    → find (status_fields a st now) (lit "timestamp") ≡ some (num now)
unfolding find ◌==◌
found-timestamp a st now = refl

-- The packet that the agent publishes for one of the three statuses at a time that is not zero and
-- lies in the years 1 to 9999, once it has arrived: the robot is registered and its summary has that status and that time, and the
-- battery of the telemetry stored before; for a robot id without a slash that is not empty.
pub status_arrives :
    (σ : Services) (st : Status) (now : ℤ) (a : Agent) (battery : Option ℤ) (w : World σ)
    (s : Relay)
    → IsRobotId a.robot_id
    → is_nonzero now ≡ true
    → is_datetime now ≡ true
    → battery_of (σ.redis.lookup w.redis (key a.robot_id (lit "telemetry")))
      ≡ ok (num_or_null battery)
    → (p : Packet) × ((publish_status (status_text st) now a).mqtt ≡ a.mqtt ++ publish p ∷ [])
      × let w' = (receive σ p.topic (encoded p.payload) (w, s)).0 in
        (get_robot σ a.robot_id w' ≡ (ok (some (summary_of σ w a.robot_id st now battery)), w'))
unfolding receive publish_status
status_arrives σ st now a battery w s h hn hd hb = (
  packet (status_topic a.robot_id) (status_payload a.robot_id (status_text st) now) 1 true,
  refl,
  rw ((handle_message-robot_topics a.robot_id (status_payload a.robot_id (status_text st) now) h).0)
      ((get_robot-record_status σ a.robot_id (status_fields a st now) st now battery w
        (found-status a st now) (found-timestamp a st now) hn hd hb).1),
)

-- A WebRTC offer from the relay's message to its return: the relay publishes one message, on the
-- topic to which the robot's agent is subscribed; the robot's streamer answers the SDP in it, the
-- robot's packet arrives before anything else is decided, and the coroutine that waits returns the
-- streamer's SDP. The offer's SDP is not empty, nor is the robot's id, which has no slash.
pub offer_answered :
    (σ : Services) (handle_offer : Json → Option Text) (sdp answer : Text) (a : Agent) (w : World σ)
    (s : Relay)
    → IsRobotId a.robot_id
    → sdp ≢ []
    → handle_offer (str sdp) ≡ some answer
    → let (i, s') = offer σ a.robot_id sdp s in
      (q : Packet) × (s'.published ≡ s.published ++ q ∷ [])
      × (q.topic ≡ camera_offer_topic a.robot_id)
      × (p : Packet) × ((handle_camera_offer handle_offer q.payload a).mqtt
          ≡ a.mqtt ++ publish p ∷ [])
      × (Option.map
            (λ (r : Result Json × Relay). r.0)
            (resume a.robot_id i (receive σ p.topic (encoded p.payload) (w, s')).1)
          ≡ some (ok (str answer)))
unfolding receive offer publish_camera_offer
offer_answered σ handle_offer sdp answer a w s h hs ha =
    let i = σ.uuid4 s.drawn in
    let (p, e, topic, _, _, read) =
      handle_camera_offer-signal_payload handle_offer i sdp answer a (σ.uuid4-ne-nil s.drawn) hs
        ha in
    (
      packet (camera_offer_topic a.robot_id) (signal_payload i (str sdp)) 1 false,
      refl,
      refl,
      p,
      rw e refl,
      rw topic (
          rw ((handle_message-robot_topics a.robot_id p.payload h).5)
            (resume-handle_answer σ a.robot_id sdp s p.payload (str answer) read)),
    )
