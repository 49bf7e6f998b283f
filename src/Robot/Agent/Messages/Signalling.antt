-- ===== src/Robot/Agent/Messages/Signalling.antt =====
-- The robot's half of a WebRTC offer (robot-container/robot_agent/agent.py), against the relay that
-- waits for the answer (cloud-container/backend/app/webrtc/relay.py).
use cloud_robotics.Prelude.{
  ℕ, suc, ◌+◌, Text, lit, ◌==◌, ◌≡◌, refl, ◌≢◌, false, Option, none, some, length, length-append,
  [], ◌∷◌, ◌++◌, arith,
}
use cloud_robotics.Json.{Json, str, obj, find, or_null, Fields}
use cloud_robotics.Backend.World.{Packet}
use cloud_robotics.Backend.Mqtt.{signal_payload}
use cloud_robotics.Backend.Relay.Events.{answer_of}
use cloud_robotics.Robot.Topics.{camera_answer_topic}
use cloud_robotics.Robot.Agent.{Agent, publish, packet}
use cloud_robotics.Robot.Agent.Messages.{handle_camera_offer, answer_payload, answer_offer}

-- The agent after an offer that it has answered with this packet.
abbrev pub answered_with : Packet → Agent → Agent
answered_with p a = record a {
  mqtt = a.mqtt ++ publish p ∷ [];
  metrics = record a.metrics { webrtc_offers_handled = suc a.metrics.webrtc_offers_handled };
}

-- An offer with a request id and an SDP, neither of them empty, that the video streamer answers:
-- the agent publishes one packet, on its answer topic at QoS 1 and not retained, that the backend's
-- relay reads as the answer to that request with the streamer's SDP; it counts the offer as handled
-- and changes nothing else.
pub handle_camera_offer-signal_payload :
    (handle_offer : Json → Option Text) (i sdp answer : Text) (a : Agent)
    → i ≢ []
    → sdp ≢ []
    → handle_offer (str sdp) ≡ some answer
    → (p : Packet) × (handle_camera_offer handle_offer (signal_payload i (str sdp)) a
        ≡ answered_with p a)
      × (p.topic ≡ camera_answer_topic a.robot_id)
      × (p.qos ≡ 1)
      × (p.retain ≡ false)
      × (answer_of p.payload ≡ some (i, str answer))
unfolding handle_camera_offer find ◌==◌
handle_camera_offer-signal_payload handle_offer [] sdp answer a hi hs h = absurd (hi refl)
handle_camera_offer-signal_payload handle_offer (x ∷ i) [] answer a hi hs h = absurd (hs refl)
handle_camera_offer-signal_payload handle_offer (x ∷ i) (y ∷ sdp) answer a hi hs h = (
  packet (camera_answer_topic a.robot_id) (answer_payload (str (x ∷ i)) answer) 1 false,
  rw h refl,
  refl,
  refl,
  refl,
  refl,
)

-- The offers that are counted.
abbrev pub offers : Agent → ℕ
offers a = a.metrics.webrtc_offers_handled + a.metrics.webrtc_offers_failed

answer_offer_counted :
    (request_id : Json) (answer : Option Text) (a : Agent)
    → length (answer_offer request_id answer a).mqtt + a.metrics.webrtc_offers_handled
      ≡ length a.mqtt + (answer_offer request_id answer a).metrics.webrtc_offers_handled
answer_offer_counted request_id none a = refl
answer_offer_counted request_id (some sdp) a = omega (
  arith,
  length-append a.mqtt (
      publish (packet (camera_answer_topic a.robot_id) (answer_payload request_id sdp) 1 false)
      ∷ []),
)

-- Each offer whose payload is a dict is counted once, as handled or as failed, and the
-- calls on the MQTT client are one more exactly if it is counted as handled.
pub offers-handle_camera_offer :
    (handle_offer : Json → Option Text) (fs : Fields) (a : Agent)
    → let a' = handle_camera_offer handle_offer (obj fs) a in
      (offers a' ≡ suc (offers a))
      × (length a'.mqtt + a.metrics.webrtc_offers_handled
          ≡ length a.mqtt + a'.metrics.webrtc_offers_handled)
unfolding handle_camera_offer
offers-handle_camera_offer handle_offer fs a =
    let counted =
      answer_offer_counted (or_null (find fs (lit "request_id")))
        (handle_offer (or_null (find fs (lit "sdp")))) a in
    (ground arith, ground (arith, counted))
