-- ===== src/Robot/Agent/Lifecycle.antt =====
-- What the broker has of a robot once its agent has connected (robot-container/robot_agent/agent.py).
use cloud_robotics.Prelude.{ℕ, Text, lit, ◌≡◌, Bool, true, Option, some, List, [], ◌∷◌, ◌++◌}
use cloud_robotics.Prelude.Int.{ℤ}
use cloud_robotics.Backend.World.{Packet}
use cloud_robotics.Robot.Topics.{cmd_topic, camera_offer_topic, status_topic}
use cloud_robotics.Robot.Agent.{
  Agent, Call, set_will, connect_client, subscribe, publish, packet, status_payload,
}

-- paho's client with its broker, of connections that are acknowledged, by what MQTT and paho say of
-- them: a will takes effect with the next connection; a connection starts without subscriptions; one
-- that is online adds to them, and has the broker keep what is published to be retained.
pub record Mqtt : Type 1 where
  pub State : Type 0
  pub serve : Call → State → State
  pub is_online : State → Bool
  pub configured : State → Option Packet
  pub will : State → Option Packet
  pub retained : Text → State → Option Packet
  pub subscriptions : State → List (Text × ℕ)
  pub configured-set_will : (p : Packet) (s : State) → configured (serve (set_will p) s) ≡ some p
  pub online-connect : (s : State) → is_online (serve connect_client s) ≡ true
  pub will-connect : (s : State) → will (serve connect_client s) ≡ configured s
  pub subscriptions-connect : (s : State) → subscriptions (serve connect_client s) ≡ []
  pub online-subscribe :
      (t : Text) (q : ℕ) (s : State) → is_online (serve (subscribe t q) s) ≡ is_online s
  pub will-subscribe : (t : Text) (q : ℕ) (s : State) → will (serve (subscribe t q) s) ≡ will s
  pub subscriptions-subscribe :
      (t : Text) (q : ℕ) (s : State)
      → is_online s ≡ true
      → subscriptions (serve (subscribe t q) s) ≡ subscriptions s ++ (t, q) ∷ []
  pub online-publish : (p : Packet) (s : State) → is_online (serve (publish p) s) ≡ is_online s
  pub will-publish : (p : Packet) (s : State) → will (serve (publish p) s) ≡ will s
  pub subscriptions-publish :
      (p : Packet) (s : State) → subscriptions (serve (publish p) s) ≡ subscriptions s
  pub retained-publish :
      (p : Packet) (s : State)
      → is_online s ≡ true
      → p.retain ≡ true
      → retained p.topic (serve (publish p) s) ≡ some p

abbrev pub serve_calls : (m : Mqtt) → List Call → m.State → m.State
serve_calls m [] s = s
serve_calls m (c ∷ cs) s = serve_calls m cs (m.serve c s)

abbrev pub status_packet : Text → Text → ℤ → Packet
status_packet robot_id status now =
    packet (status_topic robot_id) (status_payload robot_id status now) 1 true

-- What `connect` leaves at the broker: the robot is online, with the will that says offline, what is
-- retained of its status says online, and it is subscribed to its commands and its camera offers at
-- QoS 1 and to nothing else.
pub record IsConnected (m : Mqtt) (robot_id : Text) (now : ℤ) (s : m.State) : Type 0 where
  pub online : m.is_online s ≡ true
  pub will : m.will s ≡ some (status_packet robot_id (lit "offline") now)
  pub retained :
      m.retained (status_topic robot_id) s ≡ some (status_packet robot_id (lit "online") now)
  pub subscriptions :
      m.subscriptions s ≡ (cmd_topic robot_id, 1) ∷ (camera_offer_topic robot_id, 1) ∷ []
