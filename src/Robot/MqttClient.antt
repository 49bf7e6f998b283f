-- ===== src/Robot/MqttClient.antt =====
-- robot-container/robot_agent/mqtt_client.py: PahoMQTTClient. What it calls on paho's client is the
-- list of subscriptions; a callback is a value of a type `C`. The loop of `connect` is, line for
-- line, the one of the backend's client (Backend/Mqtt).
pub mod Resubscribe
use cloud_robotics.Prelude.{
  ℕ, zero, ◌*◌, min, Text, ◌==◌, Bool, true, false, Option, none, some, List, [], ◌∷◌, ◌++◌, map,
  if◌then◌else◌,
}
use cloud_robotics.Backend.Mqtt
use cloud_robotics.Json.{Json, Wire, encoded, malformed}

-- `_subscriptions` in insertion order, `_connected`, whether `_loop` is set, and the calls of
-- `client.subscribe`.
pub record Client (C : Type 0) : Type 0 where
  pub subscriptions : List (Text × ℕ × C)
  pub connected : Bool
  pub has_loop : Bool
  pub subscribed : List (Text × ℕ)

module _ {C : Type 0} where
  -- `_subscriptions[topic] = (qos, callback)`
  abbrev pub set_subscription : Text → ℕ → C → List (Text × ℕ × C) → List (Text × ℕ × C)
  set_subscription topic qos c [] = (topic, qos, c) ∷ []
  set_subscription topic qos c ((t, q, d) ∷ rest) =
      if t == topic then (t, qos, c) ∷ rest else (t, q, d) ∷ set_subscription topic qos c rest

  -- `_subscriptions.get(topic)`
  abbrev pub subscription_of : Text → List (Text × ℕ × C) → Option (ℕ × C)
  subscription_of topic [] = none
  subscription_of topic ((t, q, d) ∷ rest) =
      if t == topic then some (q, d) else subscription_of topic rest

  pub subscribe : Text → ℕ → C → Client C → Client C
  subscribe topic qos callback s = record s {
    subscriptions = set_subscription topic qos callback s.subscriptions;
    subscribed = if s.connected then s.subscribed ++ (topic, qos) ∷ [] else s.subscribed;
  }

  -- `for topic, (qos, _callback) in self._subscriptions.items(): client.subscribe(topic, qos=qos)`
  abbrev pub wanted : List (Text × ℕ × C) → List (Text × ℕ)
  wanted [] = []
  wanted ((t, q, c) ∷ rest) = (t, q) ∷ wanted rest

  pub handle_connect : ℕ → Client C → Client C
  handle_connect zero s = record s {
    connected = if s.has_loop then true else s.connected;
    subscribed = s.subscribed ++ wanted s.subscriptions;
  }
  handle_connect rc s = s

  pub handle_disconnect : Client C → Client C
  handle_disconnect s = record s { connected = if s.has_loop then false else s.connected }

  -- The seconds slept between the attempts to connect, and whether one has succeeded. The wait for the
  -- acknowledgement that follows ends after 10 seconds with or without it, and changes nothing here.
  pub connect : List Bool → Client C → (List ℕ × Bool) × Client C
  connect attempts s = (Mqtt.connect attempts, record s { has_loop = true })

  pub disconnect : Client C → Client C
  disconnect s = record s { connected = false }

  abbrev call : Option (ℕ × C) → Wire → Option (C × Json)
  call none payload = none
  call (some (q, c)) malformed = none
  call (some (q, c)) (encoded v) = some (c, v)

  -- The callback that is called and its payload; what it raises is logged and dropped.
  pub handle_message : Text → Wire → Client C → Option (C × Json)
  handle_message topic payload s = call (subscription_of topic s.subscriptions) payload
