-- ===== src/Robot/MqttClient/Resubscribe.antt =====
-- robot-container/robot_agent/mqtt_client.py: the table of subscriptions, replayed at each
-- connection, and the callback that a message reaches.
use mathlib.Core.Option
use cloud_robotics.Prelude.{
  ℕ, Text, ◌==◌, ◌≡◌, refl, Option, none, some, List, [], ◌∷◌, ◌++◌, arith, ==_iff, if◌then◌else◌,
}
use cloud_robotics.Json.{Json, encoded}
use cloud_robotics.Robot.MqttClient.{
  Client, set_subscription, subscription_of, subscribe, wanted, handle_connect, handle_message,
}

-- A subscription as an argument of `subscribe`.
abbrev pub subscribe_all : {C : Type 0} → List (Text × ℕ × C) → Client C → Client C
subscribe_all [] s = s
subscribe_all ((t, q, c) ∷ rest) s = subscribe_all rest (subscribe t q c s)

-- The last entry of a topic in a list of subscriptions.
abbrev pub latest : {C : Type 0} → Text → List (Text × ℕ × C) → Option (ℕ × C) → Option (ℕ × C)
latest t [] before = before
latest t ((u, q, c) ∷ rest) before = latest t rest (if u == t then some (q, c) else before)

-- The qos of a topic's first subscription.
abbrev pub qos_of : Text → List (Text × ℕ) → Option ℕ
qos_of t [] = none
qos_of t ((u, q) ∷ rest) = if u == t then some q else qos_of t rest

module _ {C : Type 0} where
  pub subscription_of-set_subscription :
      (u t : Text) (q : ℕ) (c : C) (subs : List (Text × ℕ × C))
      → subscription_of t (set_subscription u q c subs)
        ≡ (if u == t then some (q, c) else subscription_of t subs)
  subscription_of-set_subscription u t q c [] = refl
  subscription_of-set_subscription u t q c ((v, p, d) ∷ rest) =
      ground
        (arith, subscription_of-set_subscription u t q c rest, ==_iff v u, ==_iff v t, ==_iff u t)

  subscription_of-subscribe_all :
      (t : Text) (subs : List (Text × ℕ × C)) (s : Client C)
      → subscription_of t (subscribe_all subs s).subscriptions
        ≡ latest t subs (subscription_of t s.subscriptions)
  unfolding subscribe
  subscription_of-subscribe_all t [] s = refl
  subscription_of-subscribe_all t ((u, q, c) ∷ rest) s = ground (
    arith,
    subscription_of-subscribe_all t rest (subscribe u q c s),
    subscription_of-set_subscription u t q c s.subscriptions,
  )

  -- After any sequence of subscriptions, a message with a JSON payload calls the callback that was
  -- registered last for its topic with that payload, and none if there is no such callback.
  pub handle_message-subscribe_all :
      (t : Text) (v : Json) (subs : List (Text × ℕ × C)) (s : Client C)
      → s.subscriptions ≡ []
      → handle_message t (encoded v) (subscribe_all subs s)
        ≡ elim (latest t subs none) [ none ↦ none | some (q, c) ↦ some (c, v) ]
  unfolding handle_message
  handle_message-subscribe_all t v subs s h = ground (arith, subscription_of-subscribe_all t subs s)

  qos_of-wanted :
      (t : Text) (subs : List (Text × ℕ × C))
      → qos_of t (wanted subs) ≡ Option.map (λ (p : ℕ × C). p.0) (subscription_of t subs)
  qos_of-wanted t [] = refl
  qos_of-wanted t ((u, q, c) ∷ rest) = ground (arith, qos_of-wanted t rest)

  -- After any sequence of subscriptions, each accepted connection subscribes anew every topic
  -- registered so far, with the qos that was registered last, and no other topic.
  pub handle_connect-subscribe_all :
      (subs : List (Text × ℕ × C)) (s : Client C)
      → s.subscriptions ≡ []
      → (anew : List (Text × ℕ)) × ((handle_connect 0 (subscribe_all subs s)).subscribed
          ≡ (subscribe_all subs s).subscribed ++ anew)
        × ((t : Text) → qos_of t anew ≡ Option.map (λ (p : ℕ × C). p.0) (latest t subs none))
  unfolding handle_connect
  handle_connect-subscribe_all subs s h = (
    wanted (subscribe_all subs s).subscriptions,
    refl,
    λ t. ground (
      arith,
      qos_of-wanted t (subscribe_all subs s).subscriptions,
      subscription_of-subscribe_all t subs s,
    ),
  )
