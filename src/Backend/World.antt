-- ===== src/Backend/World.antt =====
-- What the backend's coroutines write: the two stores, the messages handed to paho
-- (cloud-container/backend/app/mqtt/service.py), and what they read of the process: the wall clock
-- in milliseconds and the number of identifiers drawn so far.
use cloud_robotics.Prelude.{ℕ, Text, List, Bool}
use cloud_robotics.Json.{Json}
use cloud_robotics.Services.{Services}

-- One `client.publish(topic, payload, qos=…, retain=…)`.
pub record Packet : Type 0 where
  pub topic : Text
  pub payload : Json
  pub qos : ℕ
  pub retain : Bool

pub record World (σ : Services) : Type 0 where
  pub redis : σ.redis.Store
  pub pg : σ.pg.Db
  pub published : List Packet
  pub now : ℕ
  pub drawn : ℕ
