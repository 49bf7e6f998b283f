-- ===== src/Tests/Robot.antt =====
-- The theorems on the robot's side, at one agent, one table of subscriptions and one outage.
use mathlib.Core.Option
use cloud_robotics.Prelude.{
  ℕ, Text, lit, ◌==◌, ==_refl, ◌&&◌, ◌≡◌, refl, Bool, true, false, Option, none, some, List, [],
  ◌∷◌, ◌++◌, ◌⊎◌, if◌then◌else◌, map, arith,
}
use cloud_robotics.Prelude.Int.{pos}
use cloud_robotics.Json.{Json, Fields, str, object, fields, find}
use cloud_robotics.Services.Memory.{memory}
use cloud_robotics.Backend.World.{Packet}
use cloud_robotics.Backend.Models.{forward, stop, parse_command}
use cloud_robotics.Backend.Fleet.{send_command}
use cloud_robotics.Backend.Fleet.Commands.Senders.{MayCommand}
use cloud_robotics.Robot.Dispatcher.Velocities.{meaning}
use cloud_robotics.Robot.Agent.Messages.Driving.{drives_for_holder}
use cloud_robotics.Robot.Watchdog.{Check, run}
use cloud_robotics.Robot.Watchdog.Outage.{no_restart, run-outage}
use cloud_robotics.Robot.MqttClient.{Client, handle_connect}
use cloud_robotics.Robot.MqttClient.Resubscribe.{
  subscribe_all, latest, qos_of, handle_connect-subscribe_all,
}
use cloud_robotics.Robot.Agent.{
  Agent, new_agent, Call, set_will, connect_client, disconnect_client, subscribe, publish,
}
use cloud_robotics.Robot.Agent.Lifecycle.{Mqtt}
use cloud_robotics.Robot.Agent.Messages.{receive_command}
use cloud_robotics.Robot.Agent.Messages.Commands.{
  driven, deliver, cmd_vels-receive_command, stop_reaches_robot,
}
use cloud_robotics.Tests.Worlds.{held, held-IsKnown}

abbrev rover_agent : Agent
rover_agent = new_agent (lit "r1") (record { linear_speed = pos 200; angular_speed = pos 1000 }) 0

stop_reaches_robot_example :
    (p : Packet) × ((send_command memory 60 (lit "r1") (lit "bob") stop held).1.published
      ≡ held.published ++ p ∷ [])
    × (deliver p rover_agent ≡ driven (pos 0, pos 0) rover_agent)
stop_reaches_robot_example = stop_reaches_robot memory 60 held (lit "bob") rover_agent held-IsKnown

-- The holder drives forward.
drives_for_holder_example :
    let w' = (send_command memory 60 (lit "r1") (lit "ada") forward held).1 in
    (w'.published ≡ held.published)
    ⊎ ((p : Packet) × (w'.published ≡ held.published ++ p ∷ [])
        × (deliver p rover_agent ≡ (
            if lit "r1" == lit "r1"
            then driven (meaning rover_agent.speeds forward) rover_agent
            else rover_agent))
        × MayCommand memory held (lit "r1") (lit "ada") forward)
drives_for_holder_example =
    drives_for_holder memory 60 held (lit "r1") (lit "ada") forward rover_agent

-- A command that no backend sends.
abbrev dance : Json
dance = object ((lit "command", str (lit "dance")) ∷ [])

cmd_vels-receive_command_example : (receive_command dance rover_agent).cmd_vels ≡ []
unfolding ◌==◌ find parse_command
cmd_vels-receive_command_example = cmd_vels-receive_command dance rover_agent

abbrev check : ℕ → Bool → Check
check now connected = record { now = now; connected = connected; restart_returns = true }

-- Down from 5 to 35 with checks every 10 seconds and a threshold of 30.
run-outage_example :
    run 30 none (
      check 5 false ∷ (check 15 false ∷ check 25 false ∷ []) ++ check 35 false ∷ check 45 true ∷ [])
    ≡ false ∷ map no_restart (check 15 false ∷ check 25 false ∷ [])
      ++ true ∷ run 30 none (check 45 true ∷ [])
run-outage_example =
    run-outage 30 (check 5 false) (check 15 false ∷ check 25 false ∷ []) (check 35 false)
      (check 45 true ∷ []) (omega arith) refl ((refl, omega arith), ((refl, omega arith), tt)) refl
      (omega arith) refl

abbrev fresh_client : Client ℕ
fresh_client = record { subscriptions = []; connected = false; has_loop = true; subscribed = [] }

abbrev subs : List (Text × ℕ × ℕ)
subs = (lit "a", 1, 10) ∷ (lit "b", 0, 20) ∷ (lit "a", 2, 30) ∷ []

handle_connect-subscribe_all_example :
    (anew : List (Text × ℕ)) × ((handle_connect 0 (subscribe_all subs fresh_client)).subscribed
      ≡ (subscribe_all subs fresh_client).subscribed ++ anew)
    × ((t : Text) → qos_of t anew ≡ Option.map (λ (p : ℕ × ℕ). p.0) (latest t subs none))
handle_connect-subscribe_all_example = handle_connect-subscribe_all subs fresh_client refl

-- An offer without an SDP.
abbrev half_offer : Fields
half_offer = fields ((lit "request_id", str (lit "u")) ∷ [])

abbrev silent : Json → Option Text
silent _ = none

-- One client with its broker: the will that is set and that of the connection, what is retained, and
-- the subscriptions.
record Session : Type 0 where
  configured : Option Packet
  will : Option Packet
  online : Bool
  kept : List Packet
  topics : List (Text × ℕ)

abbrev retained_in : Text → List Packet → Option Packet
retained_in t [] = none
retained_in t (p ∷ ps) = if t == p.topic then some p else retained_in t ps

abbrev keep : Packet → Session → Session
keep p s = if s.online && p.retain then record s { kept = p ∷ s.kept } else s

abbrev serve_call : Call → Session → Session
serve_call (set_will p) s = record s { configured = some p }
serve_call connect_client s = record s { online = true; will = s.configured; topics = [] }
serve_call disconnect_client s = record s { online = false; will = none }
serve_call (subscribe t q) s = if s.online then record s { topics = s.topics ++ (t, q) ∷ [] } else s
serve_call (publish p) s = keep p s

abbrev one_session : Mqtt
one_session = record {
  State = Session;
  serve = serve_call;
  is_online = λ s. s.online;
  configured = λ s. s.configured;
  will = λ s. s.will;
  retained = λ t s. retained_in t s.kept;
  subscriptions = λ s. s.topics;
  configured-set_will = λ p s. refl;
  online-connect = λ s. refl;
  will-connect = λ s. refl;
  subscriptions-connect = λ s. refl;
  online-subscribe = λ t q s. ground arith;
  will-subscribe = λ t q s. ground arith;
  subscriptions-subscribe = λ t q s h. ground (arith, h);
  online-publish = λ p s. ground arith;
  will-publish = λ p s. ground arith;
  subscriptions-publish = λ p s. ground arith;
  retained-publish = λ p s h k. ground (arith, h, k, ==_refl p.topic);
}

abbrev no_session : Session
no_session = record { configured = none; will = none; online = false; kept = []; topics = [] }
