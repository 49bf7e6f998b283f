-- ===== src/Robot/Agent/Messages/Commands.antt =====
-- What a command does from the backend's `publish_command`
-- (cloud-container/backend/app/mqtt/service.py) to the robot's wheels
-- (robot-container/robot_agent/agent.py), and what the agent does with any other payload.
use cloud_robotics.Prelude.{
  ℕ, suc, Text, lit, ◌==◌, ◌≡◌, refl, true, false, ==_iff, ==_refl, if◌then◌else◌, Option, none,
  some, List, [], ◌∷◌, ◌++◌, arith,
}
use cloud_robotics.Prelude.Int.{ℤ, pos}
use cloud_robotics.Json.{Json, str, obj, find}
use cloud_robotics.Services.{Services}
use cloud_robotics.Backend.World.{World, Packet}
use cloud_robotics.Backend.Models.{
  Command, forward, backward, left, right, stop, command_text, parse_command,
}
use cloud_robotics.Backend.Mqtt.{command_payload}
use cloud_robotics.Backend.Topics.{cmd_topic}
use cloud_robotics.Robot.Topics as RobotTopics
use cloud_robotics.Backend.Fleet.{send_command}
use cloud_robotics.Backend.Fleet.Commands.{command_packet, IsKnown, stop_override}
use cloud_robotics.Backend.Registry.Keys.{split_unique}
use cloud_robotics.Robot.Agent.{Agent}
use cloud_robotics.Robot.Agent.Messages.{command_of, receive_command}
use cloud_robotics.Robot.Dispatcher.{is_known, Speeds, velocities_for, dispatch}
use cloud_robotics.Robot.Dispatcher.Velocities.{
  meaning, dispatch-command_text, dispatch-unknown, parse_command-text,
}

-- The agent after it has driven with one more velocity.
abbrev pub driven : ℤ × ℤ → Agent → Agent
driven vel a = record a {
  metrics = record a.metrics { commands_received = suc a.metrics.commands_received };
  cmd_vels = a.cmd_vels ++ vel ∷ [];
}

-- The payload that the backend publishes for a command drives the robot with that command's
-- velocity, counts as received and changes nothing else of the agent.
pub receive_command-command_payload :
    (σ : Services) (c : Command) (issued_at : Text) (a : Agent)
    → receive_command (command_payload σ (command_text c) issued_at) a
      ≡ driven (meaning a.speeds c) a
unfolding receive_command dispatch is_known velocities_for ◌==◌ find
receive_command-command_payload σ forward issued_at a = refl
receive_command-command_payload σ backward issued_at a = refl
receive_command-command_payload σ left issued_at a = refl
receive_command-command_payload σ right issued_at a = refl
receive_command-command_payload σ stop issued_at a = refl

-- The packets that a robot's agent is sent: its subscription is to its own cmd topic.
abbrev pub deliver : Packet → Agent → Agent
deliver p a = elim (p.topic == RobotTopics.cmd_topic a.robot_id) [
  | true ↦ receive_command p.payload a
  | false ↦ a
]

-- The command that a payload carries.
abbrev pub accepted : Json → Option Command
accepted (str t) = parse_command t
accepted _ = none

-- The velocities after a payload that carries this command, or none.
abbrev pub then_drive : Speeds → Option Command → List (ℤ × ℤ) → List (ℤ × ℤ)
then_drive v none vels = vels
then_drive v (some c) vels = vels ++ meaning v c ∷ []

cmd_vels-str :
    (t : Text) (a : Agent) (fs : Json) (o : Option Command)
    → command_of fs ≡ str t
    → parse_command t ≡ o
    → (receive_command fs a).cmd_vels ≡ then_drive a.speeds o a.cmd_vels
unfolding receive_command parse_command ◌==◌
cmd_vels-str [] a fs none h e = ground arith
cmd_vels-str [] a fs (some c) h e = ground arith
cmd_vels-str (x ∷ t) a fs none h e = ground (arith, dispatch-unknown a.speeds (x ∷ t) a.cmd_vels)
cmd_vels-str (x ∷ t) a fs (some c) h e =
    ground (arith, parse_command-text (x ∷ t) c e, dispatch-command_text a.speeds c a.cmd_vels)

-- Whatever a payload is, the robot drives exactly if it is a dict whose command is one of the five
-- texts, with that command's velocity and once.
pub cmd_vels-receive_command :
    (p : Json) (a : Agent)
    → (receive_command p a).cmd_vels ≡ then_drive a.speeds (accepted (command_of p)) a.cmd_vels
unfolding receive_command
cmd_vels-receive_command p a = go (command_of p) refl
  where
    go :
        (v : Json)
        → command_of p ≡ v
        → (receive_command p a).cmd_vels ≡ then_drive a.speeds (accepted v) a.cmd_vels
    go (str t) e = cmd_vels-str t a p (parse_command t) e refl
    go Json.null e = ground arith
    go (Json.bool b) e = ground arith
    go (Json.num x) e = ground arith
    go (Json.arr xs) e = ground arith
    go (obj fs) e = ground arith

cmd_topic-eq : (r s : Text) → (cmd_topic r == RobotTopics.cmd_topic s) ≡ (r == s)
cmd_topic-eq r s =
    let split : cmd_topic r ≡ RobotTopics.cmd_topic s → r ≡ s = λ e.
      (split_unique b'/' r s (lit "cmd") (lit "cmd") (ground arith) (ground arith)
        (ground (arith, e))).0 in
    ground (arith, ==_iff (cmd_topic r) (RobotTopics.cmd_topic s), ==_iff r s, split)

-- A command that the backend sends to a robot id drives the agent of that id, with the command's
-- velocity and once, and leaves every other agent as it is.
pub deliver-command_packet :
    (σ : Services) (w : World σ) (r : Text) (c : Command) (a : Agent)
    → deliver (command_packet σ w r c) a
      ≡ (if r == a.robot_id then driven (meaning a.speeds c) a else a)
deliver-command_packet σ w r c a =
    ground
      (arith, cmd_topic-eq r a.robot_id, receive_command-command_payload σ c (σ.isoformat w.now) a)

-- Any operator's stop for a robot that is known is sent, and the packet that the call adds stands
-- the robot's agent still, whoever holds the session and whatever the agent did before.
pub stop_reaches_robot :
    (σ : Services) (ttl : ℕ) (w : World σ) (o : Text) (a : Agent)
    → IsKnown σ w a.robot_id
    → (p : Packet) × ((send_command σ ttl a.robot_id o stop w).1.published ≡ w.published ++ p ∷ [])
      × (deliver p a ≡ driven (pos 0, pos 0) a)
stop_reaches_robot σ ttl w o a k = (
  command_packet σ w a.robot_id stop,
  rw (stop_override σ ttl w a.robot_id o k) refl,
  rw (deliver-command_packet σ w a.robot_id stop a, ==_refl a.robot_id) refl,
)
