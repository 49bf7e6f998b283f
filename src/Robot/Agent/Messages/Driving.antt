-- ===== src/Robot/Agent/Messages/Driving.antt =====
-- For whom a robot drives: cloud-container/backend/app/fleet/manager.py to the wheels of
-- robot-container/robot_agent/agent.py.
use cloud_robotics.Prelude.{ℕ, Text, ◌==◌, ◌++◌, [], ◌∷◌, ◌≡◌, ◌⊎◌, inl, inr, if◌then◌else◌}
use cloud_robotics.Services.{Services}
use cloud_robotics.Backend.World.{World, Packet}
use cloud_robotics.Backend.Models.{Command}
use cloud_robotics.Backend.Fleet.{send_command}
use cloud_robotics.Backend.Fleet.Commands.{command_packet}
use cloud_robotics.Backend.Fleet.Commands.Senders.{MayCommand, sent_cases}
use cloud_robotics.Robot.Agent.{Agent}
use cloud_robotics.Robot.Agent.Messages.Commands.{driven, deliver, deliver-command_packet}
use cloud_robotics.Robot.Dispatcher.Velocities.{meaning}

-- What a call of `send_command` does to any robot's agent. Either it adds no packet; or it adds one,
-- which drives the agent of the robot that the call names, once and with its command's velocity,
-- and leaves every other agent as it is, and then the command is a stop or its operator the holder.
pub drives_for_holder :
    (σ : Services) (ttl : ℕ) (w : World σ) (r o : Text) (c : Command) (a : Agent)
    → let w' = (send_command σ ttl r o c w).1 in
      (w'.published ≡ w.published)
      ⊎ ((p : Packet) × (w'.published ≡ w.published ++ p ∷ [])
          × (deliver p a ≡ (if r == a.robot_id then driven (meaning a.speeds c) a else a))
          × MayCommand σ w r o c)
drives_for_holder σ ttl w r o c a = elim (sent_cases σ ttl w r o c) [
  | inl (_, same) ↦ inl same
  | inr (_, (v, sent), who) ↦
      inr (command_packet σ v r c, sent, deliver-command_packet σ v r c a, who)
]
