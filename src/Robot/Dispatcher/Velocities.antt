-- ===== src/Robot/Dispatcher/Velocities.antt =====
-- robot-container/robot_agent/dispatcher.py against cloud-container/backend/app/models.py: the
-- texts that the backend may send are the ones that the robot knows, and what each one does.
use cloud_robotics.Prelude.{
  Text, lit, ◌==◌, ==_iff, ◌≡◌, refl, ◌≢◌, ◌↔◌, true, false, none, some, List, [], ◌∷◌, ◌++◌, arith,
  Option-cases, inl, inr,
}
use cloud_robotics.Prelude.Int.{ℤ, pos, neg}
use cloud_robotics.Backend.Models.{
  Command, forward, backward, left, right, stop, command_text, parse_command,
}
use cloud_robotics.Robot.Dispatcher.{is_known, Speeds, velocities_for, dispatch}

known_parses : (t : Text) → is_known t ≡ true → parse_command t ≢ none
unfolding is_known parse_command
known_parses t h e = ground arith

parses_known : (t : Text) (c : Command) → parse_command t ≡ some c → is_known t ≡ true
unfolding is_known parse_command
parses_known t c h = ground arith

-- The robot knows a command's text exactly when the backend's request model accepts it.
pub is_known_iff : (t : Text) → (is_known t ≡ true) ↔ ((c : Command) × (parse_command t ≡ some c))
is_known_iff t = (
  λ h. elim (Option-cases (parse_command t)) [ inl e ↦ absurd (known_parses t h e) | inr p ↦ p ],
  λ p. parses_known t p.0 p.1,
)

-- What an operator means by a command.
abbrev pub meaning : Speeds → Command → ℤ × ℤ
meaning v forward = (v.linear_speed, pos 0)
meaning v backward = (neg v.linear_speed, pos 0)
meaning v left = (pos 0, v.angular_speed)
meaning v right = (pos 0, neg v.angular_speed)
meaning v stop = (pos 0, pos 0)

pub dispatch-command_text :
    (v : Speeds) (c : Command) (vels : List (ℤ × ℤ))
    → dispatch v (command_text c) vels ≡ (true, vels ++ meaning v c ∷ [])
unfolding dispatch is_known velocities_for ◌==◌
dispatch-command_text v forward vels = refl
dispatch-command_text v backward vels = refl
dispatch-command_text v left vels = refl
dispatch-command_text v right vels = refl
dispatch-command_text v stop vels = refl

-- A text that is no command publishes no velocity.
pub dispatch-unknown :
    (v : Speeds) (t : Text) (vels : List (ℤ × ℤ))
    → parse_command t ≡ none
    → dispatch v t vels ≡ (false, vels)
unfolding dispatch is_known parse_command
dispatch-unknown v t vels h = ground arith

-- The text of an accepted command is that command's.
pub parse_command-text : (t : Text) (c : Command) → parse_command t ≡ some c → t ≡ command_text c
unfolding parse_command
parse_command-text t c h = ground (
  arith,
  ==_iff t (lit "forward"),
  ==_iff t (lit "backward"),
  ==_iff t (lit "left"),
  ==_iff t (lit "right"),
  ==_iff t (lit "stop"),
)
