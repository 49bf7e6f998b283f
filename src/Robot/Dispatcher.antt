-- ===== src/Robot/Dispatcher.antt =====
-- robot-container/robot_agent/dispatcher.py: a command's name becomes a velocity. The adapter is
-- the list of the (linear, angular) pairs that `publish_cmd_vel` was called with.
pub mod Velocities
use cloud_robotics.Prelude.{
  Text, lit, ◌==◌, Bool, true, false, ◌||◌, List, [], ◌∷◌, ◌++◌, if◌then◌else◌,
}
use cloud_robotics.Prelude.Int.{ℤ, pos, neg}

-- `command in KNOWN_COMMANDS`
unfoldable pub is_known : Text → Bool
is_known command =
    command == lit "forward"
    || command == lit "backward"
    || command == lit "left"
    || command == lit "right"
    || command == lit "stop"

-- `_linear_speed` and `_angular_speed`.
pub record Speeds : Type 0 where
  pub linear_speed : ℤ
  pub angular_speed : ℤ

unfoldable pub velocities_for : Speeds → Text → ℤ × ℤ
velocities_for v command =
    if command == lit "forward"
    then (v.linear_speed, pos 0)
    else if command == lit "backward"
    then (neg v.linear_speed, pos 0)
    else if command == lit "left"
    then (pos 0, v.angular_speed)
    else if command == lit "right"
    then (pos 0, neg v.angular_speed)
    else (pos 0, pos 0)

unfoldable pub dispatch : Speeds → Text → List (ℤ × ℤ) → Bool × List (ℤ × ℤ)
unfolding is_known velocities_for
dispatch v command cmd_vels =
    if is_known command
    then (true, cmd_vels ++ velocities_for v command ∷ [])
    else (false, cmd_vels)
