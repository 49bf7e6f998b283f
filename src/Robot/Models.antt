-- ===== src/Robot/Models.antt =====
-- robot-container/robot_agent/models.py: the samples that the ROS adapter hands over. Floats are
-- thousandths; the bytes of a frame are texts of numbers.
use cloud_robotics.Prelude.{ℕ, Text, Bool, Option, List}
use cloud_robotics.Prelude.Int.{ℤ}

pub record OdometryData : Type 0 where
  pub linear_velocity : ℤ
  pub angular_velocity : ℤ
  pub position_x : ℤ
  pub position_y : ℤ
  pub heading : ℤ

pub record BatteryState : Type 0 where
  pub percentage : ℤ
  pub voltage : ℤ
  pub is_charging : Bool

pub record DiagnosticsData : Type 0 where
  pub cpu_percent : ℤ
  pub memory_percent : ℤ
  pub temperature_c : ℤ

pub record CameraFrame : Type 0 where
  pub bytes : List ℕ
  pub width : ℕ
  pub height : ℕ
  pub encoding : Text

pub record LaserScanData : Type 0 where
  pub angle_min : ℤ
  pub angle_max : ℤ
  pub angle_increment : ℤ
  pub range_min : ℤ
  pub range_max : ℤ
  pub ranges : List (Option ℤ)
