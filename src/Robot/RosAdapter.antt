-- ===== src/Robot/RosAdapter.antt =====
-- robot-container/ros_ws/src/robot_cloud_bridge/robot_cloud_bridge/real_ros_adapter.py: what the
-- adapter's callbacks make of ROS messages. A float of a message is a value of a type `F`, with
-- Python's arithmetic, `math.atan2`, `math.isfinite` and `round(x, 3)` as arguments; `value` is the
-- number of thousandths that stands for a float in the samples.
pub mod Scans
pub mod Lifecycle
use cloud_robotics.Prelude.{
  ℕ, Text, Bool, true, false, Option, none, some, List, [], ◌∷◌, ◌++◌, map, if◌then◌else◌,
}
use cloud_robotics.Prelude.Int.{ℤ}
use cloud_robotics.Robot.Models.{OdometryData, CameraFrame, LaserScanData}

pub record Floats (F : Type 0) : Type 0 where
  pub one : F
  pub two : F
  pub add : F → F → F
  pub sub : F → F → F
  pub mul : F → F → F
  pub atan2 : F → F → F
  pub is_finite : F → Bool
  pub round3 : F → ℤ
  pub value : F → ℤ

-- Which callbacks are registered, and the (linear.x, angular.z) that were published as Twists.
pub record Adapter (F : Type 0) : Type 0 where
  pub odometry_callback : Bool
  pub camera_callback : Bool
  pub lidar_callback : Bool
  pub twists : List (F × F)

-- The fields of the messages that are read.
pub record LaserScan (F : Type 0) : Type 0 where
  pub angle_min : F
  pub angle_max : F
  pub angle_increment : F
  pub range_min : F
  pub range_max : F
  pub ranges : List F

pub record Odometry (F : Type 0) : Type 0 where
  pub linear_x : F
  pub angular_z : F
  pub position_x : F
  pub position_y : F
  pub orientation_x : F
  pub orientation_y : F
  pub orientation_z : F
  pub orientation_w : F

module _ {F : Type 0} where
  pub subscribe_odometry : Adapter F → Adapter F
  subscribe_odometry a = record a { odometry_callback = true }

  pub subscribe_camera : Adapter F → Adapter F
  subscribe_camera a = record a { camera_callback = true }

  pub subscribe_lidar : Adapter F → Adapter F
  subscribe_lidar a = record a { lidar_callback = true }

  pub publish_cmd_vel : F → F → Adapter F → Adapter F
  publish_cmd_vel linear angular a = record a { twists = a.twists ++ (linear, angular) ∷ [] }

  -- What the camera's callback is called with, if it is registered: the image's own fields.
  pub handle_camera_image : CameraFrame → Adapter F → Option CameraFrame
  handle_camera_image msg a = if a.camera_callback then some msg else none

  module _ (floats : Floats F) where
    -- `round(r, 3) if math.isfinite(r) else None`
    abbrev pub reading : F → Option ℤ
    reading r = if floats.is_finite r then some (floats.round3 r) else none

    unfoldable pub handle_laser_scan : LaserScan F → Adapter F → Option LaserScanData
    handle_laser_scan msg a =
        if a.lidar_callback
        then some (record {
          angle_min = floats.value msg.angle_min;
          angle_max = floats.value msg.angle_max;
          angle_increment = floats.value msg.angle_increment;
          range_min = floats.value msg.range_min;
          range_max = floats.value msg.range_max;
          ranges = map reading msg.ranges;
        })
        else none

    unfoldable pub yaw_from_quaternion : F → F → F → F → F
    yaw_from_quaternion x y z w =
        let siny_cosp = floats.mul floats.two (floats.add (floats.mul w z) (floats.mul x y)) in
        let cosy_cosp =
          floats.sub floats.one
            (floats.mul floats.two (floats.add (floats.mul y y) (floats.mul z z))) in
        floats.atan2 siny_cosp cosy_cosp

    pub handle_odometry : Odometry F → Adapter F → Option OdometryData
    unfolding yaw_from_quaternion
    handle_odometry msg a =
        if a.odometry_callback
        then some (record {
          linear_velocity = floats.value msg.linear_x;
          angular_velocity = floats.value msg.angular_z;
          position_x = floats.value msg.position_x;
          position_y = floats.value msg.position_y;
          heading = floats.value (
              yaw_from_quaternion msg.orientation_x msg.orientation_y msg.orientation_z
                msg.orientation_w);
        })
        else none
