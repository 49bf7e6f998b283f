-- ===== src/Robot/MockAdapter.antt =====
-- robot-container/robot_agent/mock_ros_adapter.py: an adapter that makes its samples up. A float is
-- a value of a type `F`, with Python's arithmetic and `math` as arguments; a literal is given by its
-- thousandths. A callback is registered or not; what it is called with is the result.
pub mod Ranges
use cloud_robotics.Prelude.{
  ℕ, zero, suc, ◌-◌, Bool, true, false, ◌||◌, Option, some, List, [], ◌∷◌, ◌++◌, map, if◌then◌else◌,
}
use cloud_robotics.Prelude.Int.{ℤ, pos}
use cloud_robotics.Robot.Models.{OdometryData, BatteryState, DiagnosticsData, LaserScanData}

-- `value` is the number of thousandths that stands for a float in a sample, `round2` and `round3`
-- that of `round(x, 2)` and `round(x, 3)`.
pub record Math (F : Type 0) : Type 0 where
  pub literal : ℕ → F
  pub of_int : ℕ → F
  pub add : F → F → F
  pub sub : F → F → F
  pub mul : F → F → F
  pub div : F → F → F
  pub remainder : F → F → F
  pub abs : F → F
  pub lt : F → F → Bool
  pub pi : F
  pub sin : F → F
  pub cos : F → F
  pub round2 : F → ℤ
  pub round3 : F → ℤ
  pub value : F → ℤ

pub record MockAdapter (F : Type 0) : Type 0 where
  pub update_interval : F
  pub odometry_callback : Bool
  pub diagnostics_callback : Bool
  pub battery_callback : Bool
  pub lidar_callback : Bool
  pub linear : F
  pub angular : F
  pub x : F
  pub y : F
  pub heading : F
  pub battery_percentage : F
  pub scan_phase : F

-- The calls of the callbacks.
pub data Sample : Type 0 where
  odometry : OdometryData → Sample
  battery : BatteryState → Sample
  diagnostics : DiagnosticsData → Sample
  lidar : LaserScanData → Sample

-- What happens to the adapter: its timer's ticks, and the velocities that it is given.
pub data Event (F : Type 0) : Type 0 where
  timer : Event F
  cmd_vel : F → F → Event F

abbrev call_if : Bool → Sample → List Sample
call_if registered sample = if registered then sample ∷ [] else []

module _ {F : Type 0} where
  pub subscribe_odometry : MockAdapter F → MockAdapter F
  subscribe_odometry a = record a { odometry_callback = true }

  pub subscribe_diagnostics : MockAdapter F → MockAdapter F
  subscribe_diagnostics a = record a { diagnostics_callback = true }

  pub subscribe_battery : MockAdapter F → MockAdapter F
  subscribe_battery a = record a { battery_callback = true }

  pub subscribe_lidar : MockAdapter F → MockAdapter F
  subscribe_lidar a = record a { lidar_callback = true }

  unfoldable pub publish_cmd_vel : F → F → MockAdapter F → MockAdapter F
  publish_cmd_vel linear angular a = record a { linear = linear; angular = angular }

module _ {F : Type 0} (m : Math F) where
  -- `__init__`
  unfoldable pub new_adapter : F → MockAdapter F
  new_adapter update_interval_seconds = record {
    update_interval = update_interval_seconds;
    odometry_callback = false;
    diagnostics_callback = false;
    battery_callback = false;
    lidar_callback = false;
    linear = m.literal 0;
    angular = m.literal 0;
    x = m.literal 0;
    y = m.literal 0;
    heading = m.literal 0;
    battery_percentage = m.literal 100000;
    scan_phase = m.literal 0;
  }

  -- Python's `max` and `min` of two.
  abbrev pub max_of : F → F → F
  max_of a b = if m.lt a b then b else a

  abbrev pub min_of : F → F → F
  min_of a b = if m.lt b a then b else a

  abbrev lidar_range_min : F
  lidar_range_min = m.literal 120

  abbrev lidar_range_max : F
  lidar_range_max = m.literal 3500

  abbrev lidar_num_readings : ℕ
  lidar_num_readings = 360

  abbrev two_pi : F
  two_pi = m.mul (m.of_int 2) m.pi

  -- The reading at an angle, before it is rounded.
  abbrev pub distance : F → F → F
  distance angle scan_phase =
      m.add
        (m.add (m.literal 2000)
          (m.mul (m.literal 800) (m.sin (m.add (m.mul (m.of_int 3) angle) scan_phase))))
        (m.mul (m.literal 400)
          (m.sin (m.sub (m.mul (m.of_int 7) angle) (m.mul scan_phase (m.of_int 2)))))

  abbrev pub clamped : F → F
  clamped d = max_of lidar_range_min (min_of lidar_range_max d)

  -- `for i in range(n, n + left)`
  unfoldable pub readings : F → F → ℕ → ℕ → List F
  readings angle_increment scan_phase n zero = []
  readings angle_increment scan_phase n (suc left) =
      clamped (distance (m.mul (m.of_int n) angle_increment) scan_phase)
      ∷ readings angle_increment scan_phase (suc n) left

  -- `_synthetic_scan`, whose state is the phase.
  unfoldable pub synthetic_scan : MockAdapter F → LaserScanData × MockAdapter F
  synthetic_scan a =
      let scan_phase = m.add a.scan_phase (m.literal 50) in
      let angle_increment = m.div two_pi (m.of_int lidar_num_readings) in
      (
        record {
          angle_min = m.value (m.literal 0);
          angle_max = m.value two_pi;
          angle_increment = m.value angle_increment;
          range_min = m.value lidar_range_min;
          range_max = m.value lidar_range_max;
          ranges =
              map (λ d. some (m.round3 d))
                (readings angle_increment scan_phase 0 lidar_num_readings);
        },
        record a { scan_phase = scan_phase },
      )

  -- The first lines of `_tick`.
  abbrev pub move : MockAdapter F → MockAdapter F
  move a =
      let dt = a.update_interval in
      let heading = m.remainder (m.add a.heading (m.mul a.angular dt)) two_pi in
      record a {
        heading = heading;
        x = m.add a.x (m.mul (m.mul a.linear (m.cos heading)) dt);
        y = m.add a.y (m.mul (m.mul a.linear (m.sin heading)) dt);
      }

  abbrev pub is_moving : MockAdapter F → Bool
  is_moving a = m.lt (m.literal 0) (m.abs a.linear) || m.lt (m.literal 0) (m.abs a.angular)

  abbrev pub drain : MockAdapter F → MockAdapter F
  drain a =
      if is_moving a
      then record a {
        battery_percentage = max_of (m.literal 0) (m.sub a.battery_percentage (m.literal 10));
      }
      else a

  abbrev odometry_of : MockAdapter F → OdometryData
  odometry_of a = record {
    linear_velocity = m.value a.linear;
    angular_velocity = m.value a.angular;
    position_x = m.value a.x;
    position_y = m.value a.y;
    heading = m.value a.heading;
  }

  abbrev battery_of : MockAdapter F → BatteryState
  battery_of a = record {
    percentage = m.round2 a.battery_percentage;
    voltage = m.round2 (
        m.add (m.literal 10100)
          (m.mul (m.div a.battery_percentage (m.literal 100000)) (m.literal 2000)));
    is_charging = false;
  }

  -- The scan is made, and the phase moved on, for a registered callback alone.
  abbrev pub scan_if : Bool → MockAdapter F → List Sample × MockAdapter F
  scan_if false a = ([], a)
  scan_if true a = let (scan, a') = synthetic_scan a in (lidar scan ∷ [], a')

  unfoldable pub tick : MockAdapter F → List Sample × MockAdapter F
  tick a =
      let moved = move a in
      let drained = drain moved in
      let (scans, scanned) = scan_if a.lidar_callback drained in
      (
        call_if a.odometry_callback (odometry (odometry_of moved))
            ++ call_if a.battery_callback (battery (battery_of drained))
            ++ call_if a.diagnostics_callback (
                diagnostics (record {
                  cpu_percent = pos 12500;
                  memory_percent = pos 34000;
                  temperature_c = pos 42000;
                }))
            ++ scans,
        scanned,
      )

  unfoldable pub run : List (Event F) → MockAdapter F → MockAdapter F
  run [] a = a
  run (timer ∷ events) a = run events (tick a).1
  run (cmd_vel linear angular ∷ events) a = run events (publish_cmd_vel linear angular a)
