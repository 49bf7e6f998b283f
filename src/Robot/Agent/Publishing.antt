-- ===== src/Robot/Agent/Publishing.antt =====
-- robot-container/robot_agent/agent.py: what the agent publishes at each tick of its loops, from the
-- latest samples.
use cloud_robotics.Prelude.{suc, Text, lit, false, Option, none, some, [], ◌∷◌}
use cloud_robotics.Prelude.Int.{ℤ, pos}
use cloud_robotics.Json.{Json, null, bool, num, str, arr, object, numbers}
use cloud_robotics.Robot.Topics.{telemetry_topic, health_topic, heartbeat_topic, lidar_topic}
use cloud_robotics.Robot.Models.{OdometryData, DiagnosticsData, LaserScanData}
use cloud_robotics.Robot.Agent.{Agent, call, packet, publish}

unfoldable pub heartbeat : ℤ → Agent → Agent
heartbeat now a =
    record (call
      (publish (
        packet (heartbeat_topic a.robot_id)
          (object (
            (lit "robot_id", str a.robot_id)
            ∷ (lit "timestamp", num now)
            ∷ (lit "status", str (lit "alive"))
            ∷ []))
          0 false))
      a) { metrics = record a.metrics { heartbeats_sent = suc a.metrics.heartbeats_sent } }

-- `sample.field if sample else default`
abbrev field_or : {A B : Type 0} → B → (A → B) → Option A → B
field_or default f none = default
field_or default f (some a) = f a

abbrev odometry_field : (OdometryData → ℤ) → Agent → Json
odometry_field f a = num (field_or (pos 0) f a.latest_odometry)

abbrev diagnostics_field : (DiagnosticsData → ℤ) → Agent → Json
diagnostics_field f a = field_or null (λ d. num (f d)) a.latest_diagnostics

abbrev pub telemetry_payload : ℤ → Agent → Json
telemetry_payload now a = object (
    (lit "robot_id", str a.robot_id)
    ∷ (lit "timestamp", num now)
    ∷ (
      lit "velocity",
      object (
          (lit "linear", odometry_field (λ o. o.linear_velocity) a)
          ∷ (lit "angular", odometry_field (λ o. o.angular_velocity) a)
          ∷ []),
    )
    ∷ (
      lit "position",
      object (
          (lit "x", odometry_field (λ o. o.position_x) a)
          ∷ (lit "y", odometry_field (λ o. o.position_y) a)
          ∷ (lit "heading", odometry_field (λ o. o.heading) a)
          ∷ []),
    )
    ∷ (lit "battery_percentage", field_or null (λ b. num b.percentage) a.latest_battery)
    ∷ [])

unfoldable pub publish_telemetry : ℤ → Agent → Agent
publish_telemetry now a =
    record (call (publish (packet (telemetry_topic a.robot_id) (telemetry_payload now a) 0 false))
      a) { metrics = record a.metrics { telemetry_published = suc a.metrics.telemetry_published } }

unfoldable pub publish_health : ℤ → Agent → Agent
publish_health now a =
    record (call
      (publish (
        packet (health_topic a.robot_id)
          (object (
            (lit "robot_id", str a.robot_id)
            ∷ (lit "timestamp", num now)
            ∷ (lit "cpu_percent", diagnostics_field (λ d. d.cpu_percent) a)
            ∷ (lit "memory_percent", diagnostics_field (λ d. d.memory_percent) a)
            ∷ (lit "temperature_c", diagnostics_field (λ d. d.temperature_c) a)
            ∷ (lit "mqtt_connected", bool a.mqtt_connected)
            ∷ []))
          1 false))
      a) { metrics = record a.metrics { health_published = suc a.metrics.health_published } }

abbrev pub lidar_payload : Text → ℤ → LaserScanData → Json
lidar_payload robot_id now scan = object (
    (lit "robot_id", str robot_id)
    ∷ (lit "timestamp", num now)
    ∷ (lit "angle_min", num scan.angle_min)
    ∷ (lit "angle_max", num scan.angle_max)
    ∷ (lit "angle_increment", num scan.angle_increment)
    ∷ (lit "range_min", num scan.range_min)
    ∷ (lit "range_max", num scan.range_max)
    ∷ (lit "ranges", arr (numbers scan.ranges))
    ∷ [])

abbrev publish_scan : ℤ → Option LaserScanData → Agent → Agent
publish_scan now none a = a
publish_scan now (some scan) a =
    record (call
      (publish (packet (lidar_topic a.robot_id) (lidar_payload a.robot_id now scan) 0 false)) a) {
        metrics = record a.metrics { lidar_scans_published = suc a.metrics.lidar_scans_published };
      }

unfoldable pub publish_lidar_scan : ℤ → Agent → Agent
publish_lidar_scan now a = publish_scan now a.latest_lidar_scan a
