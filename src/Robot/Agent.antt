-- ===== src/Robot/Agent.antt =====
-- robot-container/robot_agent/agent.py: RobotCloudAgent. The calls on the MQTT client, the ROS
-- adapter and the video streamer are recorded in the state; the clocks are arguments. A
-- `time.time()` or speed is a number of thousandths.
pub mod Publishing
pub mod Messages
pub mod Reports
pub mod Lifecycle
pub mod Loops
use cloud_robotics.Prelude.{
  ℕ, suc, ◌-◌, Text, lit, ◌==◌, Bool, true, false, Option, none, some, List, [], ◌∷◌, ◌++◌,
  if◌then◌else◌,
}
use cloud_robotics.Prelude.Int.{ℤ, pos}
use cloud_robotics.Json.{
  Json, null, bool, num, str, arr, obj, find, or_null, truthy, num_or_null, object, numbers,
}
use cloud_robotics.Backend.World.{Packet}
use cloud_robotics.Robot.Topics.{
  cmd_topic, telemetry_topic, health_topic, status_topic, heartbeat_topic, lidar_topic,
  camera_offer_topic, camera_answer_topic,
}
use cloud_robotics.Robot.Models.{
  OdometryData, BatteryState, DiagnosticsData, CameraFrame, LaserScanData,
}
use cloud_robotics.Robot.Dispatcher.{Speeds, dispatch}

-- The calls on MQTTClientInterface, in order.
pub data Call : Type 0 where
  set_will : Packet → Call
  connect_client disconnect_client : Call
  subscribe : Text → ℕ → Call
  publish : Packet → Call

pub record Metrics : Type 0 where
  pub heartbeats_sent : ℕ
  pub telemetry_published : ℕ
  pub health_published : ℕ
  pub lidar_scans_published : ℕ
  pub commands_received : ℕ
  pub commands_rejected : ℕ
  pub camera_frames_received : ℕ
  pub webrtc_offers_handled : ℕ
  pub webrtc_offers_failed : ℕ

pub record Agent : Type 0 where
  pub robot_id : Text
  pub speeds : Speeds
  pub latest_odometry : Option OdometryData
  pub latest_battery : Option BatteryState
  pub latest_diagnostics : Option DiagnosticsData
  pub latest_lidar_scan : Option LaserScanData
  pub metrics : Metrics
  pub started_at : ℕ
  pub mqtt : List Call
  pub mqtt_connected : Bool
  pub cmd_vels : List (ℤ × ℤ)
  pub frames : List CameraFrame

abbrev zero_metrics : Metrics
zero_metrics = record {
  heartbeats_sent = 0;
  telemetry_published = 0;
  health_published = 0;
  lidar_scans_published = 0;
  commands_received = 0;
  commands_rejected = 0;
  camera_frames_received = 0;
  webrtc_offers_handled = 0;
  webrtc_offers_failed = 0;
}

-- `__init__`
abbrev pub new_agent : Text → Speeds → ℕ → Agent
new_agent robot_id speeds now = record {
  robot_id = robot_id;
  speeds = speeds;
  latest_odometry = none;
  latest_battery = none;
  latest_diagnostics = none;
  latest_lidar_scan = none;
  metrics = zero_metrics;
  started_at = now;
  mqtt = [];
  mqtt_connected = false;
  cmd_vels = [];
  frames = [];
}

pub on_odometry : OdometryData → Agent → Agent
on_odometry sample a = record a { latest_odometry = some sample }

pub on_battery : BatteryState → Agent → Agent
on_battery sample a = record a { latest_battery = some sample }

pub on_diagnostics : DiagnosticsData → Agent → Agent
on_diagnostics sample a = record a { latest_diagnostics = some sample }

unfoldable pub on_lidar_scan : LaserScanData → Agent → Agent
on_lidar_scan sample a = record a { latest_lidar_scan = some sample }

-- `push_frame` may raise; the frame counts only if it does not.
pub on_camera_frame : Bool → CameraFrame → Agent → Agent
on_camera_frame pushed frame a =
    if pushed
    then record a {
      frames = a.frames ++ frame ∷ [];
      metrics = record a.metrics { camera_frames_received = suc a.metrics.camera_frames_received };
    }
    else a

abbrev pub call : Call → Agent → Agent
call c a = record a { mqtt = a.mqtt ++ c ∷ [] }

abbrev pub packet : Text → Json → ℕ → Bool → Packet
packet topic payload qos retain = record {
  topic = topic;
  payload = payload;
  qos = qos;
  retain = retain;
}

-- `_status_payload`
abbrev pub status_payload : Text → Text → ℤ → Json
status_payload robot_id status now =
    object (
      (lit "robot_id", str robot_id) ∷ (lit "status", str status) ∷ (lit "timestamp", num now) ∷ [])

unfoldable pub publish_status : Text → ℤ → Agent → Agent
publish_status status now a =
    call (publish (packet (status_topic a.robot_id) (status_payload a.robot_id status now) 1 true))
      a

-- The client's `connect` returns once the broker has acknowledged the connection, or after 10 seconds
-- without an acknowledgement.
pub connect : Bool → ℤ → Agent → Agent
unfolding publish_status
connect acknowledged now a =
    let willed =
      call
        (set_will
          (packet (status_topic a.robot_id) (status_payload a.robot_id (lit "offline") now) 1 true))
        a in
    let reached = record (call connect_client willed) { mqtt_connected = acknowledged } in
    let commanded = call (subscribe (cmd_topic a.robot_id) 1) reached in
    let offered = call (subscribe (camera_offer_topic a.robot_id) 1) commanded in
    publish_status (lit "online") now offered

abbrev leave : Agent → Agent
leave a = record (call disconnect_client a) { mqtt_connected = false }

pub disconnect : ℤ → Agent → Agent
unfolding publish_status
disconnect now a = leave (publish_status (lit "offline") now a)

pub shutdown : ℤ → Agent → Agent
unfolding disconnect
shutdown now a = disconnect now a

-- The client's `disconnect` may raise, which is logged.
pub restart : Bool → ℤ → Agent → Agent
unfolding connect
restart acknowledged now a = connect acknowledged now (leave a)
