-- ===== src/Robot/Config/Classes.antt =====
-- robot-container/robot_agent/config.py: the dataclasses of the configuration and their defaults.
use cloud_robotics.Prelude.{lit, Text, []}
use cloud_robotics.Prelude.Int.{ℤ, pos}
use cloud_robotics.Yaml.{Yaml, str}

-- A field that nothing converts keeps the value that the YAML file gives it.
pub record MqttConfig : Type 0 where
  pub host : Yaml
  pub port : ℤ
  pub keepalive : ℤ
  pub password : Text

pub record IntervalsConfig : Type 0 where
  pub heartbeat_seconds : ℤ
  pub telemetry_seconds : ℤ
  pub health_seconds : ℤ
  pub lidar_seconds : ℤ
  pub watchdog_check_seconds : ℤ
  pub watchdog_unhealthy_after_seconds : ℤ

pub record MotionConfig : Type 0 where
  pub linear_speed : ℤ
  pub angular_speed : ℤ

pub record HealthServerConfig : Type 0 where
  pub port : ℤ

pub record VideoConfig : Type 0 where
  pub bitrate_kbps : ℤ
  pub framerate : ℤ
  pub keyframe_interval : ℤ
  pub stun_server : Yaml
  pub turn_server : Yaml

pub record AgentConfig : Type 0 where
  pub robot_id : Yaml
  pub log_level : Yaml
  pub mqtt : MqttConfig
  pub intervals : IntervalsConfig
  pub motion : MotionConfig
  pub health_server : HealthServerConfig
  pub video : VideoConfig

-- The values that the dataclasses give to fields that are left out; seconds and speeds are in
-- thousandths.
abbrev pub mqtt_defaults : MqttConfig
mqtt_defaults = record {
  host = str (lit "mosquitto");
  port = pos 1883;
  keepalive = pos 30;
  password = [];
}

abbrev pub intervals_defaults : IntervalsConfig
intervals_defaults = record {
  heartbeat_seconds = pos 1000;
  telemetry_seconds = pos 1000;
  health_seconds = pos 2000;
  lidar_seconds = pos 500;
  watchdog_check_seconds = pos 5000;
  watchdog_unhealthy_after_seconds = pos 15000;
}

abbrev pub motion_defaults : MotionConfig
motion_defaults = record { linear_speed = pos 200; angular_speed = pos 500 }

abbrev pub health_server_defaults : HealthServerConfig
health_server_defaults = record { port = pos 8080 }

abbrev pub video_defaults : VideoConfig
video_defaults = record {
  bitrate_kbps = pos 1000;
  framerate = pos 15;
  keyframe_interval = pos 30;
  stun_server = str (lit "stun://stun.l.google.com:19302");
  turn_server = str [];
}

abbrev pub agent_defaults : AgentConfig
agent_defaults = record {
  robot_id = str (lit "turtlebot3_01");
  log_level = str (lit "INFO");
  mqtt = mqtt_defaults;
  intervals = intervals_defaults;
  motion = motion_defaults;
  health_server = health_server_defaults;
  video = video_defaults;
}
