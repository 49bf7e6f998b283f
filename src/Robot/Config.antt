-- ===== src/Robot/Config.antt =====
-- robot-container/robot_agent/config.py: the configuration, of the environment, of the YAML file and
-- of defaults. The environment is an argument, a function from a variable to its text; the value of
-- the YAML file is `none` where there is no file.
pub mod Classes
pub mod Defaults
pub mod Overrides
use cloud_robotics.Prelude.{Text, lit, Option, none, some, [], ◌∷◌, if◌then◌else◌}
use cloud_robotics.Prelude.Int.{ℤ, pos}
use cloud_robotics.Exec.{Result, ok, err, runtime_error}
use cloud_robotics.Results.{◌>>=◌}
use cloud_robotics.Yaml.{Yaml, int, float, str, dict, end, truthy, get, int_of, float_of}
pub use cloud_robotics.Robot.Config.Classes.{
  MqttConfig, IntervalsConfig, MotionConfig, HealthServerConfig, VideoConfig, AgentConfig,
  mqtt_defaults, intervals_defaults, motion_defaults, health_server_defaults, video_defaults,
  agent_defaults,
}

-- `yaml.safe_load(f) or {}`, and `{}` without a file.
abbrev pub load_yaml : Option Yaml → Yaml
load_yaml none = dict end
load_yaml (some y) = if truthy y then y else dict end

abbrev pub Environ : Type 0
Environ = Text → Option Text

-- `os.environ.get(name, default)`, once the default is computed.
abbrev pub or_default : Option Text → Yaml → Yaml
or_default none default = default
or_default (some v) default = str v

-- `if not mqtt_password: raise`
abbrev pub require_password : Option Text → Result Text
require_password none = err runtime_error
require_password (some []) = err runtime_error
require_password (some (c ∷ s)) = ok (c ∷ s)

-- `AgentConfig(robot_id=…, …)`, whose arguments are computed in this order.
unfoldable pub agent_config :
    Result Yaml
    → Result Yaml
    → Result MqttConfig
    → Result IntervalsConfig
    → Result MotionConfig
    → Result HealthServerConfig
    → Result VideoConfig
    → Result AgentConfig
agent_config robot_id_arg log_level_arg mqtt_arg intervals_arg motion_arg health_arg video_arg = do
  robot_id ← robot_id_arg
  log_level ← log_level_arg
  mqtt ← mqtt_arg
  intervals ← intervals_arg
  motion ← motion_arg
  health_server ← health_arg
  video ← video_arg
  ok (record {
    robot_id = robot_id;
    log_level = log_level;
    mqtt = mqtt;
    intervals = intervals;
    motion = motion;
    health_server = health_server;
    video = video;
  })

module _ (parse_int parse_float : Text → Option ℤ) (environ : Environ) where
  abbrev pub load_robot_id : Yaml → Result Yaml
  load_robot_id yaml_data = do
    robot ← get (lit "robot") (dict end) yaml_data
    default ← get (lit "id") (str (lit "turtlebot3_01")) robot
    ok (or_default (environ (lit "ROBOT_ID")) default)

  abbrev pub load_log_level : Yaml → Result Yaml
  load_log_level yaml_data = do
    default ← get (lit "log_level") (str (lit "INFO")) yaml_data
    ok (or_default (environ (lit "LOG_LEVEL")) default)

  abbrev pub load_mqtt : Text → Yaml → Result MqttConfig
  load_mqtt mqtt_password mqtt_yaml = do
    host ← get (lit "host") (str (lit "mosquitto")) mqtt_yaml
    port' ← get (lit "port") (int (pos 1883)) mqtt_yaml
    port ← int_of parse_int (or_default (environ (lit "MQTT_PORT")) port')
    keepalive' ← get (lit "keepalive") (int (pos 30)) mqtt_yaml
    keepalive ← int_of parse_int keepalive'
    ok (record {
      host = or_default (environ (lit "MQTT_HOST")) host;
      port = port;
      keepalive = keepalive;
      password = mqtt_password;
    })

  -- `float(section.get(key, default))`
  abbrev pub get_float : Text → ℤ → Yaml → Result ℤ
  get_float key default section = do
    value ← get key (float default) section
    float_of parse_float value

  -- `int(section.get(key, default))`
  abbrev pub get_int : Text → ℤ → Yaml → Result ℤ
  get_int key default section = do value ← get key (int default) section; int_of parse_int value

  abbrev pub load_intervals : Yaml → Result IntervalsConfig
  load_intervals intervals_yaml = do
    heartbeat ← get_float (lit "heartbeat_seconds") (pos 1000) intervals_yaml
    telemetry ← get_float (lit "telemetry_seconds") (pos 1000) intervals_yaml
    health ← get_float (lit "health_seconds") (pos 2000) intervals_yaml
    lidar ← get_float (lit "lidar_seconds") (pos 500) intervals_yaml
    check ← get_float (lit "watchdog_check_seconds") (pos 5000) intervals_yaml
    unhealthy ← get_float (lit "watchdog_unhealthy_after_seconds") (pos 15000) intervals_yaml
    ok (record {
      heartbeat_seconds = heartbeat;
      telemetry_seconds = telemetry;
      health_seconds = health;
      lidar_seconds = lidar;
      watchdog_check_seconds = check;
      watchdog_unhealthy_after_seconds = unhealthy;
    })

  abbrev pub load_motion : Yaml → Result MotionConfig
  load_motion motion_yaml = do
    linear ← get_float (lit "linear_speed") (pos 200) motion_yaml
    angular ← get_float (lit "angular_speed") (pos 500) motion_yaml
    ok (record { linear_speed = linear; angular_speed = angular })

  abbrev pub load_health_server : Yaml → Result HealthServerConfig
  load_health_server health_yaml = do
    port' ← get (lit "port") (int (pos 8080)) health_yaml
    port ← int_of parse_int (or_default (environ (lit "ROBOT_HEALTH_PORT")) port')
    ok (record { port = port })

  abbrev pub load_video : Yaml → Result VideoConfig
  load_video video_yaml = do
    bitrate ← get_int (lit "bitrate_kbps") (pos 1000) video_yaml
    framerate ← get_int (lit "framerate") (pos 15) video_yaml
    keyframe ← get_int (lit "keyframe_interval") (pos 30) video_yaml
    stun ← get (lit "stun_server") (str (lit "stun://stun.l.google.com:19302")) video_yaml
    turn ← get (lit "turn_server") (str []) video_yaml
    ok (record {
      bitrate_kbps = bitrate;
      framerate = framerate;
      keyframe_interval = keyframe;
      stun_server = stun;
      turn_server = or_default (environ (lit "TURN_SERVER_URL")) turn;
    })

  -- The rest of `load_config`, once the YAML file is read.
  unfoldable pub load_from : Yaml → Result AgentConfig
  load_from yaml_data = do
    mqtt_yaml ← get (lit "mqtt") (dict end) yaml_data
    intervals_yaml ← get (lit "intervals") (dict end) yaml_data
    motion_yaml ← get (lit "motion") (dict end) yaml_data
    health_yaml ← get (lit "health_server") (dict end) yaml_data
    video_yaml ← get (lit "video") (dict end) yaml_data
    mqtt_password ← require_password (environ (lit "MQTT_ROBOT_PASSWORD"))
    agent_config (load_robot_id yaml_data) (load_log_level yaml_data)
        (load_mqtt mqtt_password mqtt_yaml) (load_intervals intervals_yaml)
        (load_motion motion_yaml) (load_health_server health_yaml) (load_video video_yaml)

  unfoldable pub load_config : Option Yaml → Result AgentConfig
  unfolding load_from
  load_config file = load_from (load_yaml file)
