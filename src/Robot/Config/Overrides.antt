-- ===== src/Robot/Config/Overrides.antt =====
-- What one variable of the environment changes in the configuration that
-- robot-container/robot_agent/config.py loads.
use cloud_robotics.Prelude.{
  Text, lit, ◌≡◌, refl, Option, none, some, [], ◌∷◌, ◌==◌, arith, if◌then◌else◌,
}
use cloud_robotics.Prelude.Int.{ℤ}
use cloud_robotics.Exec.{Result}
use cloud_robotics.Results.{◌>>=◌, map_ok}
use cloud_robotics.Yaml.{Yaml, Mapping, str, dict, end, lookup}
use cloud_robotics.Robot.Config.{
  AgentConfig, IntervalsConfig, MotionConfig, HealthServerConfig, VideoConfig, MqttConfig, Environ,
  load_config, load_from, load_robot_id, agent_config, require_password, load_mqtt, load_video,
  load_log_level, load_intervals, load_motion, load_health_server, load_yaml,
}

abbrev pub set : Text → Text → Environ → Environ
set name value environ k = if name == k then some value else environ k

-- A configuration with one other field.
abbrev pub with_robot_id : Text → AgentConfig → AgentConfig
with_robot_id v c = record c { robot_id = str v }

abbrev pub with_log_level : Text → AgentConfig → AgentConfig
with_log_level v c = record c { log_level = str v }

abbrev pub mqtt_with_host : Text → MqttConfig → MqttConfig
mqtt_with_host v c = record c { host = str v }

abbrev pub video_with_turn_server : Text → VideoConfig → VideoConfig
video_with_turn_server v c = record c { turn_server = str v }

abbrev pub with_host : Text → AgentConfig → AgentConfig
with_host v c = record c { mqtt = mqtt_with_host v c.mqtt }

abbrev pub with_turn_server : Text → AgentConfig → AgentConfig
with_turn_server v c = record c { video = video_with_turn_server v c.video }

-- A map of one argument is a map of the configuration.
module _ (v : Text) (r l : Result Yaml) (m : Result MqttConfig) (i : Result IntervalsConfig)
    (o : Result MotionConfig) (h : Result HealthServerConfig) (d : Result VideoConfig) where
  agent_config-robot_id :
      (x : Result Yaml)
      → x ≡ map_ok (λ _. str v) r
      → agent_config x l m i o h d ≡ map_ok (with_robot_id v) (agent_config r l m i o h d)
  unfolding agent_config
  agent_config-robot_id x e = rw (e) (ground arith)

  agent_config-log_level :
      (x : Result Yaml)
      → x ≡ map_ok (λ _. str v) l
      → agent_config r x m i o h d ≡ map_ok (with_log_level v) (agent_config r l m i o h d)
  unfolding agent_config
  agent_config-log_level x e = rw (e) (ground arith)

  agent_config-mqtt :
      (x : Result MqttConfig)
      → x ≡ map_ok (mqtt_with_host v) m
      → agent_config r l x i o h d ≡ map_ok (with_host v) (agent_config r l m i o h d)
  unfolding agent_config
  agent_config-mqtt x e = rw (e) (ground arith)

  agent_config-video :
      (x : Result VideoConfig)
      → x ≡ map_ok (video_with_turn_server v) d
      → agent_config r l m i o h x ≡ map_ok (with_turn_server v) (agent_config r l m i o h d)
  unfolding agent_config
  agent_config-video x e = rw (e) (ground arith)

module _ (parse_int parse_float : Text → Option ℤ) (environ : Environ) where
  abbrev loaded : Environ → Option Yaml → Result AgentConfig
  loaded e file = load_config parse_int parse_float e file

  robot_id_set :
      (v : Text) (y : Yaml)
      → load_robot_id parse_int parse_float (set (lit "ROBOT_ID") v environ) y
        ≡ map_ok (λ _. str v) (load_robot_id parse_int parse_float environ y)
  unfolding ◌==◌
  robot_id_set v y = ground arith

  host_set :
      (v password : Text) (y : Yaml)
      → load_mqtt parse_int parse_float (set (lit "MQTT_HOST") v environ) password y
        ≡ map_ok (mqtt_with_host v) (load_mqtt parse_int parse_float environ password y)
  unfolding ◌==◌
  host_set v password y = ground arith

  turn_server_set :
      (v : Text) (y : Yaml)
      → load_video parse_int parse_float (set (lit "TURN_SERVER_URL") v environ) y
        ≡ map_ok (video_with_turn_server v) (load_video parse_int parse_float environ y)
  unfolding ◌==◌
  turn_server_set v y = ground arith

  log_level_set :
      (v : Text) (y : Yaml)
      → load_log_level parse_int parse_float (set (lit "LOG_LEVEL") v environ) y
        ≡ map_ok (λ _. str v) (load_log_level parse_int parse_float environ y)
  unfolding ◌==◌
  log_level_set v y = ground arith

  -- The configuration of a dict, once the password is read.
  abbrev built : Environ → Mapping → Text → Result AgentConfig
  built e m password =
      agent_config (load_robot_id parse_int parse_float e (dict m))
        (load_log_level parse_int parse_float e (dict m))
        (load_mqtt parse_int parse_float e password (lookup (lit "mqtt") (dict end) m))
        (load_intervals parse_int parse_float e (lookup (lit "intervals") (dict end) m))
        (load_motion parse_int parse_float e (lookup (lit "motion") (dict end) m))
        (load_health_server parse_int parse_float e (lookup (lit "health_server") (dict end) m))
        (load_video parse_int parse_float e (lookup (lit "video") (dict end) m))

  -- Where the YAML file is no dict, nothing is read of the environment; of a dict it is enough to
  -- compare what is built.
  override_from :
      (f : AgentConfig → AgentConfig) (e : Environ) (y : Yaml)
      → e (lit "MQTT_ROBOT_PASSWORD") ≡ environ (lit "MQTT_ROBOT_PASSWORD")
      → ((m : Mapping) (p : Text) → built e m p ≡ map_ok f (built environ m p))
      → load_from parse_int parse_float e y ≡ map_ok f (load_from parse_int parse_float environ y)
  unfolding load_from
  override_from f e (dict m) same h = rw (same) (go (environ (lit "MQTT_ROBOT_PASSWORD")))
    where
      go :
          (p : Option Text)
          → (require_password p >>= built e m) ≡ map_ok f (require_password p >>= built environ m)
      go none = refl
      go (some []) = refl
      go (some (c ∷ s)) = h m (c ∷ s)
  override_from f e y same h = refl

  -- A variable that is set for the robot's identifier, the log level, the broker's host or the TURN
  -- server decides that field, whatever the YAML file says, and no other; where the loading raises,
  -- it raises just so.
  pub environ_overrides :
      (v : Text) (file : Option Yaml)
      → (loaded (set (lit "ROBOT_ID") v environ) file
          ≡ map_ok (with_robot_id v) (loaded environ file))
        × (loaded (set (lit "LOG_LEVEL") v environ) file
            ≡ map_ok (with_log_level v) (loaded environ file))
        × (loaded (set (lit "MQTT_HOST") v environ) file
            ≡ map_ok (with_host v) (loaded environ file))
        × (loaded (set (lit "TURN_SERVER_URL") v environ) file
            ≡ map_ok (with_turn_server v) (loaded environ file))
  unfolding load_config ◌==◌
  environ_overrides v file =
      let y = load_yaml file in
      (
        override_from (with_robot_id v) (set (lit "ROBOT_ID") v environ) y refl
            (λ m p. agent_config-robot_id v _ _ _ _ _ _ _ _ (robot_id_set v (dict m))),
        override_from (with_log_level v) (set (lit "LOG_LEVEL") v environ) y refl
            (λ m p. agent_config-log_level v _ _ _ _ _ _ _ _ (log_level_set v (dict m))),
        override_from (with_host v) (set (lit "MQTT_HOST") v environ) y refl (λ m p.
            agent_config-mqtt v _ _ _ _ _ _ _ _ (host_set v p (lookup (lit "mqtt") (dict end) m))),
        override_from (with_turn_server v) (set (lit "TURN_SERVER_URL") v environ) y refl (λ m p.
            agent_config-video v _ _ _ _ _ _ _ _
              (turn_server_set v (lookup (lit "video") (dict end) m))),
      )
