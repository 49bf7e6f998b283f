-- ===== src/Robot/Config/Defaults.antt =====
-- What robot-container/robot_agent/config.py makes of an environment that sets the password alone:
-- the defaults of the dataclasses, with and without robot-container/config/default.yaml.
use cloud_robotics.Prelude.{Text, lit, ◌≡◌, refl, ◌≢◌, Option, none, some, [], ◌∷◌, ◌==◌}
use cloud_robotics.Prelude.Int.{ℤ, pos}
use cloud_robotics.Exec.{ok}
use cloud_robotics.Yaml.{Yaml, int, float, str, dict, lookup, mapping}
use cloud_robotics.Robot.Config.{
  AgentConfig, agent_defaults, mqtt_defaults, Environ, load_config, load_from, agent_config,
}

-- robot-container/config/default.yaml
abbrev pub default_yaml : Yaml
default_yaml = dict (
    mapping (
      (lit "robot", dict (mapping ((lit "id", str (lit "turtlebot3_01")) ∷ [])))
      ∷ (
        lit "mqtt",
        dict (
            mapping (
              (lit "host", str (lit "mosquitto"))
              ∷ (lit "port", int (pos 1883))
              ∷ (lit "keepalive", int (pos 30))
              ∷ [])),
      )
      ∷ (
        lit "intervals",
        dict (
            mapping (
              (lit "heartbeat_seconds", int (pos 1))
              ∷ (lit "telemetry_seconds", int (pos 1))
              ∷ (lit "health_seconds", int (pos 2))
              ∷ (lit "lidar_seconds", float (pos 500))
              ∷ (lit "watchdog_check_seconds", int (pos 5))
              ∷ (lit "watchdog_unhealthy_after_seconds", int (pos 15))
              ∷ [])),
      )
      ∷ (
        lit "motion",
        dict (
            mapping (
              (lit "linear_speed", float (pos 200)) ∷ (lit "angular_speed", float (pos 500)) ∷ [])),
      )
      ∷ (lit "health_server", dict (mapping ((lit "port", int (pos 8080)) ∷ [])))
      ∷ (
        lit "video",
        dict (
            mapping (
              (lit "bitrate_kbps", int (pos 1000))
              ∷ (lit "framerate", int (pos 15))
              ∷ (lit "keyframe_interval", int (pos 30))
              ∷ (lit "stun_server", str (lit "stun://stun.l.google.com:19302"))
              ∷ (lit "turn_server", str [])
              ∷ [])),
      )
      ∷ (lit "log_level", str (lit "INFO"))
      ∷ []))

-- The variables that `load_config` reads, of which the password alone is set.
pub record OnlyPassword (environ : Environ) (password : Text) : Type 0 where
  pub given : environ (lit "MQTT_ROBOT_PASSWORD") ≡ some password
  pub ne-nil : password ≢ []
  pub robot_id : environ (lit "ROBOT_ID") ≡ none
  pub log_level : environ (lit "LOG_LEVEL") ≡ none
  pub host : environ (lit "MQTT_HOST") ≡ none
  pub mqtt_port : environ (lit "MQTT_PORT") ≡ none
  pub health_port : environ (lit "ROBOT_HEALTH_PORT") ≡ none
  pub turn_server : environ (lit "TURN_SERVER_URL") ≡ none

abbrev pub defaults_with : Text → AgentConfig
defaults_with password = record agent_defaults {
  mqtt = record mqtt_defaults { password = password };
}

module _ (parse_int parse_float : Text → Option ℤ) where
  -- With the password alone in the environment, the configuration has the dataclasses' defaults in
  -- every other field, without a YAML file and with the one that is shipped alike.
  pub defaults-load_config :
      (environ : Environ) (password : Text)
      → OnlyPassword environ password
      → (load_config parse_int parse_float environ none ≡ ok (defaults_with password))
        × (load_config parse_int parse_float environ (some default_yaml)
            ≡ ok (defaults_with password))
  unfolding load_config load_from agent_config lookup ◌==◌
  defaults-load_config environ [] h = absurd (h.ne-nil refl)
  defaults-load_config environ (c ∷ s) h =
      rw (h.given, h.robot_id, h.log_level, h.host, h.mqtt_port, h.health_port, h.turn_server)
        (refl, refl)
