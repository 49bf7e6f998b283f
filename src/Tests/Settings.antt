-- ===== src/Tests/Settings.antt =====
-- The theorems on configurations, retries and the mock adapter at concrete inputs.
use cloud_robotics.Prelude.{
  ℕ, ◌+◌, ◌-◌, ◌*◌, ◌≤◌, Text, lit, ◌==◌, true, false, ltb, [], ◌∷◌, ◌++◌, length, All, Option,
  none, some, ◌≡◌, refl, arith, if◌then◌else◌,
}
use cloud_robotics.Prelude.Int.{ℤ, pos}
use cloud_robotics.Exec.{Result, ok, err, value_error}
use cloud_robotics.Results.{map_ok}
use cloud_robotics.Backend.Mqtt.{connect}
use cloud_robotics.Backend.Mqtt.Retrying.{failures, backoff, connect_returns, waits_bounded, sum}
use cloud_robotics.Yaml.{Yaml, str, int_of}
use cloud_robotics.Backend.Config.{get_settings}
use cloud_robotics.Backend.Config.Fields.{
  settings, settings_of, field_names, default_yaml as shipped_yaml, defaults as backend_defaults,
}
use cloud_robotics.Backend.Config.Fields.Shipped.{from_environ, get_settings_lem}
use cloud_robotics.Robot.Config.{Environ, load_config}
use cloud_robotics.Robot.Config.Defaults.{default_yaml}
use cloud_robotics.Robot.Config.Overrides.{
  set, with_robot_id, with_log_level, with_host, with_turn_server, environ_overrides,
}
use cloud_robotics.Robot.MockAdapter.{publish_cmd_vel, tick, Math, timer, cmd_vel, new_adapter, run}
use cloud_robotics.Robot.MockAdapter.Ranges.{IsOrdered}

connect_returns_example :
    (connect (failures 7 ++ true ∷ false ∷ []) ≡ (backoff 0 7, true))
    × (connect (failures 7) ≡ (backoff 0 7, false))
connect_returns_example = connect_returns 7 (false ∷ [])

waits_bounded_example :
    All (λ s. (1 ≤ s) × (s ≤ 30)) (connect (failures 7)).0
    × (sum (connect (failures 7)).0 ≤ 30 * length (failures 7))
waits_bounded_example = waits_bounded (failures 7)

-- No text is read as a number.
abbrev no_number : Text → Option ℤ
no_number s = none

abbrev only_password : Environ
only_password k = if lit "MQTT_ROBOT_PASSWORD" == k then some (lit "secret") else none

environ_overrides_example :
    (load_config no_number no_number
        (set (lit "ROBOT_ID") (lit "r2") only_password)
        (some default_yaml)
      ≡ map_ok
          (with_robot_id (lit "r2"))
          (load_config no_number no_number only_password (some default_yaml)))
    × (load_config no_number no_number
          (set (lit "LOG_LEVEL") (lit "r2") only_password)
          (some default_yaml)
        ≡ map_ok
            (with_log_level (lit "r2"))
            (load_config no_number no_number only_password (some default_yaml)))
    × (load_config no_number no_number
          (set (lit "MQTT_HOST") (lit "r2") only_password)
          (some default_yaml)
        ≡ map_ok
            (with_host (lit "r2"))
            (load_config no_number no_number only_password (some default_yaml)))
    × (load_config no_number no_number
          (set (lit "TURN_SERVER_URL") (lit "r2") only_password)
          (some default_yaml)
        ≡ map_ok
            (with_turn_server (lit "r2"))
            (load_config no_number no_number only_password (some default_yaml)))
environ_overrides_example =
    environ_overrides no_number no_number only_password (lit "r2") (some default_yaml)

-- What a field of text and a field of a number take.
abbrev text_of : Yaml → Result Text
text_of (str s) = ok s
text_of y = err value_error

abbrev number_of : Yaml → Result ℤ
number_of y = int_of no_number y

abbrev backend_environ : Text → Option Text
backend_environ k = if lit "REDIS_HOST" == k then some (lit "cache") else none

get_settings_lem_example :
    (get_settings (settings text_of number_of) backend_environ field_names none
      ≡ settings_of text_of number_of (from_environ backend_environ))
    × (get_settings (settings text_of number_of) backend_environ field_names (some shipped_yaml)
        ≡ settings_of text_of number_of (from_environ backend_environ))
get_settings_lem_example =
    get_settings_lem text_of number_of (λ s. refl) (λ n. refl) backend_environ field_names
      (λ key. refl)

-- With REDIS_HOST alone, the other fields have the defaults.
redis_host_alone :
    settings_of text_of number_of (from_environ backend_environ)
    ≡ ok (record backend_defaults { redis_host = lit "cache" })
unfolding settings_of ◌==◌
redis_host_alone = refl

-- Numbers of thousandths, whose sine is 0.
abbrev thousandths : Math ℕ
thousandths = record {
  literal = λ n. n;
  of_int = λ n. n * 1000;
  add = λ a b. a + b;
  sub = λ a b. a - b;
  mul = λ a b. a * b;
  div = λ a b. a;
  remainder = λ a b. a;
  abs = λ a. a;
  lt = ltb;
  pi = 3142;
  sin = λ a. 0;
  cos = λ a. 1000;
  round2 = λ a. pos a;
  round3 = λ a. pos a;
  value = λ a. pos a;
}

thousandths-IsOrdered : IsOrdered thousandths
thousandths-IsOrdered = record {
  asym = λ a b h. ground arith;
  trans = λ a b c h k. ground arith;
  literals = λ i j h. ground arith;
  sub_le = λ a. ground arith;
}

-- Two ticks in motion take 0.02 off the charge.
battery_drains :
    (run thousandths
      (cmd_vel 200 0 ∷ timer ∷ timer ∷ [])
      (new_adapter thousandths 1000)).battery_percentage
    ≡ 99980
unfolding run tick new_adapter publish_cmd_vel
battery_drains = refl
