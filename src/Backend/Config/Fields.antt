-- ===== src/Backend/Config/Fields.antt =====
-- cloud-container/backend/app/config.py: the fields of Settings with their defaults, and
-- cloud-container/config/default.yaml. What pydantic makes of a value that is given for a field of
-- text or of a number is an argument; a default is not validated.
pub mod Shipped
use cloud_robotics.Prelude.{Text, lit, Option, none, some, List, [], ◌∷◌}
use cloud_robotics.Prelude.Int.{ℤ, pos}
use cloud_robotics.Exec.{Result, ok}
use cloud_robotics.Results.{◌>>=◌}
use cloud_robotics.Yaml.{Yaml, Mapping, int, str, dict, mapping, find}

pub record Settings : Type 0 where
  pub log_level : Text
  pub mqtt_host : Text
  pub mqtt_port : ℤ
  pub mqtt_backend_username : Text
  pub mqtt_backend_password : Text
  pub redis_host : Text
  pub redis_port : ℤ
  pub postgres_host : Text
  pub postgres_port : ℤ
  pub postgres_db : Text
  pub postgres_user : Text
  pub postgres_password : Text
  pub backend_port : ℤ
  pub operator_username : Text
  pub operator_password : Text
  pub jwt_secret : Text
  pub jwt_algorithm : Text
  pub jwt_expiry_seconds : ℤ
  pub session_ttl_seconds : ℤ

-- `Settings()`
abbrev pub defaults : Settings
defaults = record {
  log_level = lit "INFO";
  mqtt_host = lit "mosquitto";
  mqtt_port = pos 1883;
  mqtt_backend_username = lit "backend";
  mqtt_backend_password = lit "backend_dev_password";
  redis_host = lit "redis";
  redis_port = pos 6379;
  postgres_host = lit "postgres";
  postgres_port = pos 5432;
  postgres_db = lit "cloud_robotics";
  postgres_user = lit "robotics";
  postgres_password = lit "robotics_dev_password";
  backend_port = pos 8000;
  operator_username = lit "operator";
  operator_password = lit "operator_dev_password";
  jwt_secret = lit "dev-only-insecure-secret-change-me";
  jwt_algorithm = lit "HS256";
  jwt_expiry_seconds = pos 3600;
  session_ttl_seconds = pos 30;
}

-- `Settings.model_fields.keys()`
abbrev pub field_names : List Text
field_names =
    lit "log_level"
    ∷ lit "mqtt_host"
    ∷ lit "mqtt_port"
    ∷ lit "mqtt_backend_username"
    ∷ lit "mqtt_backend_password"
    ∷ lit "redis_host"
    ∷ lit "redis_port"
    ∷ lit "postgres_host"
    ∷ lit "postgres_port"
    ∷ lit "postgres_db"
    ∷ lit "postgres_user"
    ∷ lit "postgres_password"
    ∷ lit "backend_port"
    ∷ lit "operator_username"
    ∷ lit "operator_password"
    ∷ lit "jwt_secret"
    ∷ lit "jwt_algorithm"
    ∷ lit "jwt_expiry_seconds"
    ∷ lit "session_ttl_seconds"
    ∷ []

-- A field of the class: its default, or what is given, validated.
abbrev pub field {ℓ} : {A : Type ℓ} → (Yaml → Result A) → A → Option Yaml → Result A
field validate default none = ok default
field validate default (some y) = validate y

-- `Settings(**values)`, of what is given for each name.
unfoldable pub settings_of :
    (Yaml → Result Text) → (Yaml → Result ℤ) → (Text → Option Yaml) → Result Settings
settings_of text number given = do
  log_level ← field text defaults.log_level (given (lit "log_level"))
  mqtt_host ← field text defaults.mqtt_host (given (lit "mqtt_host"))
  mqtt_port ← field number defaults.mqtt_port (given (lit "mqtt_port"))
  username ← field text defaults.mqtt_backend_username (given (lit "mqtt_backend_username"))
  password ← field text defaults.mqtt_backend_password (given (lit "mqtt_backend_password"))
  redis_host ← field text defaults.redis_host (given (lit "redis_host"))
  redis_port ← field number defaults.redis_port (given (lit "redis_port"))
  postgres_host ← field text defaults.postgres_host (given (lit "postgres_host"))
  postgres_port ← field number defaults.postgres_port (given (lit "postgres_port"))
  db ← field text defaults.postgres_db (given (lit "postgres_db"))
  user ← field text defaults.postgres_user (given (lit "postgres_user"))
  db_password ← field text defaults.postgres_password (given (lit "postgres_password"))
  backend_port ← field number defaults.backend_port (given (lit "backend_port"))
  operator ← field text defaults.operator_username (given (lit "operator_username"))
  secret ← field text defaults.operator_password (given (lit "operator_password"))
  jwt_secret ← field text defaults.jwt_secret (given (lit "jwt_secret"))
  jwt_algorithm ← field text defaults.jwt_algorithm (given (lit "jwt_algorithm"))
  expiry ← field number defaults.jwt_expiry_seconds (given (lit "jwt_expiry_seconds"))
  ttl ← field number defaults.session_ttl_seconds (given (lit "session_ttl_seconds"))
  ok (record {
    log_level = log_level;
    mqtt_host = mqtt_host;
    mqtt_port = mqtt_port;
    mqtt_backend_username = username;
    mqtt_backend_password = password;
    redis_host = redis_host;
    redis_port = redis_port;
    postgres_host = postgres_host;
    postgres_port = postgres_port;
    postgres_db = db;
    postgres_user = user;
    postgres_password = db_password;
    backend_port = backend_port;
    operator_username = operator;
    operator_password = secret;
    jwt_secret = jwt_secret;
    jwt_algorithm = jwt_algorithm;
    jwt_expiry_seconds = expiry;
    session_ttl_seconds = ttl;
  })

abbrev pub settings : (Yaml → Result Text) → (Yaml → Result ℤ) → Mapping → Result Settings
settings text number values = settings_of text number (λ key. find key values)

-- cloud-container/config/default.yaml
abbrev pub default_entries : Mapping
default_entries =
    (mapping (
      (lit "log_level", str (lit "INFO"))
      ∷ (lit "mqtt_host", str (lit "mosquitto"))
      ∷ (lit "mqtt_port", int (pos 1883))
      ∷ (lit "mqtt_backend_username", str (lit "backend"))
      ∷ (lit "mqtt_backend_password", str (lit "backend_dev_password"))
      ∷ (lit "redis_host", str (lit "redis"))
      ∷ (lit "redis_port", int (pos 6379))
      ∷ (lit "postgres_host", str (lit "postgres"))
      ∷ (lit "postgres_port", int (pos 5432))
      ∷ (lit "postgres_db", str (lit "cloud_robotics"))
      ∷ (lit "postgres_user", str (lit "robotics"))
      ∷ (lit "postgres_password", str (lit "robotics_dev_password"))
      ∷ (lit "backend_port", int (pos 8000))
      ∷ (lit "operator_username", str (lit "operator"))
      ∷ (lit "operator_password", str (lit "operator_dev_password"))
      ∷ (lit "jwt_secret", str (lit "dev-only-insecure-secret-change-me"))
      ∷ (lit "jwt_algorithm", str (lit "HS256"))
      ∷ (lit "jwt_expiry_seconds", int (pos 3600))
      ∷ (lit "session_ttl_seconds", int (pos 30))
      ∷ []))

abbrev pub default_yaml : Yaml
default_yaml = dict default_entries
