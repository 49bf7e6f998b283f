-- ===== src/Backend/Config/Fields/Shipped.antt =====
-- What cloud-container/backend/app/config.py makes of an environment, with and without the YAML file
-- that is shipped.
use cloud_robotics.Prelude.{
  Text, lit, ◌==◌, true, Option, none, some, List, ◌≡◌, refl, ◌∙◌, ◌⊎◌, inl, inr,
}
use cloud_robotics.Prelude.Int.{ℤ}
use cloud_robotics.Exec.{Result, ok}
use cloud_robotics.Yaml.{Yaml, Mapping, str, int, end, find}
use cloud_robotics.Backend.Config.{Environ, get_settings, upper, merge, load_env_overrides}
use cloud_robotics.Backend.Config.Precedence.{member, or_else, find-merge}
use cloud_robotics.Backend.Config.Fields.{
  settings, settings_of, field, field_names, default_yaml, default_entries, defaults,
}

-- What an environment alone gives.
abbrev pub from_environ : Environ → Text → Option Yaml
from_environ environ key = or_else (environ (upper key)) none

field-or_else :
    {A : Type 0} (validate : Yaml → Result A) (default : A) (y : Yaml) (v : Option Text)
    → validate y ≡ ok default
    → field validate default (or_else v (some y)) ≡ field validate default (or_else v none)
field-or_else validate default y none valid = valid
field-or_else validate default y (some v) valid = refl

module _ (text : Yaml → Result Text) (number : Yaml → Result ℤ)
    (texts : (s : Text) → text (str s) ≡ ok s) (numbers : (n : ℤ) → number (int n) ≡ ok n)
    (environ : Environ) (names : List Text)
    (order : (key : Text) → member key names ≡ member key field_names) where
  module _ (m : Mapping)
      (shipped : (key : Text) → (find key m ≡ none) ⊎ (find key m ≡ find key default_entries)) where
    abbrev given : Text → Option Yaml
    given key = find key (merge m (load_env_overrides environ names))

    given_lem :
        (key : Text)
        → member key field_names ≡ true
        → given key ≡ or_else (environ (upper key)) (find key m)
    given_lem key known = find-merge environ names key m ∙ rw (order key, known) refl

    field-given :
        {A : Type 0} (validate : Yaml → Result A) (default : A) (key : Text) (y : Yaml)
        → member key field_names ≡ true
        → find key default_entries ≡ some y
        → validate y ≡ ok default
        → field validate default (given key) ≡ field validate default (from_environ environ key)
    field-given validate default key y known entered valid =
        rw (given_lem key known) (elim (shipped key) [
          | inl absent ↦ rw (absent) refl
          | inr same ↦
              rw (same, entered) (field-or_else validate default y (environ (upper key)) valid)
        ])

    given_text :
        (key default : Text)
        → member key field_names ≡ true
        → find key default_entries ≡ some (str default)
        → field text default (given key) ≡ field text default (from_environ environ key)
    given_text key default known entered =
        field-given text default key (str default) known entered (texts default)

    given_number :
        (key : Text) (default : ℤ)
        → member key field_names ≡ true
        → find key default_entries ≡ some (int default)
        → field number default (given key) ≡ field number default (from_environ environ key)
    given_number key default known entered =
        field-given number default key (int default) known entered (numbers default)

    settings_of-given :
        settings_of text number given ≡ settings_of text number (from_environ environ)
    unfolding settings_of find ◌==◌
    settings_of-given =
        rw
          (
            given_text (lit "log_level") defaults.log_level refl refl,
            given_text (lit "mqtt_host") defaults.mqtt_host refl refl,
            given_number (lit "mqtt_port") defaults.mqtt_port refl refl,
            given_text (lit "mqtt_backend_username") defaults.mqtt_backend_username refl refl,
            given_text (lit "mqtt_backend_password") defaults.mqtt_backend_password refl refl,
            given_text (lit "redis_host") defaults.redis_host refl refl,
            given_number (lit "redis_port") defaults.redis_port refl refl,
            given_text (lit "postgres_host") defaults.postgres_host refl refl,
            given_number (lit "postgres_port") defaults.postgres_port refl refl,
            given_text (lit "postgres_db") defaults.postgres_db refl refl,
            given_text (lit "postgres_user") defaults.postgres_user refl refl,
            given_text (lit "postgres_password") defaults.postgres_password refl refl,
            given_number (lit "backend_port") defaults.backend_port refl refl,
            given_text (lit "operator_username") defaults.operator_username refl refl,
            given_text (lit "operator_password") defaults.operator_password refl refl,
            given_text (lit "jwt_secret") defaults.jwt_secret refl refl,
            given_text (lit "jwt_algorithm") defaults.jwt_algorithm refl refl,
            given_number (lit "jwt_expiry_seconds") defaults.jwt_expiry_seconds refl refl,
            given_number (lit "session_ttl_seconds") defaults.session_ttl_seconds refl refl,
          )
          refl

  -- Where the class takes a text for a field of text and a number for a field of a number, the
  -- settings with the YAML file that is shipped and those without any are the same: each field has
  -- its variable's text, validated, if the variable is set, and else the class's default, whatever
  -- the order in which the names of the fields are walked.
  pub get_settings_lem :
      (get_settings (settings text number) environ names none
        ≡ settings_of text number (from_environ environ))
      × (get_settings (settings text number) environ names (some default_yaml)
          ≡ settings_of text number (from_environ environ))
  unfolding get_settings find
  get_settings_lem =
      (settings_of-given end (λ key. inl refl), settings_of-given default_entries (λ key. inr refl))
