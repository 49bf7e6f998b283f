-- ===== src/Logging.antt =====
-- cloud-container/backend/app/logging_config.py and robot-container/robot_agent/logging_config.py: the
-- line that a log record becomes, and the set-up of the root logger. The time's text and that of an
-- exception are arguments.
use cloud_robotics.Prelude.{Text, lit, Option, none, some, List, [], ◌∷◌, ◌≡◌, refl}
use cloud_robotics.Json.{Json, Fields, str, obj, field, end}

pub record LogRecord : Type 0 where
  pub name : Text
  pub levelname : Text
  pub message : Text
  pub exception : Option Text

-- `if record.exc_info`
abbrev pub exception_field : Option Text → Fields
exception_field none = end
exception_field (some text) = field (lit "exception") (str text) end

-- The backend's `JsonFormatter.format`.
unfoldable pub format_backend : Text → LogRecord → Json
format_backend timestamp r = obj (
    field (lit "timestamp") (str timestamp) (
      field (lit "module") (str r.name) (
        field (lit "severity") (str r.levelname)
          (field (lit "message") (str r.message) (exception_field r.exception)))))

-- The robot's.
unfoldable pub format_robot : Text → Text → LogRecord → Json
format_robot robot_id timestamp r = obj (
    field (lit "timestamp") (str timestamp) (
      field (lit "module") (str r.name) (
        field (lit "robot_id") (str robot_id) (
          field (lit "severity") (str r.levelname)
            (field (lit "message") (str r.message) (exception_field r.exception))))))

-- The root logger, with handlers of a type `H`, and the level of `uvicorn.access`, if it is set.
pub record Loggers (H : Type 0) : Type 0 where
  pub handlers : List H
  pub level : Text
  pub access_level : Option Text

module _ {H : Type 0} (upper : Text → Text) where
  -- `configure_logging` of the robot: the handlers are cleared first.
  unfoldable pub configure_robot : H → Text → Loggers H → Loggers H
  configure_robot handler level l = record l { handlers = handler ∷ []; level = upper level }

  unfoldable pub configure_backend : H → Text → Loggers H → Loggers H
  configure_backend handler level l = record l {
    handlers = handler ∷ [];
    level = upper level;
    access_level = some (lit "WARNING");
  }

  -- A second set-up replaces the first: no record is written twice.
  pub configured_again :
      (first second : H) (level level' : Text) (l : Loggers H)
      → (configure_backend second level' (configure_backend first level l)
          ≡ configure_backend second level' l)
        × (configure_robot second level' (configure_robot first level l)
            ≡ configure_robot second level' l)
  unfolding configure_robot configure_backend
  configured_again first second level level' l = (refl, refl)
