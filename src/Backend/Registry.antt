-- ===== src/Backend/Registry.antt =====
-- cloud-container/backend/app/registry/store.py: the fleet as the backend knows it, identities in
-- Postgres and live state in Redis, written by the MQTT handlers and read by the API. `datetime`s
-- are the numbers that they are made from; ValueError stands for OverflowError too.
pub mod Keys
pub mod Updates
pub mod Listing
pub mod Recorded
use cloud_robotics.Prelude.{
  Text, lit, ◌++◌, ◌==◌, Bool, ltb, Option, none, some, List, [], ◌∷◌, if◌then◌else◌,
}
use cloud_robotics.Prelude.Int.{ℤ, pos, negsuc}
use cloud_robotics.Json.{Json, Fields, null, bool, num, str, arr, obj, find, truthy, or_null}
use cloud_robotics.Exec.{
  Exec, Result, ok, err, pure, lift, gets, modify, ◌>>=◌, ◌>>◌, as_dict, data_error, value_error,
  validation_error,
}
use cloud_robotics.Services.{Services, Stored, Entry}
use cloud_robotics.Backend.World.{World}

-- The status of a `RobotSummary`, a Literal of three texts.
pub data Status : Type 0 where
  online offline unknown : Status

pub record RobotSummary : Type 0 where
  pub robot_id : Text
  pub display_name : Text
  pub status : Status
  pub last_seen : Option ℤ
  pub battery_percentage : Option ℤ
  pub in_use_by : Option Text

unfoldable pub key : Text → Text → Text
key robot_id field = lit "robot:" ++ (robot_id ++ (lit ":" ++ field))

-- What redis-py makes of a value given to `set`: a text or a number, or a DataError.
abbrev pub to_stored : Json → Result Stored
to_stored null = err data_error
to_stored (bool _) = err data_error
to_stored (num x) = ok (Stored.number x)
to_stored (str t) = ok (Stored.plain t)
to_stored (arr _) = err data_error
to_stored (obj _) = err data_error

-- `payload.get("status", "unknown")`
abbrev pub status_of : Fields → Json
status_of fs = elim (find fs (lit "status")) [ none ↦ str (lit "unknown") | some v ↦ v ]

-- `json.loads(raw) if raw else None`, under a key where payloads alone stand.
abbrev pub as_payload : Option Entry → Result Json
as_payload none = ok null
as_payload (some e) = elim e.value [ Stored.payload j ↦ ok j | _ ↦ err value_error ]

-- The validation of `status or "unknown"` against the three literals.
abbrev pub literal_status : Text → Result Status
literal_status t =
    if t == lit "online"
    then ok online
    else if t == lit "offline"
    then ok offline
    else if t == lit "unknown"
    then ok unknown
    else err validation_error

abbrev pub as_status : Option Entry → Result Status
as_status none = ok unknown
as_status (some e) = elim e.value [
  | Stored.plain t ↦ elim t [ [] ↦ ok unknown | c ∷ s ↦ literal_status (c ∷ s) ]
  | _ ↦ err validation_error
]

-- `json.loads(telemetry_raw).get("battery_percentage")`, if there is a text.
abbrev pub battery_of : Option Entry → Result Json
battery_of none = ok null
battery_of (some e) = elim e.value [
  | Stored.payload j ↦ elim (as_dict j) [
    | ok fs ↦ ok (or_null (find fs (lit "battery_percentage")))
    | err x ↦ err x
  ]
  | _ ↦ err value_error
]

-- The validation of an `Optional[dict]`.
abbrev pub as_optional_dict : Json → Result Json
as_optional_dict null = ok null
as_optional_dict (obj fs) = ok (obj fs)
as_optional_dict _ = err validation_error

-- Whether a number of thousandths of a second lies in the years 1 to 9999 of Python's `datetime`.
abbrev pub is_datetime : ℤ → Bool
is_datetime (pos n) = ltb n 253402300800000
is_datetime (negsuc n) = ltb n 62135596800000

-- `datetime.fromtimestamp`, which raises for a time out of its range.
abbrev fromtimestamp : ℤ → Result (Option ℤ)
fromtimestamp x = if is_datetime x then ok (some x) else err value_error

module _ (σ : Services) where
  -- `redis.get` and `redis.set` of one of the robot's fields.
  abbrev pub get_field : Text → Text → Exec (World σ) (Option Entry)
  get_field robot_id field = gets (λ w. σ.redis.lookup w.redis (key robot_id field))

  abbrev pub set_field : Text → Text → Stored → Exec (World σ) (Unit {0})
  set_field robot_id field value =
      modify (λ w. record w { redis = σ.redis.set (key robot_id field) value none w.redis })

  -- `timestamp or _now_epoch()`
  abbrev or_now : Json → Json → Json
  or_now timestamp now = if truthy timestamp then timestamp else now

  pub touch_last_seen : Text → Json → Exec (World σ) (Unit {0})
  touch_last_seen robot_id timestamp = do
    now ← gets (λ w. w.now)
    value ← lift (to_stored (or_now timestamp (num (pos now))))
    set_field robot_id (lit "last_seen") value

  ensure_registered : Text → Exec (World σ) (Unit {0})
  ensure_registered robot_id =
      modify (λ w. record w { pg = σ.pg.insert_robot robot_id robot_id w.pg })

  -- `payload.get("timestamp")`, for `_touch_last_seen`.
  abbrev touch_from : Text → Json → Exec (World σ) (Unit {0})
  touch_from robot_id payload = do
    fs ← lift (as_dict payload)
    touch_last_seen robot_id (or_null (find fs (lit "timestamp")))

  pub record_status : Text → Json → Exec (World σ) (Unit {0})
  unfolding ensure_registered touch_last_seen
  record_status robot_id payload = do
    ensure_registered robot_id
    fs ← lift (as_dict payload)
    value ← lift (to_stored (status_of fs))
    set_field robot_id (lit "status") value
    touch_last_seen robot_id (or_null (find fs (lit "timestamp")))

  pub record_telemetry : Text → Json → Exec (World σ) (Unit {0})
  unfolding touch_last_seen
  record_telemetry robot_id payload = do
    set_field robot_id (lit "telemetry") (Stored.payload payload)
    touch_from robot_id payload

  pub record_health : Text → Json → Exec (World σ) (Unit {0})
  unfolding touch_last_seen
  record_health robot_id payload = do
    set_field robot_id (lit "health") (Stored.payload payload)
    touch_from robot_id payload

  pub record_lidar_scan : Text → Json → Exec (World σ) (Unit {0})
  unfolding touch_last_seen
  record_lidar_scan robot_id payload = do
    set_field robot_id (lit "lidar") (Stored.payload payload)
    touch_from robot_id payload

  pub record_heartbeat : Text → Json → Exec (World σ) (Unit {0})
  unfolding touch_last_seen
  record_heartbeat robot_id payload = touch_from robot_id payload

  pub get_telemetry : Text → Exec (World σ) Json
  get_telemetry robot_id = do raw ← get_field robot_id (lit "telemetry"); lift (as_payload raw)

  pub get_health : Text → Exec (World σ) Json
  get_health robot_id = do raw ← get_field robot_id (lit "health"); lift (as_payload raw)

  pub get_lidar_scan : Text → Exec (World σ) Json
  get_lidar_scan robot_id = do raw ← get_field robot_id (lit "lidar"); lift (as_payload raw)

  -- `datetime.fromtimestamp(float(raw), tz=timezone.utc)`
  abbrev epoch_to_datetime : Option Entry → Result (Option ℤ)
  epoch_to_datetime none = ok none
  epoch_to_datetime (some e) = elim e.value [
    | Stored.number x ↦ fromtimestamp x
    | Stored.plain t ↦ elim (σ.float_of t) [ some x ↦ fromtimestamp x | none ↦ err value_error ]
    | _ ↦ err value_error
  ]

  -- The validation of an `Optional[float]`.
  abbrev as_optional_float : Json → Result (Option ℤ)
  as_optional_float null = ok none
  as_optional_float v = elim (σ.to_float v) [ some x ↦ ok (some x) | none ↦ err validation_error ]

  unfoldable pub summarize : Text → Text → Exec (World σ) RobotSummary
  summarize robot_id display_name = do
    status ← get_field robot_id (lit "status")
    last_seen_raw ← get_field robot_id (lit "last_seen")
    telemetry_raw ← get_field robot_id (lit "telemetry")
    battery ← lift (battery_of telemetry_raw)
    last_seen ← lift (epoch_to_datetime last_seen_raw)
    valid_status ← lift (as_status status)
    battery_percentage ← lift (as_optional_float battery)
    pure (record {
      robot_id = robot_id;
      display_name = display_name;
      status = valid_status;
      last_seen = last_seen;
      battery_percentage = battery_percentage;
      in_use_by = none;
    })

  summarize_all : List (Text × Text) → Exec (World σ) (List RobotSummary)
  summarize_all [] = pure []
  summarize_all ((robot_id, display_name) ∷ rows) = do
    summary ← summarize robot_id display_name
    rest ← summarize_all rows
    pure (summary ∷ rest)

  pub list_robots : Exec (World σ) (List RobotSummary)
  list_robots = do rows ← gets (λ w. σ.pg.robots w.pg); summarize_all rows

  unfoldable pub summarize_row : Text → Option Text → Exec (World σ) (Option RobotSummary)
  summarize_row robot_id none = pure none
  summarize_row robot_id (some display_name) = do
    summary ← summarize robot_id display_name
    pure (some summary)

  unfoldable pub get_robot : Text → Exec (World σ) (Option RobotSummary)
  unfolding summarize_row
  get_robot robot_id = do row ← gets (λ w. σ.pg.robot_row w.pg robot_id); summarize_row robot_id row
