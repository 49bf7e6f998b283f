-- ===== src/Backend/Registry/Recorded.antt =====
-- What the registry answers about a robot once it has recorded its status
-- (cloud-container/backend/app/registry/store.py).
use cloud_robotics.Prelude.{
  Text, lit, ◌==◌, ◌≡◌, refl, ◌∙◌, true, Option, none, some, arith, ==_refl, if◌then◌else◌,
}
use cloud_robotics.Prelude.Int.{ℤ, is_nonzero}
use cloud_robotics.Json.{Fields, str, num, obj, find, num_or_null}
use cloud_robotics.Exec.{ok}
use cloud_robotics.Services.{Services, Stored, entry}
use cloud_robotics.Backend.World.{World}
use cloud_robotics.Backend.Registry.{
  key, RobotSummary, Status, online, offline, unknown, battery_of, record_status, touch_last_seen,
  ensure_registered, summarize, summarize_row, get_robot, as_status, as_optional_float, is_datetime,
}
use cloud_robotics.Backend.Registry.Updates.{key-ne}

-- The text of a status.
abbrev pub status_text : Status → Text
status_text online = lit "online"
status_text offline = lit "offline"
status_text unknown = lit "unknown"

module _ (σ : Services) where
  -- The world after a status has been recorded.
  abbrev recorded : World σ → Text → Status → ℤ → World σ
  recorded w r st now = record w {
    pg = σ.pg.insert_robot r r w.pg;
    redis =
        σ.redis.set (key r (lit "last_seen")) (Stored.number now) none
          (σ.redis.set (key r (lit "status")) (Stored.plain (status_text st)) none w.redis);
  }

  record_status-eq :
      (r : Text) (fs : Fields) (st : Status) (now : ℤ) (w : World σ)
      → find fs (lit "status") ≡ some (str (status_text st))
      → find fs (lit "timestamp") ≡ some (num now)
      → is_nonzero now ≡ true
      → record_status σ r (obj fs) w ≡ (ok tt, recorded w r st now)
  unfolding record_status touch_last_seen ensure_registered
  record_status-eq r fs st now w hs ht hn = ground arith

  lookup-recorded :
      (w : World σ) (r k : Text) (st : Status) (now : ℤ)
      → σ.redis.lookup (recorded w r st now).redis k ≡ (
          if key r (lit "last_seen") == k
          then some (entry (Stored.number now) none)
          else if key r (lit "status") == k
          then some (entry (Stored.plain (status_text st)) none)
          else σ.redis.lookup w.redis k)
  lookup-recorded w r k st now =
      σ.redis.lookup-set (key r (lit "last_seen")) k (Stored.number now) _
      ∙ ground (
        arith,
        σ.redis.lookup-set (key r (lit "status")) k (Stored.plain (status_text st)) w.redis,
      )

  -- The summary of a robot with this status and battery.
  abbrev pub summary_of : World σ → Text → Status → ℤ → Option ℤ → RobotSummary
  summary_of w r st now battery = record {
    robot_id = r;
    display_name = elim (σ.pg.robot_row w.pg r) [ none ↦ r | some d ↦ d ];
    status = st;
    last_seen = some now;
    battery_percentage = battery;
    in_use_by = none;
  }

  robot_row-registered :
      (w : World σ) (r : Text)
      → σ.pg.robot_row (σ.pg.insert_robot r r w.pg) r
        ≡ some (elim (σ.pg.robot_row w.pg r) [ none ↦ r | some d ↦ d ])
  robot_row-registered w r = σ.pg.robot_row-insert_robot r r r w.pg ∙ ground (arith, ==_refl r)

  lookup-recorded_fields :
      (w : World σ) (r : Text) (st : Status) (now : ℤ)
      → let look = σ.redis.lookup (recorded w r st now).redis in
        (look (key r (lit "status")) ≡ some (entry (Stored.plain (status_text st)) none))
        × (look (key r (lit "last_seen")) ≡ some (entry (Stored.number now) none))
        × (look (key r (lit "telemetry")) ≡ σ.redis.lookup w.redis (key r (lit "telemetry")))
  lookup-recorded_fields w r st now = (
    lookup-recorded w r (key r (lit "status")) st now
        ∙ rw
            (
              key-ne r (lit "last_seen") (lit "status") (omega arith) (omega arith) (ground arith),
              ==_refl (key r (lit "status")),
            )
            refl,
    lookup-recorded w r (key r (lit "last_seen")) st now
        ∙ rw (==_refl (key r (lit "last_seen"))) refl,
    lookup-recorded w r (key r (lit "telemetry")) st now
        ∙ rw
            (
              key-ne r (lit "last_seen") (lit "telemetry") (omega arith) (omega arith)
                  (ground arith),
              key-ne r (lit "status") (lit "telemetry") (omega arith) (omega arith) (ground arith),
            )
            refl,
  )

  as_status-text :
      (st : Status) → as_status (some (entry (Stored.plain (status_text st)) none)) ≡ ok st
  unfolding ◌==◌
  as_status-text online = refl
  as_status-text offline = refl
  as_status-text unknown = refl

  as_optional_float-num : (b : Option ℤ) → as_optional_float σ (num_or_null b) ≡ ok b
  as_optional_float-num none = refl
  as_optional_float-num (some x) = ground (arith, σ.to_float-num x)

  -- A robot's status message with one of the three texts and a time that is not zero, of the
  -- years 1 to 9999, is recorded:
  -- the robot is registered, under its id if it is new and under its old name else, and its summary
  -- has the status and the time, with the battery of the telemetry stored before.
  pub get_robot-record_status :
      (r : Text) (fs : Fields) (st : Status) (now : ℤ) (battery : Option ℤ) (w : World σ)
      → find fs (lit "status") ≡ some (str (status_text st))
      → find fs (lit "timestamp") ≡ some (num now)
      → is_nonzero now ≡ true
      → is_datetime now ≡ true
      → battery_of (σ.redis.lookup w.redis (key r (lit "telemetry"))) ≡ ok (num_or_null battery)
      → let (res, w') = record_status σ r (obj fs) w in
        (res ≡ ok tt) × (get_robot σ r w' ≡ (ok (some (summary_of w r st now battery)), w'))
  unfolding get_robot summarize summarize_row
  get_robot-record_status r fs st now battery w hs ht hn hd hb =
      rw (record_status-eq r fs st now w hs ht hn) (
        refl,
        let (status, last_seen, telemetry) = lookup-recorded_fields w r st now in
            ground (
              arith,
              status,
              last_seen,
              telemetry,
              hb,
              hd,
              robot_row-registered w r,
              as_status-text st,
              as_optional_float-num battery,
            ),
      )
