-- ===== src/Backend/Sessions.antt =====
-- cloud-container/backend/app/sessions/manager.py: exclusive control sessions, one Redis key per
-- robot with a time to live, and an audit row in Postgres. Each method is one run to its end: what
-- other coroutines do at its awaits is in Sessions/Race. `uuid.UUID(s)` of an own identifier is it.
pub mod Holding
pub mod Ending
pub mod Race
pub mod Spec
pub mod Shown
pub mod Steps
pub mod Refinement
pub mod Expiry
use mathlib.Core.Option
use cloud_robotics.Prelude.{
  ℕ, suc, ◌+◌, ◌*◌, Text, lit, ◌++◌, ◌==◌, Bool, true, false, not, Option, none, some,
}
use cloud_robotics.Prelude.Int.{pos_part}
use cloud_robotics.Exec.{
  Exec, Result, ok, err, pure, lift, gets, modify, raise_if, ◌>>=◌, ◌>>◌, session_conflict,
  type_error, integrity_error,
}
use cloud_robotics.Services.{Services, Lock, Stored, Entry, SessionRow, ttl_of}
use cloud_robotics.Backend.World.{World}

pub record SessionInfo : Type 0 where
  pub session_id : Text
  pub robot_id : Text
  pub operator : Text
  pub acquired_at : ℕ
  pub expires_at : ℕ

unfoldable pub key : Text → Text
key robot_id = lit "session:" ++ robot_id

-- `json.loads(raw) if raw else None`, read as a session; under a session's key nothing else stands.
abbrev pub as_lock : Option Entry → Result (Option Lock)
as_lock none = ok none
as_lock (some e) = elim e.value [ Stored.lock l ↦ ok (some l) | _ ↦ err type_error ]

-- `existing is not None and existing["operator"] != operator`
abbrev pub is_other : Text → Option Lock → Bool
is_other operator none = false
is_other operator (some l) = not (l.operator == operator)

-- `current is None or current["operator"] != operator`
abbrev pub not_held : Text → Option Lock → Bool
not_held operator none = true
not_held operator (some l) = not (l.operator == operator)

-- The messages of the conflicts.
abbrev pub already_controlled : Text → Text
already_controlled robot_id = robot_id ++ lit " is already controlled by another operator"

abbrev pub not_active_holder : Text → Text → Text
not_active_holder operator robot_id =
    operator ++ (lit " does not hold the active session for " ++ robot_id)

abbrev pub not_control_holder : Text → Text → Text
not_control_holder operator robot_id =
    operator ++ (lit " does not hold an active control session for " ++ robot_id)

module _ (σ : Services) where
  unfoldable pub read : Text → Exec (World σ) (Option Lock)
  read robot_id w = (as_lock (σ.redis.lookup w.redis (key robot_id)), w)

  -- `value`: the existing session's identifier and time, or new ones.
  abbrev pub session_value : Text → Option Lock → Exec (World σ) Lock
  session_value operator (some l) w = (
    ok (record { session_id = l.session_id; operator = operator; acquired_at = l.acquired_at }),
    w,
  )
  session_value operator none w = (
    ok (record { session_id = σ.uuid4 w.drawn; operator = operator; acquired_at = w.now }),
    record w { drawn = suc w.drawn },
  )

  abbrev pub audit_row : Text → Text → ℕ → SessionRow
  audit_row robot_id operator now = record {
    robot_id = robot_id;
    operator = operator;
    started_at = now;
    ended_at = none;
  }

  -- `INSERT INTO control_sessions`, for a session that is new.
  abbrev pub record_session : Text → Option Lock → Lock → Exec (World σ) (Unit {0})
  record_session robot_id (some _) value w = (ok tt, w)
  record_session robot_id none value w =
      elim (σ.pg.insert_session value.session_id (audit_row robot_id value.operator w.now) w.pg) [
        | none ↦ (err integrity_error, w)
        | some d ↦ (ok tt, record w { pg = d })
      ]

  unfoldable pub to_info : Text → Lock → Exec (World σ) SessionInfo
  to_info robot_id value w = (
    ok (record {
      session_id = value.session_id;
      robot_id = robot_id;
      operator = value.operator;
      acquired_at = value.acquired_at;
      expires_at = w.now + pos_part (ttl_of (σ.redis.lookup w.redis (key robot_id))) * 1000;
    }),
    w,
  )

  release_held : Text → Text → Option Lock → Exec (World σ) (Unit {0})
  release_held robot_id operator none = pure tt
  release_held robot_id operator (some l) = do
    raise_if (not (l.operator == operator)) (session_conflict (not_active_holder operator robot_id))
    modify (λ w. record w { redis = σ.redis.delete (key robot_id) w.redis })
    modify (λ w. record w { pg = σ.pg.end_session l.session_id w.now w.pg })

  pub release : Text → Text → Exec (World σ) (Unit {0})
  unfolding read release_held
  release robot_id operator = do current ← read robot_id; release_held robot_id operator current

  pub get_holder : Text → Exec (World σ) (Option Text)
  unfolding read
  get_holder robot_id = do
    current ← read robot_id
    pure (Option.map (λ (l : Lock). l.operator) current)

  pub require_holder : Text → Text → Exec (World σ) (Unit {0})
  unfolding read
  require_holder robot_id operator = do
    current ← read robot_id
    raise_if (not_held operator current) (session_conflict (not_control_holder operator robot_id))

  module _ (ttl_seconds : ℕ) where
    abbrev pub write_lock : Text → Lock → Exec (World σ) (Unit {0})
    write_lock robot_id value = modify (λ w. record w {
      redis = σ.redis.set (key robot_id) (Stored.lock value) (some ttl_seconds) w.redis;
    })

    -- What `acquire` does once it has read the key.
    abbrev pub acquire_from : Text → Text → Option Lock → Exec (World σ) SessionInfo
    acquire_from robot_id operator existing = do
      raise_if (is_other operator existing) (session_conflict (already_controlled robot_id))
      value ← session_value operator existing
      write_lock robot_id value
      record_session robot_id existing value
      to_info robot_id value

    unfoldable pub acquire : Text → Text → Exec (World σ) SessionInfo
    unfolding read to_info
    acquire robot_id operator = do existing ← read robot_id; acquire_from robot_id operator existing

    pub renew : Text → Text → Exec (World σ) (Unit {0})
    unfolding read
    renew robot_id operator = do
      current ← read robot_id
      raise_if (not_held operator current) (session_conflict (not_active_holder operator robot_id))
      modify (λ w. record w { redis = σ.redis.expire (key robot_id) ttl_seconds w.redis })
