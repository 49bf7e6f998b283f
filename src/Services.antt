-- ===== src/Services.antt =====
-- The services that the backend calls and does not implement: Redis, through redis-py
-- (cloud-container/backend/app/db/redis.py); PostgreSQL, through asyncpg
-- (cloud-container/backend/app/db/postgres.py, whose schema the laws follow); `uuid.uuid4`. Each
-- is a record of operations with the documented behaviour as laws. Redis is used with a positive
-- number of seconds alone, so the laws of `EX` and `EXPIRE` ask for one.
pub mod Memory
use mathlib.Core.Option
use cloud_robotics.Prelude.{
  ℕ, ◌-◌, ◌<◌, Text, ◌==◌, ◌≡◌, ◌≢◌, Option, none, some, List, [], ◌∷◌, leb, if◌then◌else◌,
}
use cloud_robotics.Prelude.Int.{ℤ, pos, negsuc}
use cloud_robotics.Json.{Json}

-- The value of sessions/manager.py's `value`, which Redis holds as JSON text.
pub record Lock : Type 0 where
  pub session_id : Text
  pub operator : Text
  pub acquired_at : ℕ

-- What Redis holds, by how it was written: a plain text, a float, the JSON text of a payload or of
-- a session.
pub data Stored : Type 0 where
  plain : Text → Stored
  number : ℤ → Stored
  payload : Json → Stored
  lock : Lock → Stored

-- A key's value and the seconds that it has left, `none` if it does not expire.
pub record Entry : Type 0 where
  pub value : Stored
  pub left : Option ℕ

abbrev pub entry : Stored → Option ℕ → Entry
entry v t = record { value = v; left = t }

-- The same value with `n` seconds to live.
abbrev pub with_left : ℕ → Entry → Entry
with_left n e = entry e.value (some n)

-- What is left of an entry after `n` seconds.
abbrev pub aged : ℕ → Option Entry → Option Entry
aged n none = none
aged n (some e) = elim e.left [
  | none ↦ some e
  | some t ↦ if leb t n then none else some (entry e.value (some (t - n)))
]

pub record Redis : Type 1 where
  pub Store : Type 0
  pub lookup : Store → Text → Option Entry
  pub set : Text → Stored → Option ℕ → Store → Store
  pub expire : Text → ℕ → Store → Store
  pub delete : Text → Store → Store
  pub elapse : ℕ → Store → Store
  pub lookup-set :
      (k j : Text) (v : Stored) (s : Store)
      → lookup (set k v none s) j ≡ (if k == j then some (entry v none) else lookup s j)
  pub lookup-set_ex :
      (k j : Text) (v : Stored) (n : ℕ) (s : Store)
      → 0 < n
      → lookup (set k v (some n) s) j ≡ (if k == j then some (entry v (some n)) else lookup s j)
  pub lookup-expire :
      (k j : Text) (n : ℕ) (s : Store)
      → 0 < n
      → lookup (expire k n s) j
        ≡ (if k == j then Option.map (with_left n) (lookup s j) else lookup s j)
  pub lookup-delete :
      (k j : Text) (s : Store) → lookup (delete k s) j ≡ (if k == j then none else lookup s j)
  pub lookup-elapse : (n : ℕ) (j : Text) (s : Store) → lookup (elapse n s) j ≡ aged n (lookup s j)

-- `TTL key`: -2 if there is no key, -1 if it does not expire.
abbrev pub ttl_of : Option Entry → ℤ
ttl_of none = negsuc 1
ttl_of (some e) = elim e.left [ none ↦ negsuc 0 | some t ↦ pos t ]

-- A row of `control_sessions`.
pub record SessionRow : Type 0 where
  pub robot_id : Text
  pub operator : Text
  pub started_at : ℕ
  pub ended_at : Option ℕ

abbrev pub ended : ℕ → SessionRow → SessionRow
ended t r = record r { ended_at = some t }

-- The display name in a table of robots.
abbrev pub find_row : List (Text × Text) → Text → Option Text
find_row [] k = none
find_row ((i, n) ∷ rows) k = if i == k then some n else find_row rows k

-- `robot_row`, `robots`, `session_row` read a row or the ordered table; the writes are the four
-- statements that the backend executes. An insert that a constraint refuses is `none`.
pub record Postgres : Type 1 where
  pub Db : Type 0
  pub robot_row : Db → Text → Option Text
  pub robots : Db → List (Text × Text)
  pub session_row : Db → Text → Option SessionRow
  pub insert_robot : Text → Text → Db → Db
  pub insert_session : Text → SessionRow → Db → Option Db
  pub end_session : Text → ℕ → Db → Db
  pub find_row-robots : (d : Db) (k : Text) → find_row (robots d) k ≡ robot_row d k
  pub robot_row-insert_robot :
      (k n j : Text) (d : Db)
      → robot_row (insert_robot k n d) j
        ≡ elim (robot_row d j) [ some m ↦ some m | none ↦ if k == j then some n else none ]
  pub session_row-insert_robot :
      (k n j : Text) (d : Db) → session_row (insert_robot k n d) j ≡ session_row d j
  pub insert_session-allowed :
      (i : Text) (r : SessionRow) (d : Db)
      → robot_row d r.robot_id ≢ none
      → session_row d i ≡ none
      → insert_session i r d ≢ none
  pub session_row-insert_session :
      (i j : Text) (r : SessionRow) (d e : Db)
      → insert_session i r d ≡ some e
      → session_row e j ≡ (if i == j then some r else session_row d j)
  pub robot_row-insert_session :
      (i j : Text) (r : SessionRow) (d e : Db)
      → insert_session i r d ≡ some e
      → robot_row e j ≡ robot_row d j
  pub session_row-end_session :
      (i j : Text) (t : ℕ) (d : Db)
      → session_row (end_session i t d) j
        ≡ (if i == j then Option.map (ended t) (session_row d j) else session_row d j)
  pub robot_row-end_session :
      (i j : Text) (t : ℕ) (d : Db) → robot_row (end_session i t d) j ≡ robot_row d j

-- `uuid4 n` is the n-th identifier that the process draws: no two are equal, none is empty.
-- `to_float` is what pydantic makes of a value for a `float` field, `float_of` Python's `float` of a
-- text; `none` is an exception. `isoformat` writes a time of the clock.
pub record Services : Type 1 where
  pub redis : Redis
  pub pg : Postgres
  pub uuid4 : ℕ → Text
  pub to_float : Json → Option ℤ
  pub float_of : Text → Option ℤ
  pub isoformat : ℕ → Text
  pub uuid4_injective : (m n : ℕ) → uuid4 m ≡ uuid4 n → m ≡ n
  pub uuid4-ne-nil : (n : ℕ) → uuid4 n ≢ []
  pub to_float-num : (x : ℤ) → to_float (Json.num x) ≡ some x
