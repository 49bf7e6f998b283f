-- ===== src/Services/Memory.antt =====
-- The services in memory: values that the laws of `Services` hold of, for tests and witnesses.
use mathlib.Core.Option
use cloud_robotics.Prelude.{
  ℕ, suc, Text, lit, ◌==◌, ◌≡◌, refl, ◌≢◌, ap, Option, none, some, List, [], ◌∷◌, arith, ==_iff,
  if◌then◌else◌, length,
}
use cloud_robotics.Prelude.Int.{ℤ}
use cloud_robotics.Json.{Json}
use cloud_robotics.Services.{
  Entry, entry, with_left, aged, Redis, SessionRow, ended, find_row, Postgres, Services,
}

-- A table as the function that reads it.
abbrev Table : Type 0 → Type 0
Table V = Text → Option V

abbrev put : {V : Type 0} → Text → Option V → Table V → Table V
put k v t j = if k == j then v else t j

abbrev pub memory_redis : Redis
memory_redis = record {
  Store = Table Entry;
  lookup = λ s j. s j;
  set = λ k v ex. put k (some (entry v ex));
  expire = λ k n s j. if k == j then Option.map (with_left n) (s j) else s j;
  delete = λ k. put k none;
  elapse = λ n s j. aged n (s j);
  lookup-set = λ k j v s. refl;
  lookup-set_ex = λ k j v n s h. refl;
  lookup-expire = λ k j n s h. refl;
  lookup-delete = λ k j s. refl;
  lookup-elapse = λ n j s. refl;
}

pub record Db : Type 0 where
  pub rows : List (Text × Text)
  pub sessions : Text → Option SessionRow

-- `ON CONFLICT (robot_id) DO NOTHING`
abbrev pub insert_row : Text → Text → List (Text × Text) → List (Text × Text)
insert_row k n [] = (k, n) ∷ []
insert_row k n ((i, m) ∷ rows) = if i == k then (i, m) ∷ rows else (i, m) ∷ insert_row k n rows

pub find_row-insert_row :
    (k n j : Text) (rows : List (Text × Text))
    → find_row (insert_row k n rows) j
      ≡ elim (find_row rows j) [ some m ↦ some m | none ↦ if k == j then some n else none ]
find_row-insert_row k n j [] = refl
find_row-insert_row k n j ((i, m) ∷ rows) =
    ground (arith, find_row-insert_row k n j rows, ==_iff i k, ==_iff i j, ==_iff k j)

abbrev pub insert_session : Text → SessionRow → Db → Option Db
insert_session i r d = elim (find_row d.rows r.robot_id) [
  | none ↦ none
  | some _ ↦ elim (d.sessions i) [
    | none ↦ some (record d { sessions = put i (some r) d.sessions })
    | some _ ↦ none
  ]
]

pub insert_session-allowed :
    (i : Text) (r : SessionRow) (d : Db)
    → find_row d.rows r.robot_id ≢ none
    → d.sessions i ≡ none
    → insert_session i r d ≢ none
insert_session-allowed i r d h e = ground arith

pub sessions-insert_session :
    (i j : Text) (r : SessionRow) (d e : Db)
    → insert_session i r d ≡ some e
    → e.sessions j ≡ (if i == j then some r else d.sessions j)
sessions-insert_session i j r d e h = ground arith

pub rows-insert_session :
    (i j : Text) (r : SessionRow) (d e : Db)
    → insert_session i r d ≡ some e
    → find_row e.rows j ≡ find_row d.rows j
rows-insert_session i j r d e h = ground arith

abbrev pub memory_pg : Postgres
memory_pg = record {
  Db = Db;
  robot_row = λ d. find_row d.rows;
  robots = λ d. d.rows;
  session_row = λ d. d.sessions;
  insert_robot = λ k n d. record d { rows = insert_row k n d.rows };
  insert_session = insert_session;
  end_session = λ i t d. record d {
    sessions = λ j. if i == j then Option.map (ended t) (d.sessions j) else d.sessions j;
  };
  find_row-robots = λ d k. refl;
  robot_row-insert_robot = λ k n j d. find_row-insert_row k n j d.rows;
  session_row-insert_robot = λ k n j d. refl;
  insert_session-allowed = insert_session-allowed;
  session_row-insert_session = sessions-insert_session;
  robot_row-insert_session = rows-insert_session;
  session_row-end_session = λ i j t d. refl;
  robot_row-end_session = λ i j t d. refl;
}

-- The identifiers "", "u", "uu", … with one more letter.
abbrev pub nth_id : ℕ → Text
nth_id n = elim n [ ℕ.zero ↦ lit "u" | suc (k → ih) ↦ b'u' ∷ ih ]

pub length-nth_id : (n : ℕ) → length (nth_id n) ≡ suc n
length-nth_id ℕ.zero = refl
length-nth_id (suc n) = ap suc (length-nth_id n)

pub nth_id_injective : (m n : ℕ) → nth_id m ≡ nth_id n → m ≡ n
nth_id_injective m n h =
    omega (arith, length-nth_id m, length-nth_id n, ap (λ (t : Text). length t) h)

pub nth_id-ne-nil : (n : ℕ) → nth_id n ≢ []
nth_id-ne-nil ℕ.zero h = cc
nth_id-ne-nil (suc n) h = cc

abbrev pub number_of : Json → Option ℤ
number_of (Json.num x) = some x
number_of _ = none

abbrev pub memory : Services
memory = record {
  redis = memory_redis;
  pg = memory_pg;
  uuid4 = nth_id;
  to_float = number_of;
  float_of = λ _. none;
  isoformat = nth_id;
  uuid4_injective = nth_id_injective;
  uuid4-ne-nil = nth_id-ne-nil;
  to_float-num = λ x. refl;
}

-- A store with no key, and tables with these robots and no session.
abbrev pub no_keys : Table Entry
no_keys _ = none

abbrev pub db_of : List (Text × Text) → Db
db_of robots = record { rows = robots; sessions = λ _. none }
