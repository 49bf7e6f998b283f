-- ===== src/Json.antt =====
-- JSON values as Python's `json` module reads them, the payloads of MQTT messages
-- (cloud-container/backend/app, robot-container/robot_agent). A JSON text is kept as the value
-- that it denotes, so `json.dumps` and `json.loads` of it are the identity; a text that is no
-- JSON is a case of its own where one can arrive (`Wire`). Floats are numbers of thousandths.
use cloud_robotics.Prelude.{
  Text, ◌==◌, Bool, true, false, Option, none, some, List, [], ◌∷◌, if◌then◌else◌,
}
use cloud_robotics.Prelude.Int.{ℤ, is_nonzero}

mutual
  pub data Json : Type 0 where
    null : Json
    bool : Bool → Json
    num : ℤ → Json
    str : Text → Json
    arr : Items → Json
    obj : Fields → Json

  pub data Items : Type 0 where
    nil : Items
    cons : Json → Items → Items

  pub data Fields : Type 0 where
    end : Fields
    field : Text → Json → Fields → Fields

-- What `json.loads(msg.payload.decode())` meets: the text of a value, or bytes that raise.
pub data Wire : Type 0 where
  encoded : Json → Wire
  malformed : Wire

-- `fields.get(key)`, where `none` is a missing key.
unfoldable pub find : Fields → Text → Option Json
find end key = none
find (field k v rest) key = if k == key then some v else find rest key

-- Python's `bool(value)`.
abbrev pub truthy : Json → Bool
truthy null = false
truthy (bool b) = b
truthy (num x) = is_nonzero x
truthy (str []) = false
truthy (str (c ∷ s)) = true
truthy (arr nil) = false
truthy (arr (cons v vs)) = true
truthy (obj end) = false
truthy (obj (field k v fs)) = true

-- The missing key that `dict.get` turns into None.
abbrev pub or_null : Option Json → Json
or_null none = null
or_null (some v) = v

abbrev pub num_or_null : Option ℤ → Json
num_or_null none = null
num_or_null (some x) = num x

-- A dict literal.
abbrev pub fields : List (Text × Json) → Fields
fields [] = end
fields ((k, v) ∷ rest) = field k v (fields rest)

abbrev pub object : List (Text × Json) → Json
object entries = obj (fields entries)

-- A JSON list of optional numbers.
abbrev pub numbers : List (Option ℤ) → Items
numbers [] = nil
numbers (x ∷ xs) = cons (num_or_null x) (numbers xs)
