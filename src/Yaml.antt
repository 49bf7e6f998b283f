-- ===== src/Yaml.antt =====
-- The values that `yaml.safe_load` reads for robot-container/robot_agent/config.py and
-- cloud-container/backend/app/config.py, and what these ask of them. A float is a number of
-- thousandths; what `int` and `float` make of a text is an argument.
use Prim.Native.Nat.{ℕ, suc, ◌*◌, ◌/◌}
use cloud_robotics.Prelude.{
  Text, ◌==◌, Bool, true, false, Option, none, some, List, [], ◌∷◌, if◌then◌else◌,
}
use cloud_robotics.Prelude.Int.{ℤ, pos, negsuc, neg, is_nonzero}
use cloud_robotics.Exec.{Result, ok, err, attribute_error, type_error, value_error}

mutual
  pub data Yaml : Type 0 where
    null : Yaml
    bool : Bool → Yaml
    int float : ℤ → Yaml
    str : Text → Yaml
    list : Sequence → Yaml
    dict : Mapping → Yaml

  pub data Sequence : Type 0 where
    nil : Sequence
    cons : Yaml → Sequence → Sequence

  pub data Mapping : Type 0 where
    end : Mapping
    entry : Text → Yaml → Mapping → Mapping

-- A mapping written out.
abbrev pub mapping : List (Text × Yaml) → Mapping
mapping [] = end
mapping ((k, y) ∷ rest) = entry k y (mapping rest)

-- Python's `bool(value)`.
abbrev pub truthy : Yaml → Bool
truthy null = false
truthy (bool b) = b
truthy (int n) = is_nonzero n
truthy (float x) = is_nonzero x
truthy (str []) = false
truthy (str (c ∷ s)) = true
truthy (list nil) = false
truthy (list (cons y ys)) = true
truthy (dict end) = false
truthy (dict (entry k y m)) = true

unfoldable pub lookup : Text → Yaml → Mapping → Yaml
lookup key default end = default
lookup key default (entry k y m) = if k == key then y else lookup key default m

-- The value under a key.
unfoldable pub find : Text → Mapping → Option Yaml
find key end = none
find key (entry k y m) = if k == key then some y else find key m

-- `value.get(key, default)`, which a dict alone has.
abbrev pub get : Text → Yaml → Yaml → Result Yaml
get key default null = err attribute_error
get key default (bool b) = err attribute_error
get key default (int n) = err attribute_error
get key default (float x) = err attribute_error
get key default (str s) = err attribute_error
get key default (list ys) = err attribute_error
get key default (dict m) = ok (lookup key default m)

-- What a text denotes, or ValueError.
abbrev pub or_value_error : Option ℤ → Result ℤ
or_value_error none = err value_error
or_value_error (some n) = ok n

abbrev of_bool : Bool → ℕ
of_bool true = 1
of_bool false = 0

-- `int(value)`, which drops the fraction of a float.
abbrev pub int_of : (Text → Option ℤ) → Yaml → Result ℤ
int_of parse null = err type_error
int_of parse (bool b) = ok (pos (of_bool b))
int_of parse (int n) = ok n
int_of parse (float (pos x)) = ok (pos (x / 1000))
int_of parse (float (negsuc x)) = ok (neg (pos (suc x / 1000)))
int_of parse (str s) = or_value_error (parse s)
int_of parse (list ys) = err type_error
int_of parse (dict m) = err type_error

-- `float(value)`, in thousandths.
abbrev pub float_of : (Text → Option ℤ) → Yaml → Result ℤ
float_of parse null = err type_error
float_of parse (bool b) = ok (pos (of_bool b * 1000))
float_of parse (int (pos n)) = ok (pos (n * 1000))
float_of parse (int (negsuc n)) = ok (neg (pos (suc n * 1000)))
float_of parse (float x) = ok x
float_of parse (str s) = or_value_error (parse s)
float_of parse (list ys) = err type_error
float_of parse (dict m) = err type_error
