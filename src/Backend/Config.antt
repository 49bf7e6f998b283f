-- ===== src/Backend/Config.antt =====
-- cloud-container/backend/app/config.py: the settings, of the environment and of the YAML file. The
-- environment is a function from a variable to its text, the YAML file's value `none` where there is
-- no file. pydantic is outside: what the class makes of its arguments is an argument, and the
-- fields' names come in any order, as a set's members do.
pub mod Precedence
pub mod Fields
use cloud_robotics.Prelude.{
  ℕ, ◌-◌, Text, ◌==◌, Bool, true, false, Option, none, some, List, [], ◌∷◌, map, leb, ◌&&◌, ◌||◌,
  if◌then◌else◌,
}
use cloud_robotics.Exec.{Result, ok, err, type_error}
use cloud_robotics.Results.{◌>>=◌}
use cloud_robotics.Yaml.{Yaml, Mapping, null, bool, int, float, str, list, dict, end, entry, truthy}

-- `str.upper` of a field's name, which is ASCII.
abbrev pub upper_char : ℕ → ℕ
upper_char c = if leb b'a' c && leb c b'z' then c - 32 else c

abbrev pub upper : Text → Text
upper name = map upper_char name

-- `yaml.safe_load(f) or {}`, and `{}` without a file.
abbrev pub load_yaml : Option Yaml → Yaml
load_yaml none = dict end
load_yaml (some y) = if truthy y then y else dict end

abbrev pub Environ : Type 0
Environ = Text → Option Text

-- `if env_value is not None: overrides[field] = env_value`
abbrev pub add_override : Text → Option Text → Mapping → Mapping
add_override name none overrides = overrides
add_override name (some value) overrides = entry name (str value) overrides

unfoldable pub load_env_overrides : Environ → List Text → Mapping
load_env_overrides environ [] = end
load_env_overrides environ (name ∷ names) =
    add_override name (environ (upper name)) (load_env_overrides environ names)

-- `m[key] = value`
unfoldable pub set_entry : Text → Yaml → Mapping → Mapping
set_entry key value end = entry key value end
set_entry key value (entry k y m) =
    if k == key then entry k value m else entry k y (set_entry key value m)

-- `{**a, **b}`
unfoldable pub merge : Mapping → Mapping → Mapping
merge a end = a
merge a (entry k y b) = merge (set_entry k y a) b

-- What `**` takes.
abbrev pub as_mapping : Yaml → Result Mapping
as_mapping null = err type_error
as_mapping (bool b) = err type_error
as_mapping (int n) = err type_error
as_mapping (float x) = err type_error
as_mapping (str s) = err type_error
as_mapping (list ys) = err type_error
as_mapping (dict m) = ok m

unfoldable pub get_settings :
    {S : Type 0} → (Mapping → Result S) → Environ → List Text → Option Yaml → Result S
get_settings settings environ field_names file = do
  yaml_values ← as_mapping (load_yaml file)
  settings (merge yaml_values (load_env_overrides environ field_names))
