-- ===== src/Backend/Config/Precedence.antt =====
-- Where a setting of cloud-container/backend/app/config.py comes from.
use cloud_robotics.Prelude.{
  Text, ◌==◌, ==_iff, Bool, true, false, Option, none, some, Option-cases, inl, inr, List, [], ◌∷◌,
  ◌≡◌, refl, ◌∙◌, arith, ◌||◌, if◌then◌else◌, ap,
}
use cloud_robotics.Exec.{Result}
use cloud_robotics.Yaml.{Yaml, Mapping, str, dict, end, entry, find}
use cloud_robotics.Backend.Config.{
  Environ, upper, get_settings, load_env_overrides, set_entry, merge,
}

abbrev pub member : Text → List Text → Bool
member key [] = false
member key (name ∷ names) = name == key || member key names

-- What the environment's text is, or else what another source gives.
abbrev pub or_else : Option Text → Option Yaml → Option Yaml
or_else none y = y
or_else (some v) y = some (str v)

abbrev pub source : Environ → List Text → Mapping → Text → Option Yaml
source environ names m key =
    if member key names then or_else (environ (upper key)) (find key m) else find key m

find-set_entry :
    (key j : Text) (y : Yaml) (m : Mapping)
    → find j (set_entry key y m) ≡ (if key == j then some y else find j m)
unfolding find set_entry
find-set_entry key j y end = refl
find-set_entry key j y (entry k z m) =
    ground (arith, find-set_entry key j y m, ==_iff k key, ==_iff key j, ==_iff k j)

pub find-merge :
    (environ : Environ) (names : List Text) (key : Text) (m : Mapping)
    → find key (merge m (load_env_overrides environ names)) ≡ source environ names m key
unfolding load_env_overrides merge
find-merge environ [] key m = refl
find-merge environ (name ∷ names) key m =
    let same = λ (e : (name == key) ≡ true). ap (λ n. environ (upper n)) ((==_iff name key).0 e) in
    elim (Option-cases (environ (upper name))) [
      | inl unset ↦ rw (unset) (find-merge environ names key m ∙ ground (arith, same, unset))
      | inr (v, given) ↦ rw (given) (
          find-merge environ names key (set_entry name (str v) m)
          ∙ rw (find-set_entry name key (str v) m) (ground (arith, same, given)))
    ]

-- What the class is given for a name is the environment's text where the name is one of its fields'
-- and the variable is set, and else the value of the YAML file, if the file has one, in whatever
-- order the names of the fields are walked.
pub precedence :
    {S : Type 0} (settings : Option Yaml → Result S) (environ : Environ) (names : List Text)
    → (key : Text) (m : Mapping)
    → get_settings (λ a. settings (find key a)) environ names (some (dict m))
      ≡ settings (source environ names m key)
unfolding get_settings
precedence settings environ names key end = ap settings (find-merge environ names key end)
precedence settings environ names key (entry k y m) =
    ap settings (find-merge environ names key (entry k y m))
