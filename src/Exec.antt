-- ===== src/Exec.antt =====
-- A coroutine or method that may raise and that writes state: cloud-container/backend/app. What
-- was written before a raise stays written, so the state comes back beside the error too.
use cloud_robotics.Prelude.{Text, Bool, true, false, if◌then◌else◌}
use cloud_robotics.Json.{Json, Fields, null, bool, num, str, arr, obj}

-- The exceptions that the program raises or lets through.
pub data Error : Type 0 where
  robot_not_found session_conflict relay_timeout : Text → Error
  attribute_error type_error data_error value_error validation_error integrity_error runtime_error
        timeout_error websocket_disconnect :
      Error

pub data Result {ℓ} (A : Type ℓ) : Type ℓ where
  ok : A → Result A
  err : Error → Result A

abbrev pub is_ok {ℓ} : {A : Type ℓ} → Result A → Bool
is_ok (ok a) = true
is_ok (err e) = false

abbrev pub Exec {ℓ} : Type ℓ → Type ℓ → Type ℓ
Exec S A = S → Result A × S

module _ {ℓ} {S A : Type ℓ} where
  abbrev pub pure : A → Exec S A
  pure a s = (ok a, s)

  abbrev pub raise : Error → Exec S A
  raise e s = (err e, s)

  abbrev pub lift : Result A → Exec S A
  lift r s = (r, s)

  abbrev pub gets : (S → A) → Exec S A
  gets f s = (ok (f s), s)

infixl 5 ◌>>=◌ ◌>>◌
abbrev pub ◌>>=◌ {ℓ} : {S A B : Type ℓ} → Exec S A → (A → Exec S B) → Exec S B
◌>>=◌ m f s = let (r, s') = m s in elim r [ ok a ↦ f a s' | err e ↦ (err e, s') ]

abbrev pub ◌>>◌ {ℓ} : {S A B : Type ℓ} → Exec S A → Exec S B → Exec S B
m >> n = m >>= λ _. n

abbrev pub modify : {S : Type 0} → (S → S) → Exec S (Unit {0})
modify f s = (ok tt, f s)

abbrev pub raise_if : {S : Type 0} → Bool → Error → Exec S (Unit {0})
raise_if c e s = (if c then err e else ok tt, s)

-- A payload as the dict that `.get` is called on; any other value has no `get`.
abbrev pub as_dict : Json → Result Fields
as_dict null = err attribute_error
as_dict (bool _) = err attribute_error
as_dict (num _) = err attribute_error
as_dict (str _) = err attribute_error
as_dict (arr _) = err attribute_error
as_dict (obj fs) = ok fs
