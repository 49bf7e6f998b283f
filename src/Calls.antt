-- ===== src/Calls.antt =====
-- Methods that start or stop something by calls of libraries, one after the other: the state is the
-- calls that were made, and whether a call returns is an argument.
use cloud_robotics.Prelude.{Bool, true, false, List, [], ◌∷◌, ◌++◌}
use cloud_robotics.Exec.{Exec, Result, ok, err, runtime_error}

abbrev pub ending : Bool → Result (Unit {0})
ending true = ok tt
ending false = err runtime_error

abbrev pub perform : {C : Type 0} → C → Bool → Exec (List C) (Unit {0})
perform c returns calls = (ending returns, calls ++ c ∷ [])

-- What a `try` raises, or else what its `finally` raises.
abbrev pub after_finally : Result (Unit {0}) → Result (Unit {0}) → Result (Unit {0})
after_finally r (ok _) = r
after_finally r (err e) = err e

abbrev pub try_finally : {S : Type 0} → Exec S (Unit {0}) → Exec S (Unit {0}) → Exec S (Unit {0})
try_finally body final s =
    let (r, s') = body s in let (f, s'') = final s' in (after_finally r f, s'')
