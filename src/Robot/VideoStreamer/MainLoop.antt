-- ===== src/Robot/VideoStreamer/MainLoop.antt =====
-- robot-container/robot_agent/video_streamer.py: `_run_on_main_loop`, by which the other threads have
-- their functions run on the one thread of the GLib main loop. A function is an action on the state
-- `S` that only that thread touches. Which callback GLib runs next is an argument.
pub mod Once
use cloud_robotics.Prelude.{ℕ, suc, Option, none, some, List, [], ◌∷◌, ◌++◌, nat_beq, if◌then◌else◌}
use cloud_robotics.Exec.{Exec, Result, ok, err, timeout_error}

-- A number for each call, as the `done` and `error` of a call are its own objects: the callbacks that
-- `idle_add` has taken and that have not run, and for each `done` that is set whether `error` is
-- empty.
pub record Loop (S : Type 0) : Type 0 where
  pub state : S
  pub idle : List (ℕ × Exec S (Unit {0}))
  pub finished : List (ℕ × Result (Unit {0}))
  pub calls : ℕ

module _ {A : Type 0} where
  abbrev pub get : ℕ → List (ℕ × A) → Option A
  get k [] = none
  get k ((n, a) ∷ rest) = let found = get k rest in if nat_beq n k then some a else found

  -- A callback returns False: it is not called again.
  abbrev pub remove : ℕ → List (ℕ × A) → List (ℕ × A)
  remove k [] = []
  remove k ((n, a) ∷ rest) = let kept = remove k rest in if nat_beq n k then kept else (n, a) ∷ kept

-- What happens while a caller waits: another thread's call, or a callback that the loop runs.
pub data Event (S : Type 0) : Type 0 where
  called : Exec S (Unit {0}) → Event S
  dispatched : ℕ → Event S

-- `done.wait`, and what is raised on the caller's thread.
abbrev pub outcome : Option (Result (Unit {0})) → Result (Unit {0})
outcome none = err timeout_error
outcome (some (ok _)) = ok tt
outcome (some (err e)) = err e

module _ {S : Type 0} where
  -- `GLib.idle_add(on_idle)`
  unfoldable pub idle_add : Exec S (Unit {0}) → Loop S → Loop S
  idle_add fn l = record l { idle = l.idle ++ (l.calls, fn) ∷ []; calls = suc l.calls }

  -- `on_idle`, on the main loop.
  unfoldable pub on_idle : ℕ → Exec S (Unit {0}) → Loop S → Loop S
  on_idle k fn l =
      let (ended, state) = fn l.state in
      record l { state = state; idle = remove k l.idle; finished = (k, ended) ∷ l.finished }

  unfoldable pub step : Event S → Loop S → Loop S
  unfolding idle_add on_idle
  step (called fn) l = idle_add fn l
  step (dispatched k) l = elim (get k l.idle) [ none ↦ l | some fn ↦ on_idle k fn l ]

  unfoldable pub steps : List (Event S) → Loop S → Loop S
  steps [] l = l
  steps (e ∷ es) l = steps es (step e l)

  -- `_run_on_main_loop`, where `meanwhile` happens before its `done` is set or its time is up.
  unfoldable pub run_on_main_loop :
      Exec S (Unit {0}) → List (Event S) → Loop S → Result (Unit {0}) × Loop S
  unfolding idle_add steps
  run_on_main_loop fn meanwhile l =
      let l' = steps meanwhile (idle_add fn l) in (outcome (get l.calls l'.finished), l')
