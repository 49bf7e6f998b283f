-- ===== src/Robot/VideoStreamer/MainLoop/Once.antt =====
-- How often the main loop runs a function, and what its caller is told
-- (robot-container/robot_agent/video_streamer.py).
use cloud_robotics.Prelude.{
  ℕ, ◌≤◌, ◌<◌, Option, none, some, List, [], ◌∷◌, ◌++◌, nat_beq, ◌≡◌, refl, true, false, Bool-cases,
  inl, inr, arith, if◌then◌else◌,
}
use cloud_robotics.Exec.{Exec, Result, ok, err, timeout_error}
use cloud_robotics.Robot.VideoStreamer.MainLoop.{
  Loop, get, remove, idle_add, on_idle, Event, called, dispatched, step, steps, outcome,
  run_on_main_loop,
}

module _ {A : Type 0} where
  get-append :
      (k n : ℕ) (a : A) (xs : List (ℕ × A))
      → get k (xs ++ (n, a) ∷ [])
        ≡ elim (get k xs) [ some b ↦ some b | none ↦ if nat_beq n k then some a else none ]
  get-append k n a [] = ground arith
  get-append k n a ((m, b) ∷ xs) = ground (arith, get-append k n a xs)

  get-remove :
      (k n : ℕ) (xs : List (ℕ × A)) → get k (remove n xs) ≡ (if nat_beq n k then none else get k xs)
  get-remove k n [] = ground arith
  get-remove k n ((m, b) ∷ xs) = ground (arith, get-remove k n xs)

module _ {S : Type 0} where
  -- Numbers that were not drawn yet belong to no call.
  pub record IsNumbered (l : Loop S) : Type 0 where
    pub idle_drawn : (k : ℕ) → l.calls ≤ k → get k l.idle ≡ none
    pub finished_drawn : (k : ℕ) → l.calls ≤ k → get k l.finished ≡ none

  -- The call `k` waits for the loop to run `fn`.
  abbrev pub IsWaiting : ℕ → Exec S (Unit {0}) → Loop S → Type 0
  IsWaiting k fn l = (k < l.calls) × (get k l.idle ≡ some fn) × (get k l.finished ≡ none)

  -- The loop has run it, with the result `r`.
  abbrev pub HasRun : ℕ → Result (Unit {0}) → Loop S → Type 0
  HasRun k r l = (k < l.calls) × (get k l.idle ≡ none) × (get k l.finished ≡ some r)

  -- The events before the callback of `k` is run, if it is.
  abbrev pub before_dispatch : ℕ → List (Event S) → Option (List (Event S))
  before_dispatch k [] = none
  before_dispatch k (called fn ∷ es) = elim (before_dispatch k es) [
    | none ↦ none
    | some before ↦ some (called fn ∷ before)
  ]
  before_dispatch k (dispatched n ∷ es) =
      let rest : Option (List (Event S)) = elim (before_dispatch k es) [
        | none ↦ none
        | some before ↦ some (dispatched n ∷ before)
      ] in
      if nat_beq n k then some [] else rest

  step-HasRun :
      (e : Event S) (k : ℕ) (r : Result (Unit {0})) (l : Loop S)
      → HasRun k r l
      → HasRun k r (step e l)
  unfolding step idle_add on_idle
  step-HasRun (called fn) k r l h =
      let (drawn, idle, finished) = h in
      (omega arith, ground (arith, get-append k l.calls fn l.idle), ground arith)
  step-HasRun (dispatched n) k r l h =
      let (drawn, idle, finished) = h in
      (ground arith, ground (arith, get-remove k n l.idle), ground arith)

  steps-HasRun :
      (es : List (Event S)) (k : ℕ) (r : Result (Unit {0})) (l : Loop S)
      → HasRun k r l
      → HasRun k r (steps es l)
  unfolding steps
  steps-HasRun [] k r l h = h
  steps-HasRun (e ∷ es) k r l h = steps-HasRun es k r (step e l) (step-HasRun e k r l h)

  called-IsWaiting :
      (f : Exec S (Unit {0})) (k : ℕ) (fn : Exec S (Unit {0})) (l : Loop S)
      → IsWaiting k fn l
      → IsWaiting k fn (step (called f) l)
  unfolding step idle_add
  called-IsWaiting f k fn l h =
      let (drawn, idle, finished) = h in
      (omega arith, ground (arith, get-append k l.calls f l.idle), ground arith)

  other-IsWaiting :
      (n k : ℕ) (fn : Exec S (Unit {0})) (l : Loop S)
      → nat_beq n k ≡ false
      → IsWaiting k fn l
      → IsWaiting k fn (step (dispatched n) l)
  unfolding step on_idle
  other-IsWaiting n k fn l other h =
      let (drawn, idle, finished) = h in
      (ground arith, ground (arith, get-remove k n l.idle), ground arith)

  own-HasRun :
      (n k : ℕ) (fn : Exec S (Unit {0})) (l : Loop S)
      → nat_beq n k ≡ true
      → IsWaiting k fn l
      → HasRun k (fn l.state).0 (step (dispatched n) l)
  unfolding step on_idle
  own-HasRun n k fn l own h =
      let (drawn, idle, finished) = h in
      (ground arith, ground (arith, get-remove k n l.idle), ground arith)

  -- What has become of a call that waited at `l`.
  abbrev Fate : ℕ → Exec S (Unit {0}) → List (Event S) → Option (List (Event S)) → Loop S → Type 0
  Fate k fn es none l = IsWaiting k fn (steps es l)
  Fate k fn es (some before) l = HasRun k (fn (steps before l).state).0 (steps es l)

  Fate-cons :
      (e : Event S) (k : ℕ) (fn : Exec S (Unit {0})) (es : List (Event S))
      (found : Option (List (Event S))) (l : Loop S)
      → Fate k fn es found (step e l)
      → Fate k fn (e ∷ es) (elim found [ none ↦ none | some before ↦ some (e ∷ before) ]) l
  unfolding steps
  Fate-cons e k fn es none l h = h
  Fate-cons e k fn es (some before) l h = h

  steps-Fate :
      (es : List (Event S)) (k : ℕ) (fn : Exec S (Unit {0})) (l : Loop S)
      → IsWaiting k fn l
      → Fate k fn es (before_dispatch k es) l
  unfolding steps
  steps-Fate [] k fn l h = h
  steps-Fate (called f ∷ es) k fn l h =
      Fate-cons (called f) k fn es (before_dispatch k es) l
        (steps-Fate es k fn (step (called f) l) (called-IsWaiting f k fn l h))
  steps-Fate (dispatched n ∷ es) k fn l h =
      let later = λ (other : nat_beq n k ≡ false).
        Fate-cons (dispatched n) k fn es (before_dispatch k es) l
          (steps-Fate es k fn (step (dispatched n) l) (other-IsWaiting n k fn l other h)) in
      elim (Bool-cases (nat_beq n k)) [
        | inl own ↦ rw own (steps-HasRun es k _ (step (dispatched n) l) (own-HasRun n k fn l own h))
        | inr other ↦ rw other (later other)
      ]

  idle_add-IsWaiting :
      (fn : Exec S (Unit {0})) (l : Loop S) → IsNumbered l → IsWaiting l.calls fn (idle_add fn l)
  unfolding idle_add
  idle_add-IsWaiting fn l h =
      let idle = h.idle_drawn l.calls (omega arith) in
      (
        omega arith,
        ground (arith, get-append l.calls l.calls fn l.idle),
        h.finished_drawn l.calls (omega arith),
      )

  -- What the caller is told.
  abbrev pub told : Exec S (Unit {0}) → Loop S → Option (List (Event S)) → Result (Unit {0})
  told fn l none = err timeout_error
  told fn l (some before) = (fn (steps before (idle_add fn l)).state).0

  told_by :
      (fn : Exec S (Unit {0})) (es : List (Event S)) (l : Loop S) (found : Option (List (Event S)))
      → Fate l.calls fn es found (idle_add fn l)
      → outcome (get l.calls (steps es (idle_add fn l)).finished) ≡ told fn l found
  told_by fn es l none (drawn, idle, finished) = rw finished refl
  told_by fn es l (some before) (drawn, idle, finished) =
      rw finished (same (fn (steps before (idle_add fn l)).state).0)
    where
      same : (r : Result (Unit {0})) → outcome (some r) ≡ r
      same (ok tt) = refl
      same (err e) = refl

  -- What a caller gets of `_run_on_main_loop`: what its function gave or raised, on the state that
  -- the other callbacks had left when the loop came to it, or a timeout if the loop did not.
  pub run_on_main_loop_lem :
      (fn : Exec S (Unit {0})) (meanwhile : List (Event S)) (l : Loop S)
      → IsNumbered l
      → (run_on_main_loop fn meanwhile l).0 ≡ told fn l (before_dispatch l.calls meanwhile)
  unfolding run_on_main_loop
  run_on_main_loop_lem fn meanwhile l h =
      told_by fn meanwhile l (before_dispatch l.calls meanwhile)
        (steps-Fate meanwhile l.calls fn (idle_add fn l) (idle_add-IsWaiting fn l h))

  dispatched_state :
      (n : ℕ) (l : Loop S) (found : Option (Exec S (Unit {0})))
      → get n l.idle ≡ found
      → (step (dispatched n) l).state ≡ elim found [ none ↦ l.state | some fn ↦ (fn l.state).1 ]
  unfolding step on_idle
  dispatched_state n l none h = rw (h, step) refl
  dispatched_state n l (some fn) h = rw (h, step) refl

  left_by_dispatch :
      (fn : Exec S (Unit {0})) (es : List (Event S)) (l : Loop S) (found : Option (List (Event S)))
      → Fate l.calls fn es found (idle_add fn l)
      → let l' = steps es (idle_add fn l) in
        (step (dispatched l.calls) l').state
        ≡ elim found [ none ↦ (fn l'.state).1 | some before ↦ l'.state ]
  left_by_dispatch fn es l none (drawn, idle, finished) =
      dispatched_state l.calls (steps es (idle_add fn l)) (some fn) idle
  left_by_dispatch fn es l (some before) (drawn, idle, finished) =
      dispatched_state l.calls (steps es (idle_add fn l)) none idle

  -- A function is run once, also where its caller has been told of a timeout: if the loop had not
  -- come to it by then, the next time that the loop picks its callback the function is run on the
  -- state of that time; if it had, the function does nothing more.
  pub runs_once :
      (fn : Exec S (Unit {0})) (meanwhile : List (Event S)) (l : Loop S)
      → IsNumbered l
      → let l' = (run_on_main_loop fn meanwhile l).1 in
        (step (dispatched l.calls) l').state ≡ elim (before_dispatch l.calls meanwhile) [
          | none ↦ (fn l'.state).1
          | some before ↦ l'.state
        ]
  unfolding run_on_main_loop
  runs_once fn meanwhile l h =
      left_by_dispatch fn meanwhile l (before_dispatch l.calls meanwhile)
        (steps-Fate meanwhile l.calls fn (idle_add fn l) (idle_add-IsWaiting fn l h))

  step-IsNumbered : (e : Event S) (l : Loop S) → IsNumbered l → IsNumbered (step e l)
  unfolding step idle_add on_idle
  step-IsNumbered (called f) l h = record {
    idle_drawn =
        λ k le. ground (arith, get-append k l.calls f l.idle, h.idle_drawn k (omega arith));
    finished_drawn = λ k le. h.finished_drawn k (omega arith);
  }
  step-IsNumbered (dispatched n) l h = record {
    idle_drawn = λ k le. ground (arith, get-remove k n l.idle, h.idle_drawn k);
    finished_drawn = λ k le. ground (arith, h.idle_drawn k, h.finished_drawn k);
  }

  pub steps-IsNumbered : (es : List (Event S)) (l : Loop S) → IsNumbered l → IsNumbered (steps es l)
  unfolding steps
  steps-IsNumbered [] l h = h
  steps-IsNumbered (e ∷ es) l h = steps-IsNumbered es (step e l) (step-IsNumbered e l h)
