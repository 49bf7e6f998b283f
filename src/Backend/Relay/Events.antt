-- ===== src/Backend/Relay/Events.antt =====
-- What one step of the event loop does to a request that waits (cloud-container/backend/app/webrtc/
-- relay.py).
use cloud_robotics.Prelude.{
  ◌≤◌, Text, lit, ◌==◌, ==_iff, ◌≡◌, refl, Bool, false, Option, none, some, List, [], ◌∷◌, arith,
  ◌||◌, if◌then◌else◌,
}
use cloud_robotics.Json.{Json, find, or_null}
use cloud_robotics.Exec.{ok, err, as_dict}
use cloud_robotics.Services.{Services}
use cloud_robotics.Backend.Relay.{
  Future, waiting, resolved, released, become, Relay, future_of, put_future, pop, settle,
  request_key, handle_answer, offer, expire, resume,
}

-- What the event loop runs: another offer, an answer that arrives, a timer, a coroutine that wakes.
pub data Event : Type 0 where
  offered : Text → Text → Event
  answered : Json → Event
  expired : Text → Event
  woken : Text → Text → Event

unfoldable pub step : Services → Event → Relay → Relay
step σ (offered robot_id sdp) s = (offer σ robot_id sdp s).1
step σ (answered payload) s = (handle_answer payload s).1
step σ (expired i) s = expire i s
step σ (woken robot_id i) s = elim (resume robot_id i s) [ none ↦ s | some (r, s') ↦ s' ]

unfoldable pub steps : Services → List Event → Relay → Relay
steps σ [] s = s
steps σ (e ∷ es) s = steps σ es (step σ e s)

-- The key and the text of an answer that names one.
abbrev pub answer_of : Json → Option (Text × Json)
answer_of payload = elim (as_dict payload) [
  | err x ↦ none
  | ok fs ↦ elim (request_key (or_null (find fs (lit "request_id")))) [
    | err x ↦ none
    | ok key ↦ elim key [ none ↦ none | some i ↦ some (i, or_null (find fs (lit "sdp"))) ]
  ]
]

-- What an event decides about the request `i`.
abbrev pub verdict : Text → Event → Option Future
verdict i (answered payload) = elim (answer_of payload) [
  | none ↦ none
  | some (j, sdp) ↦ if j == i then some (resolved sdp) else none
]
verdict i (expired j) = if j == i then some released else none
verdict i (offered _ _) = none
verdict i (woken _ _) = none

-- The text of the first answer that names the request, and whether its timer fires.
abbrev pub first_answer : Text → List Event → Option Json
first_answer i [] = none
first_answer i (answered payload ∷ es) =
    let rest = first_answer i es in
    elim (answer_of payload) [ none ↦ rest | some (j, sdp) ↦ if j == i then some sdp else rest ]
first_answer i (expired _ ∷ es) = first_answer i es
first_answer i (offered _ _ ∷ es) = first_answer i es
first_answer i (woken _ _ ∷ es) = first_answer i es

abbrev pub expires : Text → List Event → Bool
expires i [] = false
expires i (expired j ∷ es) = j == i || expires i es
expires i (answered _ ∷ es) = expires i es
expires i (offered _ _ ∷ es) = expires i es
expires i (woken _ _ ∷ es) = expires i es

abbrev pub decide : Text → List Event → Future
decide i es = elim (first_answer i es) [
  | some sdp ↦ resolved sdp
  | none ↦ if expires i es then released else waiting
]

abbrev pub wakes : Text → Event → Bool
wakes i (woken _ j) = j == i
wakes i _ = false

-- A future after a verdict, and after all of them.
abbrev pub settled : Option Future → Future → Future
settled none g = g
settled (some f) g = become g f

abbrev pub settled_entry : Option Future → Option Future → Option Future
settled_entry v none = none
settled_entry v (some g) = some (settled v g)

abbrev replaced : Future → Option Future → Option Future
replaced f none = none
replaced f (some g) = some f

abbrev pub settle_all : Text → List Event → Future → Future
settle_all i [] g = g
settle_all i (e ∷ es) g = settle_all i es (settled (verdict i e) g)

future_of-put_future :
    (i j : Text) (f : Future) (p : List (Text × Future))
    → future_of j (put_future i f p)
      ≡ (if i == j then replaced f (future_of j p) else future_of j p)
unfolding future_of put_future
future_of-put_future i j f [] = ground arith
future_of-put_future i j f ((k, g) ∷ p) =
    ground (arith, ==_iff k i, ==_iff k j, ==_iff i j, future_of-put_future i j f p)

future_of-settle :
    (i j : Text) (f : Future) (p : List (Text × Future))
    → future_of j (settle i f p)
      ≡ (if i == j then settled_entry (some f) (future_of j p) else future_of j p)
future_of-settle i j f p = go (future_of i p) refl
  where
    go :
        (o : Option Future)
        → future_of i p ≡ o
        → future_of j (settle i f p)
          ≡ (if i == j then settled_entry (some f) (future_of j p) else future_of j p)
    go none absent = ground (arith, ==_iff i j, absent)
    go (some g) found = ground (arith, ==_iff i j, found, future_of-put_future i j (become g f) p)

pub future_of-pop :
    (i j : Text) (p : List (Text × Future))
    → future_of j (pop i p) ≡ (if i == j then none else future_of j p)
unfolding future_of pop
future_of-pop i j [] = ground arith
future_of-pop i j ((k, g) ∷ p) =
    ground (arith, ==_iff k i, ==_iff k j, ==_iff i j, future_of-pop i j p)

-- What an answer does to the table.
abbrev after_answer : Option (Text × Json) → Relay → Relay
after_answer none s = s
after_answer (some (i, sdp)) s = record s { pending = settle i (resolved sdp) s.pending }

handle_answer_lem : (p : Json) (s : Relay) → (handle_answer p s).1 ≡ after_answer (answer_of p) s
unfolding handle_answer
handle_answer_lem p s = ground arith

pub drawn-step : (σ : Services) (e : Event) (s : Relay) → s.drawn ≤ (step σ e s).drawn
unfolding step offer expire resume
drawn-step σ (offered r sdp) s = omega arith
drawn-step σ (answered p) s = rw handle_answer_lem (ground arith)
drawn-step σ (expired i) s = ground arith
drawn-step σ (woken r i) s = ground arith

-- One event and one request that it does not wake: its future takes the verdict.
pub future_of-step :
    (σ : Services) (e : Event) (s : Relay) (i : Text)
    → (σ.uuid4 s.drawn == i) ≡ false
    → wakes i e ≡ false
    → future_of i (step σ e s).pending ≡ settled_entry (verdict i e) (future_of i s.pending)
unfolding step offer expire resume
future_of-step σ (offered r sdp) s i old w = unfold future_of in rw old (ground arith)
future_of-step σ (answered p) s i old w = rw handle_answer_lem (go (answer_of p) refl)
  where
    go :
        (a : Option (Text × Json))
        → answer_of p ≡ a
        → future_of i (after_answer a s).pending
          ≡ settled_entry (verdict i (answered p)) (future_of i s.pending)
    go none h = ground arith
    go (some (j, v)) h = ground (arith, future_of-settle j i (resolved v) s.pending)
future_of-step σ (expired j) s i old w = ground (arith, future_of-settle j i released s.pending)
future_of-step σ (woken r j) s i old w = ground (arith, future_of-pop j i s.pending)

settle_all_resolved :
    (i : Text) (es : List Event) (v : Json) → settle_all i es (resolved v) ≡ resolved v
settle_all_resolved i [] v = refl
settle_all_resolved i (e ∷ es) v = ground (arith, settle_all_resolved i es v)

settle_all_released :
    (i : Text) (es : List Event)
    → settle_all i es released
      ≡ elim (first_answer i es) [ some sdp ↦ resolved sdp | none ↦ released ]
settle_all_released i [] = refl
settle_all_released i (answered p ∷ es) = go (settle_all_released i es) (answer_of p) refl
  where
    go :
        settle_all i es released
          ≡ elim (first_answer i es) [ some sdp ↦ resolved sdp | none ↦ released ]
        → (a : Option (Text × Json)) → answer_of p ≡ a
        → settle_all i (answered p ∷ es) released
          ≡ elim (first_answer i (answered p ∷ es)) [ some sdp ↦ resolved sdp | none ↦ released ]
    go rest none h = ground (arith, rest)
    go rest (some (j, v)) h = ground (arith, rest, settle_all_resolved i es v)
settle_all_released i (expired j ∷ es) = ground (arith, settle_all_released i es)
settle_all_released i (offered r sdp ∷ es) = settle_all_released i es
settle_all_released i (woken r j ∷ es) = settle_all_released i es

-- The verdicts one after the other: the first answer wins, before or after the timer.
pub settle_all-decide : (i : Text) (es : List Event) → settle_all i es waiting ≡ decide i es
settle_all-decide i [] = refl
settle_all-decide i (answered p ∷ es) = go (settle_all-decide i es) (answer_of p) refl
  where
    go :
        settle_all i es waiting ≡ decide i es
        → (a : Option (Text × Json)) → answer_of p ≡ a
        → settle_all i (answered p ∷ es) waiting ≡ decide i (answered p ∷ es)
    go rest none h = ground (arith, rest)
    go rest (some (j, v)) h = ground (arith, rest, settle_all_resolved i es v)
settle_all-decide i (expired j ∷ es) =
    ground (arith, settle_all-decide i es, settle_all_released i es)
settle_all-decide i (offered r sdp ∷ es) = settle_all-decide i es
settle_all-decide i (woken r j ∷ es) = settle_all-decide i es
