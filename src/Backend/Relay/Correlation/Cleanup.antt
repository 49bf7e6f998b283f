-- ===== src/Backend/Relay/Correlation/Cleanup.antt =====
-- What an offer that has ended leaves in the relay
-- (cloud-container/backend/app/webrtc/relay.py).
use cloud_robotics.Prelude.{
  ℕ, ◌<◌, Text, ◌==◌, ==_iff, ==_refl, ◌≡◌, ◌∙◌, true, false, none, some, List, [], ◌∷◌, arith,
  Bool-cases, inl, inr,
}
use cloud_robotics.Json.{Json}
use cloud_robotics.Exec.{Result}
use cloud_robotics.Services.{Services}
use cloud_robotics.Backend.Relay.{Relay, future_of, resume}
use cloud_robotics.Backend.Relay.Events.{
  Event, offered, answered, expired, woken, step, steps, wakes, future_of-step, drawn-step,
  future_of-pop,
}
use cloud_robotics.Backend.Relay.Correlation.{not_redrawn}

-- A request that is not in the table is not brought back by an event, unless an offer draws its id.
absent-step :
    (σ : Services) (e : Event) (s : Relay) (i : Text)
    → (σ.uuid4 s.drawn == i) ≡ false
    → future_of i s.pending ≡ none
    → future_of i (step σ e s).pending ≡ none
absent-step σ e s i old h = elim (Bool-cases (wakes i e)) [
  | inr quiet ↦ future_of-step σ e s i old quiet ∙ ground arith
  | inl awake ↦ woken_absent e awake
]
  where
    woken_absent : (e : Event) → wakes i e ≡ true → future_of i (step σ e s).pending ≡ none
    woken_absent (woken r j) same = unfold step resume in ground (arith, ==_iff j i)
    woken_absent (offered r sdp) same = cc
    woken_absent (answered p) same = cc
    woken_absent (expired j) same = cc

module _ (σ : Services) (n : ℕ) where
  steps_absent :
      (es : List Event) (s : Relay)
      → n < s.drawn
      → future_of (σ.uuid4 n) s.pending ≡ none
      → future_of (σ.uuid4 n) (steps σ es s).pending ≡ none
  unfolding steps
  steps_absent [] s old h = h
  steps_absent (e ∷ es) s old h =
      steps_absent es (step σ e s) (omega (arith, drawn-step σ e s))
        (absent-step σ e s (σ.uuid4 n) (not_redrawn σ n s old) h)

  resume_pops :
      (robot_id : Text) (s s' : Relay) (r : Result Json)
      → resume robot_id (σ.uuid4 n) s ≡ some (r, s')
      → (future_of (σ.uuid4 n) s'.pending ≡ none) × (s'.drawn ≡ s.drawn)
  unfolding resume
  resume_pops robot_id s s' r h = (
    ground (arith, future_of-pop (σ.uuid4 n) (σ.uuid4 n) s.pending, ==_refl (σ.uuid4 n)),
    ground arith,
  )

  -- A coroutine that has run on, with an answer or with the timeout, has left no future behind, and
  -- no later event brings one back: a late answer finds nothing to resolve.
  pub resume_cleans_up :
      (robot_id : Text) (s s' : Relay) (r : Result Json) (es : List Event)
      → n < s.drawn
      → resume robot_id (σ.uuid4 n) s ≡ some (r, s')
      → future_of (σ.uuid4 n) (steps σ es s').pending ≡ none
  resume_cleans_up robot_id s s' r es old h =
      let (gone, same) = resume_pops robot_id s s' r h in
      steps_absent es s' (omega (arith, same)) gone
