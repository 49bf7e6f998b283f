-- ===== src/Backend/Relay/Correlation.antt =====
-- Which answer an offer gets (cloud-container/backend/app/webrtc/relay.py), whatever else the event
-- loop runs while it waits.
pub mod Cleanup
use mathlib.Core.Option
use cloud_robotics.Prelude.{
  ℕ, ◌<◌, ◌≤◌, Text, lit, ◌==◌, ==_iff, ==_refl, ==_of_ne, ◌≡◌, refl, ◌≢◌, ◌∙◌, Bool, true, false,
  Option, none, some, List, [], ◌∷◌, All, ap, arith, Bool-cases, inl, inr, if◌then◌else◌,
}
use cloud_robotics.Json.{Json, find, or_null}
use cloud_robotics.Exec.{Result, ok, err, as_dict}
use cloud_robotics.Services.{Services}
use cloud_robotics.Backend.Relay.{
  Future, waiting, resolved, released, Relay, future_of, put_future, pop, settle, request_key,
  handle_answer, offer, expire, outcome, resume,
}
use cloud_robotics.Backend.Relay.Events.{
  Event, answered, step, steps, answer_of, verdict, decide, wakes, settled, settle_all,
  settle_all-decide, drawn-step, future_of-step,
}

module _ (σ : Services) (n : ℕ) where
  not_redrawn : (s : Relay) → n < s.drawn → (σ.uuid4 s.drawn == σ.uuid4 n) ≡ false
  not_redrawn s old =
      ==_of_ne (σ.uuid4 s.drawn) (σ.uuid4 n)
        (λ e. absurd (omega (arith, σ.uuid4_injective s.drawn n e)))

  -- A future takes the verdicts of all events.
  steps-settle_all :
      (es : List Event) (s : Relay) (g : Future)
      → n < s.drawn
      → All (λ e. wakes (σ.uuid4 n) e ≡ false) es
      → future_of (σ.uuid4 n) s.pending ≡ some g
      → future_of (σ.uuid4 n) (steps σ es s).pending ≡ some (settle_all (σ.uuid4 n) es g)
  unfolding steps
  steps-settle_all [] s g old quiet h = h
  steps-settle_all (e ∷ es) s g old quiet h =
      steps-settle_all es (step σ e s) (settled (verdict (σ.uuid4 n) e) g)
        (omega (arith, drawn-step σ e s)) quiet.1
        (future_of-step σ e s (σ.uuid4 n) (not_redrawn s old) quiet.0 ∙ rw h refl)

resume_of :
    (robot_id i : Text) (s : Relay) (f : Future)
    → future_of i s.pending ≡ some f
    → Option.map (λ (r : Result Json × Relay). r.0) (resume robot_id i s) ≡ outcome robot_id f
unfolding resume
resume_of robot_id i s waiting h = ground arith
resume_of robot_id i s (resolved v) h = ground arith
resume_of robot_id i s released h = ground arith

-- What the coroutine of an offer gets when it next runs, after any events that do not wake it: the
-- text of the first answer that named its request, whether the timer fired before it or not; the
-- timeout if only the timer fired; and it is not woken if neither came. Other requests' answers,
-- wrong ids and malformed payloads are nothing.
pub relay_offer_lem :
    (σ : Services) (robot_id sdp : Text) (s : Relay) (es : List Event)
    → All (λ e. wakes (σ.uuid4 s.drawn) e ≡ false) es
    → let s₁ = (offer σ robot_id sdp s).1 in
      Option.map
        (λ (r : Result Json × Relay). r.0)
        (resume robot_id (σ.uuid4 s.drawn) (steps σ es s₁))
      ≡ outcome robot_id (decide (σ.uuid4 s.drawn) es)
relay_offer_lem σ robot_id sdp s es quiet =
    resume_of robot_id (σ.uuid4 s.drawn) (steps σ es s₁) (decide (σ.uuid4 s.drawn) es) decided
  where
    s₁ : Relay
    s₁ = (offer σ robot_id sdp s).1

    decided :
        future_of (σ.uuid4 s.drawn) (steps σ es s₁).pending ≡ some (decide (σ.uuid4 s.drawn) es)
    decided =
        steps-settle_all σ s.drawn es s₁ waiting (unfold offer in omega arith) quiet
          (unfold offer future_of in rw (==_refl (σ.uuid4 s.drawn)) refl)
        ∙ ap some (settle_all-decide (σ.uuid4 s.drawn) es)

pub resume-handle_answer :
    (σ : Services) (robot_id sdp : Text) (s : Relay) (payload v : Json)
    → answer_of payload ≡ some (σ.uuid4 s.drawn, v)
    → let s₁ = (offer σ robot_id sdp s).1 in
      Option.map
        (λ (r : Result Json × Relay). r.0)
        (resume robot_id (σ.uuid4 s.drawn) (handle_answer payload s₁).1)
      ≡ some (ok v)
unfolding steps step
resume-handle_answer σ robot_id sdp s payload v h =
    relay_offer_lem σ robot_id sdp s (answered payload ∷ []) (refl, tt)
    ∙ ground (arith, h, ==_refl (σ.uuid4 s.drawn))
