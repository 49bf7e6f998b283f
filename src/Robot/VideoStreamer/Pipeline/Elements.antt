-- ===== src/Robot/VideoStreamer/Pipeline/Elements.antt =====
-- Which elements stand behind the encode chain of robot-container/robot_agent/video_streamer.py after
-- any offers and packets.
use cloud_robotics.Prelude.{
  ℕ, suc, ◌+◌, Bool, true, false, Option, Option-cases, inl, inr, none, some, List, [], ◌∷◌, ◌++◌,
  length, nat_beq, ◌≡◌, sym, ap, subst, ◌∙◌, arith, if◌then◌else◌,
}
use cloud_robotics.Robot.VideoStreamer.Pipeline.{
  Element, presink, webrtcbin, Pipeline, Event, offer, packet, prepare_fresh_webrtcbin,
  on_rtp_buffer, run, remove_old, set_pt,
}

-- The element that the streamer knows of: the webrtcbin of the last offer, or the throwaway sink.
abbrev pub current : Option ℕ → Bool → List Element
current (some n) sink = webrtcbin n ∷ []
current none true = presink ∷ []
current none false = []

-- The offers whose webrtcbin was not linked.
abbrev pub failures : List Event → ℕ
failures [] = 0
failures (offer pt true ∷ events) = failures events
failures (offer pt false ∷ events) = suc (failures events)
failures (packet mapped ∷ events) = failures events

-- Behind the chain stand the current element and `n` others, which the streamer does not know of.
pub record HasStale (p : Pipeline) (n : ℕ) : Type 0 where
  pub stale : List Element
  pub counted : length stale ≡ n
  pub shape : p.elements ≡ current p.webrtcbin_made p.has_presink ++ stale
  pub one_of : (k : ℕ) → p.webrtcbin_made ≡ some k → p.has_presink ≡ false

nat_beq_refl : (n : ℕ) → nat_beq n n ≡ true
nat_beq_refl n = ground arith

-- What is taken out is the current element.
removed :
    (p : Pipeline) (n : ℕ) (h : HasStale p n)
    → ((remove_old p).elements ≡ h.stale)
      × ((remove_old p).has_presink ≡ false)
      × ((remove_old p).webrtcbin_made ≡ none)
removed p n h = elim (Option-cases p.webrtcbin_made) [
  | inl none_made ↦ let shape = h.shape in (ground arith, ground arith, ground arith)
  | inr (k, made) ↦
      let shape = h.shape in
      let alone = h.one_of k made in
      let found = nat_beq_refl k in (ground arith, ground arith, ground arith)
]

-- The same behind the change of the payload type.
abbrev unlinked : ℕ → Pipeline → Pipeline
unlinked pt p = record (set_pt pt p) { linked = none }

unlinked-HasStale : (pt : ℕ) (p : Pipeline) (n : ℕ) → HasStale p n → HasStale (unlinked pt p) n
unlinked-HasStale pt p n h = record {
  stale = h.stale;
  counted = h.counted;
  shape = h.shape;
  one_of = h.one_of;
}

nothing_current :
    (p : Pipeline) (xs : List Element)
    → p.webrtcbin_made ≡ none
    → p.has_presink ≡ false
    → current p.webrtcbin_made p.has_presink ++ xs ≡ xs
nothing_current p xs e f = ground arith

offer-HasStale :
    (pt : ℕ) (links : Bool) (p : Pipeline) (n : ℕ)
    → HasStale p n
    → HasStale (prepare_fresh_webrtcbin pt links p).1 (if links then n else suc n)
unfolding prepare_fresh_webrtcbin
offer-HasStale pt true p n h =
    let h' = unlinked-HasStale pt p n h in
    let (left, no_sink, no_bin) = removed (unlinked pt p) n h' in
    record {
      stale = h'.stale;
      counted = h'.counted;
      shape = ap (λ xs. webrtcbin p.made ∷ xs) left;
      one_of = λ k e. no_sink;
    }
offer-HasStale pt false p n h =
    let h' = unlinked-HasStale pt p n h in
    let (left, no_sink, no_bin) = removed (unlinked pt p) n h' in
    record {
      stale = webrtcbin p.made ∷ h'.stale;
      counted = omega (arith, h'.counted);
      shape =
          ap (λ xs. webrtcbin p.made ∷ xs) left
          ∙ sym (
              nothing_current (remove_old (unlinked pt p)) (webrtcbin p.made ∷ h'.stale) no_bin
                no_sink);
      one_of = λ k e. no_sink;
    }

packet_one_of :
    (mapped : Option (List ℕ)) (p : Pipeline) (n : ℕ)
    → HasStale p n
    → (k : ℕ) → (on_rtp_buffer mapped p).webrtcbin_made ≡ some k
    → (on_rtp_buffer mapped p).has_presink ≡ false
unfolding on_rtp_buffer
packet_one_of mapped p n h k e = ground (arith, h.one_of k)

packet-HasStale :
    (mapped : Option (List ℕ)) (p : Pipeline) (n : ℕ)
    → HasStale p n
    → HasStale (on_rtp_buffer mapped p) n
unfolding on_rtp_buffer
packet-HasStale mapped p n h =
    let shape = h.shape in
    record {
      stale = h.stale;
      counted = h.counted;
      shape = ground arith;
      one_of = λ k e. packet_one_of mapped p n h k e;
    }

-- Where the current element and `n` others stand behind the chain, then after any offers and packets
-- there stand the current element, `n` others, and one more for each offer whose webrtcbin was not
-- linked: that one is never taken out again.
pub run-HasStale :
    (events : List Event) (p : Pipeline) (n : ℕ)
    → HasStale p n
    → HasStale (run events p) (n + failures events)
unfolding run
run-HasStale [] p n h = subst (HasStale p) (omega arith) h
run-HasStale (offer pt true ∷ events) p n h =
    run-HasStale events (prepare_fresh_webrtcbin pt true p).1 n (offer-HasStale pt true p n h)
run-HasStale (offer pt false ∷ events) p n h =
    subst (HasStale (run events (prepare_fresh_webrtcbin pt false p).1)) (omega arith) (
      run-HasStale events (prepare_fresh_webrtcbin pt false p).1 (suc n)
        (offer-HasStale pt false p n h))
run-HasStale (packet mapped ∷ events) p n h =
    run-HasStale events (on_rtp_buffer mapped p) n (packet-HasStale mapped p n h)
