-- ===== src/Robot/VideoStreamer/Negotiating.antt =====
-- What a negotiation does to the frames, however it ends
-- (robot-container/robot_agent/video_streamer.py).
use cloud_robotics.Prelude.{
  ℕ, ◌+◌, ◌≤◌, length, subst, Text, ◌≡◌, refl, ◌∙◌, Bool, true, false, Option, List, [], ◌∷◌, ◌++◌,
  arith, if◌then◌else◌,
}
use cloud_robotics.Exec.{Exec, Result, ok, err, pure, lift, ◌>>=◌}
use cloud_robotics.Robot.Models.{CameraFrame}
use cloud_robotics.Robot.VideoStreamer.{
  Streamer, drop_frame, count_frame, run_queued, push_buffer, push_frame, arrive, Wait, await,
  await_all, set_answer, answer_with, or_rewritten, Gst, negotiate, need_h264, handle_offer,
}

-- `s'` is `s` but for the frames that were dropped, and the count of pushed frames, which is higher by
-- at most `k`.
pub record DropsOnly (s s' : Streamer) (k : ℕ) : Type 0 where
  pub counted : ℕ
  pub bounded : counted ≤ k
  pub buffers_same : s'.buffers ≡ s.buffers
  pub pushed_more : s'.frames_pushed ≡ s.frames_pushed + counted
  pub negotiating_same : s'.negotiating ≡ s.negotiating
  pub pipeline_same : s'.has_pipeline ≡ s.has_pipeline

DropsOnly-trans :
    (s t u : Streamer) (k l : ℕ) → DropsOnly s t k → DropsOnly t u l → DropsOnly s u (k + l)
DropsOnly-trans s t u k l a b = record {
  counted = a.counted + b.counted;
  bounded = omega (arith, a.bounded, b.bounded);
  buffers_same = b.buffers_same ∙ a.buffers_same;
  pushed_more = omega (arith, a.pushed_more, b.pushed_more);
  negotiating_same = b.negotiating_same ∙ a.negotiating_same;
  pipeline_same = b.pipeline_same ∙ a.pipeline_same;
}

DropsOnly-self : (s : Streamer) (k : ℕ) → DropsOnly s s k
DropsOnly-self s k = record {
  counted = 0;
  bounded = omega arith;
  buffers_same = refl;
  pushed_more = omega arith;
  negotiating_same = refl;
  pipeline_same = refl;
}

DropsOnly-dropped : (s : Streamer) → DropsOnly s (drop_frame s) 0
DropsOnly-dropped s = record {
  counted = 0;
  bounded = omega arith;
  buffers_same = refl;
  pushed_more = omega arith;
  negotiating_same = refl;
  pipeline_same = refl;
}

DropsOnly-counted : (s : Streamer) → DropsOnly s (count_frame (drop_frame s)) 1
DropsOnly-counted s = record {
  counted = 1;
  bounded = omega arith;
  buffers_same = refl;
  pushed_more = omega arith;
  negotiating_same = refl;
  pipeline_same = refl;
}

-- An action that drops frames only, while an offer is negotiated over a pipeline, and that counts at
-- most `k` of them as pushed.
abbrev IsSteady : {A : Type 0} → ℕ → Exec Streamer A → Type 0
IsSteady k m = (s : Streamer) → s.negotiating ≡ true → s.has_pipeline ≡ true → DropsOnly s (m s).1 k

bind-IsSteady :
    {A B : Type 0} (k l : ℕ) (m : Exec Streamer A) (f : A → Exec Streamer B)
    → IsSteady k m
    → ((a : A) → IsSteady l (f a))
    → IsSteady (k + l) (m >>= f)
bind-IsSteady {A = A} {B = B} k l m f hm hf s n p = go (m s) (hm s n p)
  where
    go :
        (r : Result A × Streamer)
        → DropsOnly s r.1 k
        → DropsOnly s
            (elim r.0 as (λ _. Result B × Streamer) [ ok a ↦ f a r.1 | err x ↦ (err x, r.1) ]).1
            (k + l)
    go (ok a, t) first =
        DropsOnly-trans s t (f a t).1 k l first
          (hf a t (first.negotiating_same ∙ n) (first.pipeline_same ∙ p))
    go (err x, t) first = DropsOnly-trans s t t k l first (DropsOnly-self t l)

-- A frame that meets a negotiation is dropped.
push_frame_negotiating :
    (builds : Bool) (meanwhile : Streamer → Streamer) (frame : CameraFrame) (s : Streamer)
    → s.negotiating ≡ true
    → s.has_pipeline ≡ true
    → push_frame builds meanwhile frame s ≡ (ok tt, drop_frame s)
unfolding push_frame
push_frame_negotiating builds meanwhile frame s n p = rw p (rw n refl)

arrive-DropsOnly :
    (frames : List CameraFrame) (s : Streamer)
    → s.negotiating ≡ true
    → s.has_pipeline ≡ true
    → DropsOnly s (arrive frames s) 0
arrive-DropsOnly [] s n p = DropsOnly-self s 0
arrive-DropsOnly (frame ∷ frames) s n p = rw (push_frame_negotiating true (λ t. t) frame s n p) (
    DropsOnly-trans s (drop_frame s) (arrive frames (drop_frame s)) 0 0 (DropsOnly-dropped s)
      (arrive-DropsOnly frames (drop_frame s) n p))

push_buffer_negotiating :
    (frame : CameraFrame) (s : Streamer) → s.negotiating ≡ true → push_buffer frame s ≡ drop_frame s
unfolding push_buffer
push_buffer_negotiating frame s n = ground (arith, n)

-- The check on the main loop drops the frames that passed the first one.
run_queued-DropsOnly :
    (frames : List CameraFrame) (s : Streamer)
    → s.negotiating ≡ true
    → DropsOnly s (run_queued frames s) (length frames)
run_queued-DropsOnly [] s n = DropsOnly-self s 0
run_queued-DropsOnly (frame ∷ frames) s n =
    let t = count_frame (drop_frame s) in
    rw (push_buffer_negotiating frame s n) (
      subst (λ k. DropsOnly s (run_queued frames t) k) (omega arith)
        (DropsOnly-trans s t (run_queued frames t) 1 (length frames) (DropsOnly-counted s)
          (run_queued-DropsOnly frames t n)))

await-IsSteady : (w : Wait) → IsSteady (length w.queued) (await w)
await-IsSteady w s n p =
    let t = run_queued w.queued s in
    let first = run_queued-DropsOnly w.queued s n in
    subst (λ k. DropsOnly s (arrive w.frames t) k) (omega arith)
      (DropsOnly-trans s t (arrive w.frames t) (length w.queued) 0 first
        (arrive-DropsOnly w.frames t (first.negotiating_same ∙ n) (first.pipeline_same ∙ p)))

lift-IsSteady : {A : Type 0} (r : Result A) → IsSteady 0 (lift {S = Streamer} r)
lift-IsSteady r s n p = DropsOnly-self s 0

-- The frames that are queued in the waits.
abbrev pub queued_in : List Wait → ℕ
queued_in [] = 0
queued_in (w ∷ ws) = length w.queued + queued_in ws

await_all-IsSteady : (ws : List Wait) → IsSteady (queued_in ws) (await_all ws)
await_all-IsSteady [] = λ s n p. DropsOnly-self s 0
await_all-IsSteady (w ∷ ws) =
    bind-IsSteady (length w.queued) (queued_in ws) (await w) (λ _. await_all ws) (await-IsSteady w)
      (λ _. await_all-IsSteady ws)

abbrev pub first_waits : Gst → List Wait
first_waits g = g.prepare ∷ g.set_remote ∷ g.create_answer ∷ g.extract_answer ∷ []

abbrev pub last_waits : Gst → List Wait
last_waits g = g.set_local ∷ g.ice_gathering ∷ g.extract_local ∷ []

set_answer-IsSteady :
    (g : Gst) (text : Text) → IsSteady (queued_in (last_waits g) + 0) (set_answer g text)
set_answer-IsSteady g text =
    bind-IsSteady (queued_in (last_waits g)) 0 (await_all (last_waits g))
      (λ _. pure (or_rewritten text g.local_description)) (await_all-IsSteady (last_waits g))
      (λ _ s n p. DropsOnly-self s 0)

module _ (choose : Text → Option ℕ) (rewrite : Text → ℕ → Option Text → Result Text) where
  answer_with-IsSteady :
      (g : Gst) (pt : ℕ)
      → IsSteady
          (queued_in (first_waits g) + (0 + (queued_in (last_waits g) + 0)))
          (answer_with choose rewrite g pt)
  answer_with-IsSteady g pt =
      let text = rewrite g.answer_sdp pt g.profile_level_id in
      let last = queued_in (last_waits g) + 0 in
      bind-IsSteady (queued_in (first_waits g)) (0 + last) (await_all (first_waits g))
        (λ _. lift text >>= set_answer g) (await_all-IsSteady (first_waits g))
        (λ _.
          bind-IsSteady 0 last (lift text) (set_answer g) (lift-IsSteady text)
            (set_answer-IsSteady g))

  negotiate-IsSteady :
      (g : Gst) (sdp : Text)
      → IsSteady
          (0 + (queued_in (first_waits g) + (0 + (queued_in (last_waits g) + 0))))
          (negotiate choose rewrite g sdp)
  unfolding negotiate
  negotiate-IsSteady g sdp =
      bind-IsSteady 0 (queued_in (first_waits g) + (0 + (queued_in (last_waits g) + 0)))
        (lift (need_h264 (choose sdp))) (answer_with choose rewrite g)
        (lift-IsSteady (need_h264 (choose sdp))) (answer_with-IsSteady g)

  -- However a negotiation ends, with an answer or with any error of the offer or of GStreamer, and
  -- whatever frames arrive in it or were scheduled before it, if there was a pipeline and no other
  -- offer is negotiated at the time: no frame reaches the pipeline in it, the streamer is not
  -- negotiating afterwards and has no count of dropped frames left, and the count of pushed frames
  -- is higher by at most one for each frame that was scheduled before, though it was dropped.
  pub handle_offer_lem :
      (g : Gst) (sdp : Text) (s : Streamer)
      → s.has_pipeline ≡ true
      → (n : ℕ) × ((handle_offer choose rewrite g sdp s).1 ≡ record s {
        negotiating = false;
        frames_dropped = 0;
        frames_pushed = s.frames_pushed + n;
      })
        × (n ≤ queued_in (first_waits g) + queued_in (last_waits g))
  unfolding handle_offer
  handle_offer_lem g sdp s p =
      let steady = negotiate-IsSteady g sdp (record s { negotiating = true }) refl p in
      (
        steady.counted,
        ground (arith, steady.buffers_same, steady.pushed_more, steady.pipeline_same),
        omega (arith, steady.bounded),
      )

-- A frame for which the pipeline is there is handed to it exactly if no negotiation runs when the
-- frame comes nor when the main loop gets to it; what other threads do between the two is any step.
pub push_frame_lem :
    (builds : Bool) (meanwhile : Streamer → Streamer) (frame : CameraFrame) (s : Streamer)
    → s.has_pipeline ≡ true
    → (push_frame builds meanwhile frame s).1.buffers ≡ (
        if s.negotiating
        then s.buffers
        else if (meanwhile s).negotiating
        then (meanwhile s).buffers
        else (meanwhile s).buffers ++ frame ∷ [])
unfolding push_frame push_buffer
push_frame_lem builds meanwhile frame s p = rw p (ground arith)
