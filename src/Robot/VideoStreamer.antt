-- ===== src/Robot/VideoStreamer.antt =====
-- robot-container/robot_agent/video_streamer.py: which frames reach the pipeline, and the steps of a
-- WebRTC negotiation. GStreamer is outside: what its calls answer, and the frames that the ROS
-- thread hands over while a call is waited for, are arguments. So are sdp_utils.py's two functions.
pub mod Negotiating
pub mod Codecs
pub mod Pipeline
pub mod MainLoop
pub mod Gathering
use cloud_robotics.Prelude.{
  ℕ, suc, Text, Bool, true, false, Option, none, some, List, [], ◌∷◌, ◌++◌, if◌then◌else◌,
}
use cloud_robotics.Exec.{
  Exec, Result, ok, err, pure, lift, gets, modify, ◌>>=◌, ◌>>◌, runtime_error, timeout_error,
}
use cloud_robotics.Robot.Models.{CameraFrame}

-- Whether there is a pipeline, the two counters of frames, whether an offer is being negotiated, and
-- the frames that were handed to `appsrc`.
pub record Streamer : Type 0 where
  pub has_pipeline : Bool
  pub negotiating : Bool
  pub frames_pushed : ℕ
  pub frames_dropped : ℕ
  pub buffers : List CameraFrame

abbrev pub drop_frame : Streamer → Streamer
drop_frame s = record s { frames_dropped = suc s.frames_dropped }

-- `_push_buffer`, on the main loop.
unfoldable pub push_buffer : CameraFrame → Streamer → Streamer
push_buffer frame s =
    if s.negotiating then drop_frame s else record s { buffers = s.buffers ++ frame ∷ [] }

-- `if self._pipeline is None`: whether the pipeline is built, or the call raises.
abbrev pub ensure_pipeline : Bool → Exec Streamer (Unit {0})
ensure_pipeline builds s =
    if s.has_pipeline
    then (ok tt, s)
    else if builds
    then (ok tt, record s { has_pipeline = true })
    else (err runtime_error, s)

abbrev pub count_frame : Streamer → Streamer
count_frame s = record s { frames_pushed = suc s.frames_pushed }

-- `meanwhile` is what other threads do before the main loop runs the scheduled call.
abbrev pub enqueue : (Streamer → Streamer) → CameraFrame → Bool → Exec Streamer (Unit {0})
enqueue meanwhile frame true = modify drop_frame
enqueue meanwhile frame false = modify (λ s. count_frame (push_buffer frame (meanwhile s)))

pub push_frame : Bool → (Streamer → Streamer) → CameraFrame → Exec Streamer (Unit {0})
push_frame builds meanwhile frame = do
  ensure_pipeline builds
  negotiating ← gets (λ s. s.negotiating)
  enqueue meanwhile frame negotiating

-- The frames that arrive while a call is waited for.
abbrev pub arrive : List CameraFrame → Streamer → Streamer
arrive [] s = s
arrive (frame ∷ frames) s = arrive frames (push_frame true (λ t. t) frame s).1

-- The main loop runs the scheduled calls of frames, each of which its thread then counts.
abbrev pub run_queued : List CameraFrame → Streamer → Streamer
run_queued [] s = s
run_queued (frame ∷ frames) s = run_queued frames (count_frame (push_buffer frame s))

-- How a call that is waited for ends.
pub data Outcome : Type 0 where
  replied unreplied timed_out failed : Outcome

-- What happens while a call is waited for: the scheduled calls of frames that passed the check before
-- the negotiation, the frames that come, and the end.
pub record Wait : Type 0 where
  pub queued : List CameraFrame
  pub frames : List CameraFrame
  pub outcome : Outcome

abbrev pub outcome_of : Outcome → Result (Unit {0})
outcome_of replied = ok tt
outcome_of unreplied = err runtime_error
outcome_of timed_out = err timeout_error
outcome_of failed = err runtime_error

-- `_wait_promise` and the test of its result; also a `_run_on_main_loop`, which replies or raises.
abbrev pub await : Wait → Exec Streamer (Unit {0})
await w = do modify (run_queued w.queued); modify (arrive w.frames); lift (outcome_of w.outcome)

-- The calls one after the other, up to the first that raises.
abbrev pub await_all : List Wait → Exec Streamer (Unit {0})
await_all [] = pure tt
await_all (w ∷ ws) = do await w; await_all ws

-- What GStreamer answers in one negotiation, call by call. A wait for the ICE candidates that runs
-- out is a reply too: the code answers anyway.
pub record Gst : Type 0 where
  pub prepare : Wait
  pub set_remote : Wait
  pub create_answer : Wait
  pub extract_answer : Wait
  pub answer_sdp : Text
  pub profile_level_id : Option Text
  pub set_local : Wait
  pub ice_gathering : Wait
  pub extract_local : Wait
  pub local_description : Option Text

abbrev pub need_h264 : Option ℕ → Result ℕ
need_h264 none = err runtime_error
need_h264 (some pt) = ok pt

abbrev pub or_rewritten : Text → Option Text → Text
or_rewritten rewritten none = rewritten
or_rewritten rewritten (some text) = text

-- The `finally`.
abbrev pub settle : Result Text × Streamer → Result Text × Streamer
settle (r, s) = (r, record s { negotiating = false; frames_dropped = 0 })

-- The `try` from the rewritten answer on.
abbrev pub set_answer : Gst → Text → Exec Streamer Text
set_answer g rewritten_sdp_text = do
  await_all (g.set_local ∷ g.ice_gathering ∷ g.extract_local ∷ [])
  pure (or_rewritten rewritten_sdp_text g.local_description)

module _ (choose : Text → Option ℕ) (rewrite : Text → ℕ → Option Text → Result Text) where
  -- The `try` from the payload type on, and all of it.
  abbrev pub answer_with : Gst → ℕ → Exec Streamer Text
  answer_with g offer_pt = do
    await_all (g.prepare ∷ g.set_remote ∷ g.create_answer ∷ g.extract_answer ∷ [])
    rewritten_sdp_text ← lift (rewrite g.answer_sdp offer_pt g.profile_level_id)
    set_answer g rewritten_sdp_text

  negotiate : Gst → Text → Exec Streamer Text
  negotiate g sdp_text = do offer_pt ← lift (need_h264 (choose sdp_text)); answer_with g offer_pt

  pub handle_offer : Gst → Text → Exec Streamer Text
  handle_offer g sdp_text s =
      if s.has_pipeline
      then settle (negotiate g sdp_text (record s { negotiating = true }))
      else (err runtime_error, s)
