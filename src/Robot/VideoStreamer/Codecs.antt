-- ===== src/Robot/VideoStreamer/Codecs.antt =====
-- The negotiation of robot-container/robot_agent/video_streamer.py with the functions of
-- sdp_utils.py: an offer without the encoder's codec.
use cloud_robotics.Prelude.{ℕ, Text, ◌≡◌, refl, true, false, List, [], All}
use cloud_robotics.Exec.{err, runtime_error}
use cloud_robotics.Robot.Sdp.{Classes, h264_only, choose_offer_h264_payload_type}
use cloud_robotics.Robot.Sdp.Scanning.{AreClasses, Line, write, entries, IsWritten, rtpmaps-write}
use cloud_robotics.Robot.Sdp.Rewriting.{rewrite_answer_for_real_codec_match}
use cloud_robotics.Robot.VideoStreamer.{Streamer, Gst, negotiate, handle_offer}

-- An offer of well-formed lines without an H264 entry is refused with a runtime error before
-- anything is asked of GStreamer, and the streamer takes frames again.
pub refuses_without_h264 :
    (re : Classes) (decimal : ℕ → Text) (ls : List Line) (g : Gst) (s : Streamer)
    → AreClasses re
    → All (IsWritten re) ls
    → h264_only re (entries ls) ≡ []
    → s.has_pipeline ≡ true
    → handle_offer
        (choose_offer_h264_payload_type re)
        (rewrite_answer_for_real_codec_match re decimal)
        g
        (write ls)
        s
      ≡ (err runtime_error, record s { negotiating = false; frames_dropped = 0 })
unfolding handle_offer negotiate choose_offer_h264_payload_type
refuses_without_h264 re decimal ls g s laws written no_h264 ready =
    rw (ready, rtpmaps-write re laws ls written, no_h264) refl
