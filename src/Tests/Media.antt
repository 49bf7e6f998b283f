-- ===== src/Tests/Media.antt =====
-- The theorems on session descriptions, the camera node and the pipeline at concrete inputs.
use cloud_robotics.Prelude.{
  ℕ, ◌+◌, ◌-◌, Text, lit, ◌==◌, true, false, ◌&&◌, ◌||◌, leb, nat_beq, none, some, List, [], ◌∷◌,
  ◌≡◌, ◌≢◌, All, refl, ◌⊎◌, arith,
}
use cloud_robotics.Exec.{ok}
use cloud_robotics.Backend.Topics.{strip_prefix}
use cloud_robotics.Robot.Sdp.{
  Classes, span, find_lines, rtpmaps, fmtps, score, int_of, contains, max_by,
  choose_offer_h264_payload_type,
}
use cloud_robotics.Robot.Sdp.Choice.{Chosen, choose_lem}
use cloud_robotics.Robot.Sdp.Scanning.{AreClasses}
use cloud_robotics.Robot.Sdp.Rewriting.{
  rewrite_answer_for_real_codec_match, search_lines, substitute, mline, edit,
}
use cloud_robotics.Robot.VideoStreamer.{Streamer, Gst, Wait, replied}
use cloud_robotics.Robot.VideoStreamer.Pipeline
use cloud_robotics.Robot.VideoStreamer.Pipeline.{
  offer, packet, webrtcbin, new_pipeline, prepare_fresh_webrtcbin, on_rtp_buffer,
}
use cloud_robotics.Robot.VideoStreamer.Pipeline.Elements.{HasStale, failures, run-HasStale}
use cloud_robotics.Robot.Webcam.{Frame, Tick}

-- The classes of the ASCII characters.
abbrev pub ascii : Classes
ascii = record {
  is_digit = λ c. leb 48 c && leb c 57;
  is_space = λ c. nat_beq c 32 || (leb 9 c && leb c 13);
  is_word = λ c. (leb 48 c && leb c 57) || ((leb 65 c && leb c 90) || (leb 97 c && leb c 122));
  digit_value = λ c. c - 48;
}

ascii-AreClasses : AreClasses ascii
ascii-AreClasses = record {
  space_no_digit = λ c h. ground arith;
  name_no_space = λ c h. ground arith;
  slash_no_name = refl;
}

-- An offer that has two H264 entries, the second the better one.
abbrev h264_offer : Text
h264_offer =
    lit "a=rtpmap:102 H264/90000\r\na=rtpmap:106 H264/90000\r\na=fmtp:106 packetization-mode=1\r\n"

chosen : choose_offer_h264_payload_type ascii h264_offer ≡ some 106
unfolding choose_offer_h264_payload_type rtpmaps fmtps find_lines span strip_prefix max_by score
    contains ◌==◌
chosen = refl

choose_lem_example :
    (All (λ e. e.1 ≢ lit "H264") (rtpmaps ascii h264_offer)
      × (choose_offer_h264_payload_type ascii h264_offer ≡ none))
    ⊎ ((best : Text) × (choose_offer_h264_payload_type ascii h264_offer
          ≡ some (int_of ascii 0 best))
        × Chosen ascii h264_offer best (rtpmaps ascii h264_offer))
choose_lem_example = choose_lem ascii h264_offer

-- The decimal digits of the number 106.
abbrev pub decimal_106 : ℕ → Text
decimal_106 n = lit "106"

abbrev answer_text : Text
answer_text =
    lit
      "m=video 9 UDP/TLS/RTP/SAVPF 96\r\na=rtpmap:96 VP8/90000\r\na=rtcp-fb:96 nack\r\na=inactive\r\n"

rewritten :
    rewrite_answer_for_real_codec_match ascii decimal_106 answer_text 106 (some (lit "42c015"))
    ≡ ok (
        lit
          "m=video 9 UDP/TLS/RTP/SAVPF 106\r\na=rtpmap:106 H264/90000\r\na=rtcp-fb:106 nack\r\na=sendonly\r\na=fmtp:106 level-asymmetry-allowed=1;packetization-mode=1;profile-level-id=42c015\r\n")
unfolding rewrite_answer_for_real_codec_match search_lines substitute mline edit span strip_prefix
    contains ◌==◌
rewritten = refl

abbrev at_once : Wait
at_once = record { queued = []; frames = []; outcome = replied }

abbrev gst : Gst
gst = record {
  prepare = at_once;
  set_remote = at_once;
  create_answer = at_once;
  extract_answer = at_once;
  answer_sdp = answer_text;
  profile_level_id = none;
  set_local = at_once;
  ice_gathering = at_once;
  extract_local = at_once;
  local_description = none;
}

abbrev streaming : Streamer
streaming = record {
  has_pipeline = true;
  negotiating = false;
  frames_pushed = 3;
  frames_dropped = 0;
  buffers = [];
}

abbrev black : Frame
black = record { height = 1; width = 1; data_bytes = 0 ∷ 0 ∷ 0 ∷ [] }

-- The device opens at the second tick, and fails at the third.
abbrev ticks : List Tick
ticks =
    record { now = 1000; opens = false; reads = none }
    ∷ record { now = 6000; opens = true; reads = some black }
    ∷ record { now = 7000; opens = true; reads = none }
    ∷ []

new_pipeline-HasStale : HasStale new_pipeline 0
new_pipeline-HasStale = record {
  stale = [];
  counted = refl;
  shape = refl;
  one_of = λ k e. ground arith;
}

-- The second offer's webrtcbin is not linked.
abbrev offers : List Pipeline.Event
offers = offer 102 true ∷ packet (some (128 ∷ 230 ∷ [])) ∷ offer 106 false ∷ offer 106 true ∷ []

two_webrtcbins : (Pipeline.run offers new_pipeline).elements ≡ webrtcbin 2 ∷ webrtcbin 1 ∷ []
unfolding Pipeline.run prepare_fresh_webrtcbin on_rtp_buffer
two_webrtcbins = refl

run-HasStale_example : HasStale (Pipeline.run offers new_pipeline) (0 + failures offers)
run-HasStale_example = run-HasStale offers new_pipeline 0 new_pipeline-HasStale
