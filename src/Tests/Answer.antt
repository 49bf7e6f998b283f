-- ===== src/Tests/Answer.antt =====
-- The edits of an answer, at one that GStreamer gives.
use cloud_robotics.Prelude.{
  lit, some, List, [], ◌∷◌, map, ◌==◌, ◌&&◌, not, false, ◌≡◌, refl, All, arith,
}
use cloud_robotics.Exec.{ok}
use cloud_robotics.Robot.Sdp.Rewriting.{mline, search_lines, rewrite_answer_for_real_codec_match}
use cloud_robotics.Backend.Topics.{strip_prefix}
use cloud_robotics.Robot.Sdp.{span, contains}
use cloud_robotics.Robot.Sdp.Scanning.{IsLine}
use cloud_robotics.Robot.Sdp.Lines.{join, is_quiet}
use cloud_robotics.Robot.Sdp.Edits.{
  Line, video, mapped, feedback, inactive, other, Edit, before, after, IsSingle,
}
use cloud_robotics.Robot.Sdp.Edits.Whole.{HasLines, rewrite_lines}
use cloud_robotics.Tests.Media.{ascii, decimal_106}

abbrev answer_edit : Edit
answer_edit = record {
  re = ascii;
  decimal = decimal_106;
  pt = 106;
  profile = some (lit "42c015");
  port = lit "9";
  proto = lit "UDP/TLS/RTP/SAVPF";
  current_pt = lit "96";
}

abbrev answer_lines : List Line
answer_lines =
    other (lit "v=0\r")
    ∷ video (lit "\r")
    ∷ mapped b'V' (lit "P8/90000") 13 []
    ∷ feedback (lit "nack\r")
    ∷ inactive (lit "\r")
    ∷ []

answer_edit-HasLines : HasLines answer_edit
answer_edit-HasLines = record {
  newline = refl;
  port_line = ground arith;
  proto_line = ground arith;
  current_line = ground arith;
  wanted_line = ground arith;
}

answer_lines-IsSingle :
    All (λ l. IsLine (before answer_edit l) × IsSingle answer_edit l) answer_lines
unfolding IsSingle is_quiet span strip_prefix
answer_lines-IsSingle = (
  (ground arith, (refl, refl, refl, refl)),
  (
    (ground arith, (refl, refl, refl, refl)),
    (
      (ground arith, (ground arith, refl, refl, refl, refl, refl)),
      ((ground arith, (refl, refl, refl, refl)), ((ground arith, (refl, refl, refl, refl)), tt)),
    ),
  ),
)

answer_found :
    mline ascii (join (map (before answer_edit) answer_lines))
    ≡ some (lit "9", lit "UDP/TLS/RTP/SAVPF", lit "96")
unfolding mline search_lines span strip_prefix
answer_found = refl

answer_stale :
    (lit "96" == lit "106"
      && not (contains (lit "a=inactive") (join (map (before answer_edit) answer_lines))))
    ≡ false
unfolding ◌==◌
answer_stale = refl

rewrite_lines_example :
    rewrite_answer_for_real_codec_match ascii decimal_106
      (join (map (before answer_edit) answer_lines))
      106
      (some (lit "42c015"))
    ≡ ok (join (map (after answer_edit) answer_lines))
rewrite_lines_example =
    rewrite_lines answer_edit answer_lines answer_edit-HasLines answer_lines-IsSingle answer_found
      answer_stale
