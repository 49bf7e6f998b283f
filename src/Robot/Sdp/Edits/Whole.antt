-- ===== src/Robot/Sdp/Edits/Whole.antt =====
-- What the edits make of an answer of lines (robot-container/robot_agent/sdp_utils.py).
use cloud_robotics.Prelude.{
  Text, lit, true, false, not, ◌&&◌, ◌==◌, some, List, [], ◌∷◌, ◌++◌, map, All, ◌≡◌, refl, sym, ap,
  ◌∙◌, arith,
}
use cloud_robotics.Exec.{ok}
use cloud_robotics.Robot.Sdp.{contains}
use cloud_robotics.Robot.Sdp.Scanning.{IsLine, IsLine-append}
use cloud_robotics.Robot.Sdp.Rewriting.{mline, rewrite_answer_for_real_codec_match}
use cloud_robotics.Robot.Sdp.Lines.{join, substitute-join, lines-IsLine}
use cloud_robotics.Robot.Sdp.Patterns.{starts_with-IsLocal, match_word-IsLocal}
use cloud_robotics.Robot.Sdp.Edits.{
  Line, Edit, mline_of, match_video, match_mapped, match_feedback, match_inactive, new_mapped,
  new_feedback, new_direction, before, after, IsSingle, edit_text, moved, mapped_to, fed, activated,
  edit-eq,
}
use cloud_robotics.Robot.Sdp.Edits.Single.{edit-before}

module _ (a : Edit) where
  singles :
      (ls : List Line) → All (λ l. IsLine (before a l) × IsSingle a l) ls → All (IsSingle a) ls
  singles [] h = tt
  singles (l ∷ ls) h = (h.0.1, singles ls h.1)

  before_lines :
      (ls : List Line)
      → All (λ l. IsLine (before a l) × IsSingle a l) ls
      → All IsLine (map (before a) ls)
  before_lines [] h = tt
  before_lines (l ∷ ls) h = (h.0.0, before_lines ls h.1)

  map-edit-before :
      (ls : List Line)
      → All (IsSingle a) ls
      → map (edit_text a) (map (before a) ls) ≡ map (after a) ls
  map-edit-before [] h = refl
  map-edit-before (l ∷ ls) h = ground (arith, edit-before a l h.0, map-edit-before ls h.1)

  -- The pieces of the edits stand within a line.
  pub record HasLines : Type 0 where
    pub newline : a.re.is_space 10 ≡ true
    pub port_line : IsLine a.port
    pub proto_line : IsLine a.proto
    pub current_line : IsLine a.current_pt
    pub wanted_line : IsLine (a.decimal a.pt)

  -- A piece behind a literal, and before one.
  between : (s n t : Text) → IsLine s → IsLine n → IsLine t → IsLine (s ++ n ++ t)
  between s n t hs hn ht = IsLine-append (s ++ n) t (IsLine-append s n hs hn) ht

  mline_of-IsLine : (n : Text) → HasLines → IsLine n → IsLine (mline_of a n)
  mline_of-IsLine n h line =
      let head = lit "m=video " ++ a.port ++ lit " " in
      IsLine-append (head ++ a.proto ++ lit " ") n
        (between head a.proto (lit " ")
          (between (lit "m=video ") a.port (lit " ") (ground arith) h.port_line (ground arith))
          h.proto_line (ground arith))
        line

  four_maps :
      (ls : List Text)
      → map (activated a) (map (fed a) (map (mapped_to a) (map (moved a) ls)))
        ≡ map (edit_text a) ls
  four_maps [] = refl
  four_maps (l ∷ ls) =
      ap (λ t. t ∷ map (activated a) (map (fed a) (map (mapped_to a) (map (moved a) ls))))
        (sym (edit-eq a l))
      ∙ ap (λ r. edit_text a l ∷ r) (four_maps ls)

  edit-join :
      (ls : List Text)
      → HasLines
      → All IsLine ls
      → edit_text a (join ls) ≡ join (map (edit_text a) ls)
  edit-join ls h lines =
      let space = lit " " in
      let old_mapped =
        between (lit "a=rtpmap:") a.current_pt space (ground arith) h.current_line (ground arith) in
      let old_fed =
        between (lit "a=rtcp-fb:") a.current_pt space (ground arith) h.current_line
          (ground arith) in
      let new_mapped_line =
        between (lit "a=rtpmap:") (a.decimal a.pt) (lit " H264/90000") (ground arith) h.wanted_line
          (ground arith) in
      let new_fed_line =
        between (lit "a=rtcp-fb:") (a.decimal a.pt) space (ground arith) h.wanted_line
          (ground arith) in
      let lines₁ =
        lines-IsLine (match_video a) (mline_of a (a.decimal a.pt))
          (mline_of-IsLine (a.decimal a.pt) h h.wanted_line) ls lines in
      let lines₂ =
        lines-IsLine (match_mapped a) (new_mapped a) new_mapped_line (map (moved a) ls) lines₁ in
      let lines₃ =
        lines-IsLine (match_feedback a) (new_feedback a) new_fed_line
          (map (mapped_to a) (map (moved a) ls)) lines₂ in
      edit-eq a (join ls)
      ∙ ap (λ t. activated a (fed a (mapped_to a t)))
          (substitute-join (match_video a) (mline_of a (a.decimal a.pt))
            (starts_with-IsLocal b'm' _ (mline_of-IsLine a.current_pt h h.current_line)) ls lines)
      ∙ ap (λ t. activated a (fed a t))
          (substitute-join (match_mapped a) (new_mapped a)
            (match_word-IsLocal a.re.is_space h.newline b'a' _ old_mapped) (map (moved a) ls)
            lines₁)
      ∙ ap (activated a) (
          substitute-join (match_feedback a) (new_feedback a) (starts_with-IsLocal b'a' _ old_fed)
            (map (mapped_to a) (map (moved a) ls)) lines₂)
      ∙ substitute-join (match_inactive a) (new_direction a)
          (starts_with-IsLocal b'a' (lit "=inactive") (ground arith))
          (map (fed a) (map (mapped_to a) (map (moved a) ls))) lines₃
      ∙ ap join (four_maps ls)

  -- What an answer becomes that is of such lines, where its m=video line was found and has another
  -- payload type or something is inactive: the video line, the rtpmap entries and the feedback entries
  -- of that payload type name the wanted one, with H264, every inactive line says sendonly and is
  -- followed by the parameters of the format, and the other lines are left as they are.
  pub rewrite_lines :
      (ls : List Line)
      → HasLines
      → All (λ l. IsLine (before a l) × IsSingle a l) ls
      → mline a.re (join (map (before a) ls)) ≡ some (a.port, a.proto, a.current_pt)
      → (a.current_pt == a.decimal a.pt
          && not (contains (lit "a=inactive") (join (map (before a) ls))))
        ≡ false
      → rewrite_answer_for_real_codec_match a.re a.decimal (join (map (before a) ls)) a.pt a.profile
        ≡ ok (join (map (after a) ls))
  unfolding rewrite_answer_for_real_codec_match
  rewrite_lines ls h lines found stale =
      let edited =
        edit-join (map (before a) ls) h (before_lines ls lines)
        ∙ ap join (map-edit-before ls (singles ls lines)) in
      rw (found, stale, edited) refl
