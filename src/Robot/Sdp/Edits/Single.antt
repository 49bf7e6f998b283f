-- ===== src/Robot/Sdp/Edits/Single.antt =====
-- What the edits make of one line (robot-container/robot_agent/sdp_utils.py).
use cloud_robotics.Prelude.{
  ℕ, Text, lit, true, not, some, ◌∷◌, ◌++◌, length, length-append, ◌≡◌, refl, ap, ◌∙◌, arith,
  append_assoc,
}
use cloud_robotics.Robot.Sdp.Scanning.{AllIn, span-run, strip_prefix-append}
use cloud_robotics.Robot.Sdp.Rewriting.{starts_with}
use cloud_robotics.Robot.Sdp.Lines.{substitute-quiet, substitute-head}
use cloud_robotics.Robot.Sdp.Edits.{
  Line, video, mapped, feedback, inactive, other, Edit, mline_of, match_video, match_mapped,
  match_feedback, match_inactive, new_mapped, new_feedback, new_direction, before, after, IsSingle,
  edit_text, mapped_to, fed, activated, edit-eq,
}

module _ (a : Edit) where
  -- The pattern of a plain replacement, at the start of a line.
  starts : (p t : Text) → starts_with p (p ++ t) ≡ some (length p)
  starts p t = ground (arith, strip_prefix-append p t)

  match_mapped-before :
      (c : ℕ) (word : Text) (s : ℕ) (tail : Text)
      → AllIn (λ x. not (a.re.is_space x)) (c ∷ word)
      → a.re.is_space s ≡ true
      → (match_mapped a) (before a (mapped c word s tail))
        ≡ some (length (lit "a=rtpmap:" ++ a.current_pt ++ lit " " ++ (c ∷ word)))
  match_mapped-before c word s tail h k =
      let p = lit "a=rtpmap:" ++ a.current_pt ++ lit " " in
      ground (
        arith,
        append_assoc p (c ∷ word) (s ∷ tail),
        strip_prefix-append p ((c ∷ word) ++ s ∷ tail),
        span-run (λ x. not (a.re.is_space x)) (c ∷ word) s tail h (rw k refl),
        length-append p (c ∷ word),
      )

  pub edit-before : (l : Line) → IsSingle a l → edit_text a (before a l) ≡ after a l
  unfolding IsSingle
  edit-before (video tail) (q1, q2, q3, q4) =
      edit-eq a (before a (video tail))
      ∙ ap (λ t. activated a (fed a (mapped_to a t)))
          (substitute-head (match_video a) (mline_of a (a.decimal a.pt)) (mline_of a a.current_pt)
            tail (ground arith) (starts (mline_of a a.current_pt) tail) q1)
      ∙ ap (λ t. activated a (fed a t))
          (substitute-quiet (match_mapped a) (new_mapped a) (after a (video tail)) q2)
      ∙ ap (activated a)
          (substitute-quiet (match_feedback a) (new_feedback a) (after a (video tail)) q3)
      ∙ substitute-quiet (match_inactive a) (new_direction a) (after a (video tail)) q4
  edit-before (mapped c word s tail) (h, k, q1, q2, q3, q4) =
      let l = mapped c word s tail in
      let p = lit "a=rtpmap:" ++ a.current_pt ++ lit " " ++ (c ∷ word) in
      edit-eq a (before a l)
      ∙ ap (λ t. activated a (fed a (mapped_to a t)))
          (substitute-quiet (match_video a) (mline_of a (a.decimal a.pt)) (before a l) q1)
      ∙ ap (λ t. activated a (fed a t))
          (substitute-head (match_mapped a) (new_mapped a) p (s ∷ tail) (ground arith)
            (match_mapped-before c word s tail h k) q2)
      ∙ ap (activated a) (substitute-quiet (match_feedback a) (new_feedback a) (after a l) q3)
      ∙ substitute-quiet (match_inactive a) (new_direction a) (after a l) q4
  edit-before (feedback tail) (q1, q2, q3, q4) =
      let l = feedback tail in
      let p = lit "a=rtcp-fb:" ++ a.current_pt ++ lit " " in
      edit-eq a (before a l)
      ∙ ap (λ t. activated a (fed a (mapped_to a t)))
          (substitute-quiet (match_video a) (mline_of a (a.decimal a.pt)) (before a l) q1)
      ∙ ap (λ t. activated a (fed a t))
          (substitute-quiet (match_mapped a) (new_mapped a) (before a l) q2)
      ∙ ap (activated a) (
          substitute-head (match_feedback a) (new_feedback a) p tail (ground arith) (starts p tail)
            q3)
      ∙ substitute-quiet (match_inactive a) (new_direction a) (after a l) q4
  edit-before (inactive tail) (q1, q2, q3, q4) =
      let l = inactive tail in
      edit-eq a (before a l)
      ∙ ap (λ t. activated a (fed a (mapped_to a t)))
          (substitute-quiet (match_video a) (mline_of a (a.decimal a.pt)) (before a l) q1)
      ∙ ap (λ t. activated a (fed a t))
          (substitute-quiet (match_mapped a) (new_mapped a) (before a l) q2)
      ∙ ap (activated a) (substitute-quiet (match_feedback a) (new_feedback a) (before a l) q3)
      ∙ substitute-head (match_inactive a) (new_direction a) (lit "a=inactive") tail (ground arith)
          (starts (lit "a=inactive") tail) q4
  edit-before (other t) (q1, q2, q3, q4) =
      edit-eq a t
      ∙ ap (λ t. activated a (fed a (mapped_to a t)))
          (substitute-quiet (match_video a) (mline_of a (a.decimal a.pt)) t q1)
      ∙ ap (λ t. activated a (fed a t)) (substitute-quiet (match_mapped a) (new_mapped a) t q2)
      ∙ ap (activated a) (substitute-quiet (match_feedback a) (new_feedback a) t q3)
      ∙ substitute-quiet (match_inactive a) (new_direction a) t q4
