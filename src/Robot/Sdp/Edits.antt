-- ===== src/Robot/Sdp/Edits.antt =====
-- The lines of an answer, and what robot-container/robot_agent/sdp_utils.py makes of each when it edits
-- one.
pub mod Single
pub mod Whole
use cloud_robotics.Prelude.{
  ℕ, Text, lit, Bool, true, false, not, ◌&&◌, ◌==◌, Option, none, some, List, [], ◌∷◌, ◌++◌, map,
  length, length-append, All, ◌≢◌, ◌≡◌, refl, sym, ap, ◌∙◌, arith, append_assoc, append-nil,
}
use cloud_robotics.Exec.{ok}
use cloud_robotics.Backend.Topics.{strip_prefix}
use cloud_robotics.Robot.Sdp.{Classes, span, contains}
use cloud_robotics.Robot.Sdp.Scanning.{IsLine, IsLine-append, AllIn, span-run, strip_prefix-append}
use cloud_robotics.Robot.Sdp.Rewriting.{
  substitute, starts_with, match_word, replace, fmtp_line, edit, mline,
  rewrite_answer_for_real_codec_match,
}
use cloud_robotics.Robot.Sdp.Lines.{
  join, IsLocal, is_quiet, substitute-join, lines-IsLine, substitute-quiet, substitute-head,
}
use cloud_robotics.Robot.Sdp.Patterns.{starts_with-IsLocal, match_word-IsLocal}

-- A line of an answer: the video line with what follows its payload type, an rtpmap entry or a
-- feedback entry of that payload type, a line that says inactive, or another.
pub data Line : Type 0 where
  video : Text → Line
  mapped : (c : ℕ) (word : Text) (s : ℕ) (tail : Text) → Line
  feedback : Text → Line
  inactive : Text → Line
  other : Text → Line

-- What the edits are made with: the classes of `re`, `str`, the wanted payload type, the profile, and
-- the three groups of the m=video line.
pub record Edit : Type 0 where
  pub re : Classes
  pub decimal : ℕ → Text
  pub pt : ℕ
  pub profile : Option Text
  pub port : Text
  pub proto : Text
  pub current_pt : Text

module _ (a : Edit) where
  abbrev pub mline_of : Text → Text
  mline_of n = lit "m=video " ++ a.port ++ lit " " ++ a.proto ++ lit " " ++ n

  abbrev pub match_video : Text → Option ℕ
  match_video = starts_with (mline_of a.current_pt)

  abbrev pub match_mapped : Text → Option ℕ
  match_mapped = match_word a.re.is_space (lit "a=rtpmap:" ++ a.current_pt ++ lit " ")

  abbrev pub match_feedback : Text → Option ℕ
  match_feedback = starts_with (lit "a=rtcp-fb:" ++ a.current_pt ++ lit " ")

  abbrev pub match_inactive : Text → Option ℕ
  match_inactive = starts_with (lit "a=inactive")

  abbrev pub new_mapped : Text
  new_mapped = lit "a=rtpmap:" ++ a.decimal a.pt ++ lit " H264/90000"

  abbrev pub new_feedback : Text
  new_feedback = lit "a=rtcp-fb:" ++ a.decimal a.pt ++ lit " "

  abbrev pub new_direction : Text
  new_direction = lit "a=sendonly\r\n" ++ fmtp_line a.re a.decimal a.pt a.profile

  abbrev pub before : Line → Text
  before (video tail) = mline_of a.current_pt ++ tail
  before (mapped c word s tail) =
      lit "a=rtpmap:" ++ a.current_pt ++ lit " " ++ (c ∷ word) ++ s ∷ tail
  before (feedback tail) = lit "a=rtcp-fb:" ++ a.current_pt ++ lit " " ++ tail
  before (inactive tail) = lit "a=inactive" ++ tail
  before (other t) = t

  -- The wanted payload type, its codec, and a direction with the parameters of the format.
  abbrev pub after : Line → Text
  after (video tail) = mline_of (a.decimal a.pt) ++ tail
  after (mapped c word s tail) = new_mapped ++ s ∷ tail
  after (feedback tail) = new_feedback ++ tail
  after (inactive tail) = new_direction ++ tail
  after (other t) = t

  -- No pattern occurs in a line but the one that it is named for, once and at its start, neither
  -- before nor after that one's replacement.
  unfoldable pub IsSingle : Line → Type 0
  IsSingle (video tail) =
      (is_quiet match_video tail ≡ true)
      × (is_quiet match_mapped (after (video tail)) ≡ true)
      × (is_quiet match_feedback (after (video tail)) ≡ true)
      × (is_quiet match_inactive (after (video tail)) ≡ true)
  IsSingle (mapped c word s tail) =
      AllIn (λ x. not (a.re.is_space x)) (c ∷ word)
      × (a.re.is_space s ≡ true)
      × (is_quiet match_video (before (mapped c word s tail)) ≡ true)
      × (is_quiet match_mapped (s ∷ tail) ≡ true)
      × (is_quiet match_feedback (after (mapped c word s tail)) ≡ true)
      × (is_quiet match_inactive (after (mapped c word s tail)) ≡ true)
  IsSingle (feedback tail) =
      (is_quiet match_video (before (feedback tail)) ≡ true)
      × (is_quiet match_mapped (before (feedback tail)) ≡ true)
      × (is_quiet match_feedback tail ≡ true)
      × (is_quiet match_inactive (after (feedback tail)) ≡ true)
  IsSingle (inactive tail) =
      (is_quiet match_video (before (inactive tail)) ≡ true)
      × (is_quiet match_mapped (before (inactive tail)) ≡ true)
      × (is_quiet match_feedback (before (inactive tail)) ≡ true)
      × (is_quiet match_inactive tail ≡ true)
  IsSingle (other t) =
      (is_quiet match_video t ≡ true)
      × (is_quiet match_mapped t ≡ true)
      × (is_quiet match_feedback t ≡ true)
      × (is_quiet match_inactive t ≡ true)

  abbrev edit_text : Text → Text
  edit_text t = edit a.re a.decimal t a.pt a.profile (a.port, a.proto, a.current_pt)

  abbrev moved : Text → Text
  moved t = substitute match_video (mline_of (a.decimal a.pt)) 0 t

  abbrev mapped_to : Text → Text
  mapped_to t = substitute match_mapped new_mapped 0 t

  abbrev fed : Text → Text
  fed t = substitute match_feedback new_feedback 0 t

  abbrev activated : Text → Text
  activated t = substitute match_inactive new_direction 0 t

  edit-eq : (t : Text) → edit_text t ≡ activated (fed (mapped_to (moved t)))
  unfolding edit
  edit-eq t = refl
