-- ===== src/Robot/Sdp.antt =====
-- robot-container/robot_agent/sdp_utils.py. The regular expressions are run by hand: a greedy group
-- of one class, followed by what that class has not, is a maximal run. What Python's `re` takes for
-- a digit, a space and a word character, and `str` of an int, are arguments.
pub mod Best
pub mod Choice
pub mod Scanning
pub mod Rewriting
pub mod Mline
pub mod Lines
pub mod Patterns
pub mod Edits
use cloud_robotics.Prelude.{
  ℕ, zero, suc, ◌+◌, ◌-◌, ◌*◌, Text, lit, ◌==◌, Bool, true, false, not, ◌&&◌, ◌||◌, Option, none,
  some, List, [], ◌∷◌, ◌++◌, map, length, nat_beq, if◌then◌else◌,
}
use cloud_robotics.Exec.{Result, ok, err, value_error}
use cloud_robotics.Backend.Topics.{strip_prefix}

-- The classes `\d`, `\s` and `\w`, and the value of a digit.
pub record Classes : Type 0 where
  pub is_digit : ℕ → Bool
  pub is_space : ℕ → Bool
  pub is_word : ℕ → Bool
  pub digit_value : ℕ → ℕ

-- The longest run of a class, and what follows it.
unfoldable pub span : (ℕ → Bool) → Text → Text × Text
span test [] = ([], [])
span test (c ∷ t) = let (run, rest) = span test t in if test c then (c ∷ run, rest) else ([], c ∷ t)

-- The matches at the starts of lines, from left to right: `skip` characters belong to the last
-- match. A match is a value and the number of characters that it takes.
unfoldable pub find_lines : {A : Type 0} → (Text → Option (A × ℕ)) → Bool → ℕ → Text → List A
find_lines match_at start skip [] = []
find_lines match_at start (suc skip) (c ∷ t) = find_lines match_at (nat_beq c 10) skip t
find_lines match_at start zero (c ∷ t) =
    let next = nat_beq c 10 in
    let rest = find_lines match_at next zero t in
    elim (if start then match_at (c ∷ t) else none) [
      | none ↦ rest
      | some (a, n) ↦ a ∷ find_lines match_at next (n - 1) t
    ]

-- `part in text`
unfoldable pub contains : Text → Text → Bool
contains part [] = part == []
contains part (c ∷ t) = elim (strip_prefix part (c ∷ t)) [ none ↦ contains part t | some _ ↦ true ]

-- The last character of a text that is no newline, after the first.
abbrev last_other : Option ℕ → Text → Option ℕ
last_other found [] = found
last_other found (c ∷ t) = last_other (if nat_beq c 10 then found else some c) t

module _ (re : Classes) where
  -- `[\w-]`
  abbrev pub is_name : ℕ → Bool
  is_name c = re.is_word c || nat_beq c b'-'

  -- `(\d+)\s+` and the rest: the digits, the spaces and what follows them.
  abbrev pub match_number : Text → Option (Text × Text × Text)
  match_number t =
      let (digits, after) = span re.is_digit t in
      let (spaces, rest) = span re.is_space after in
      elim digits [
        | [] ↦ none
        | d ∷ ds ↦ elim spaces [ [] ↦ none | s ∷ ss ↦ some (d ∷ ds, s ∷ ss, rest) ]
      ]

  -- `([\w-]+)/`
  abbrev pub match_name : Text → Text → Text × Text → Option ((Text × Text) × ℕ)
  match_name digits spaces ([], rest) = none
  match_name digits spaces (c ∷ name, []) = none
  match_name digits spaces (c ∷ name, d ∷ rest) =
      if nat_beq d b'/'
      then some ((digits, c ∷ name), 9 + length digits + length spaces + length (c ∷ name) + 1)
      else none

  -- `^a=rtpmap:(\d+)\s+([\w-]+)/` at the start of a line.
  abbrev pub match_rtpmap : Text → Option ((Text × Text) × ℕ)
  match_rtpmap t = elim (strip_prefix (lit "a=rtpmap:") t) [
    | none ↦ none
    | some rest ↦ elim (match_number rest) [
      | none ↦ none
      | some (digits, spaces, name) ↦ match_name digits spaces (span is_name name)
    ]
  ]

  -- `(.+)$` behind the spaces. Where the text ends with the spaces, the group is the last of them
  -- that is no newline, if that is not the first; only newlines are left then.
  abbrev match_params : Text → Text → Text → Option ((Text × Text) × ℕ)
  match_params digits [] [] = none
  match_params digits (s ∷ ss) [] = elim (last_other none ss) [
    | none ↦ none
    | some c ↦ some ((digits, c ∷ []), 7 + length digits + length (s ∷ ss))
  ]
  match_params digits spaces (c ∷ rest) =
      let params = (span (λ x. not (nat_beq x 10)) (c ∷ rest)).0 in
      some ((digits, params), 7 + length digits + length spaces + length params)

  -- `^a=fmtp:(\d+)\s+(.+)$` at the start of a line.
  abbrev pub match_fmtp : Text → Option ((Text × Text) × ℕ)
  match_fmtp t = elim (strip_prefix (lit "a=fmtp:") t) [
    | none ↦ none
    | some rest ↦ elim (match_number rest) [
      | none ↦ none
      | some (digits, spaces, params) ↦ match_params digits spaces params
    ]
  ]

  unfoldable pub rtpmaps : Text → List (Text × Text)
  rtpmaps sdp_text = find_lines match_rtpmap true 0 sdp_text

  unfoldable pub fmtps : Text → List (Text × Text)
  fmtps sdp_text = find_lines match_fmtp true 0 sdp_text

  -- `[pt for pt, name in … if name == "H264"]`
  abbrev pub h264_only : List (Text × Text) → List Text
  h264_only [] = []
  h264_only ((pt, name) ∷ entries) =
      let rest = h264_only entries in if name == lit "H264" then pt ∷ rest else rest

  -- `dict(…).get(pt, "")`, where a later entry replaces an earlier one.
  abbrev pub params_of : Text → List (Text × Text) → Text
  params_of pt entries = last_params entries []
    where
      last_params : List (Text × Text) → Text → Text
      last_params [] found = found
      last_params ((key, params) ∷ rest) found =
          last_params rest (if key == pt then params else found)

  -- `(is_mode1, is_baseline_family)`
  unfoldable pub score : Text → Text → Bool × Bool
  score sdp_text pt =
      let fmtp = params_of pt (fmtps sdp_text) in
      (contains (lit "packetization-mode=1") fmtp, contains (lit "profile-level-id=42") fmtp)

  -- `int(pt)`, from the digits that are read.
  abbrev pub int_of : ℕ → Text → ℕ
  int_of n [] = n
  int_of n (d ∷ ds) = int_of (n * 10 + re.digit_value d) ds

-- `<` on pairs of Booleans.
abbrev pub lower : Bool × Bool → Bool × Bool → Bool
lower (false, a) (true, b) = true
lower (false, a) (false, b) = not a && b
lower (true, a) (false, b) = false
lower (true, a) (true, b) = not a && b

-- `max(pts, key=key)` of a list that starts with `best`: the first of the highest.
unfoldable pub max_by : (Text → Bool × Bool) → Text → List Text → Text
max_by key best [] = best
max_by key best (pt ∷ pts) = max_by key (if lower (key best) (key pt) then pt else best) pts

module _ (re : Classes) where
  abbrev pub choose_of : Text → List Text → Option ℕ
  choose_of sdp_text [] = none
  choose_of sdp_text (pt ∷ pts) = some (int_of re 0 (max_by (score re sdp_text) pt pts))

  unfoldable pub choose_offer_h264_payload_type : Text → Option ℕ
  choose_offer_h264_payload_type sdp_text = choose_of sdp_text (h264_only re (rtpmaps re sdp_text))
