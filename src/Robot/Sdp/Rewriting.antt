-- ===== src/Robot/Sdp/Rewriting.antt =====
-- robot-container/robot_agent/sdp_utils.py: the rewriting of the answer.
use cloud_robotics.Prelude.{
  ℕ, zero, suc, ◌+◌, ◌-◌, Text, lit, ◌==◌, Bool, true, false, not, ◌&&◌, Option, none, some, [],
  ◌∷◌, ◌++◌, length, nat_beq, if◌then◌else◌,
}
use cloud_robotics.Exec.{Result, ok, err, value_error}
use cloud_robotics.Backend.Topics.{strip_prefix}
use cloud_robotics.Robot.Sdp.{Classes, span, contains}

-- The first match at the start of a line.
unfoldable pub search_lines : {A : Type 0} → (Text → Option A) → Bool → Text → Option A
search_lines match_at start [] = none
search_lines match_at start (c ∷ t) =
    let rest = search_lines match_at (nat_beq c 10) t in
    elim (if start then match_at (c ∷ t) else none) [ none ↦ rest | some a ↦ some a ]

-- Every match is replaced, from left to right; `match_at` gives the number of characters of one.
unfoldable pub substitute : (Text → Option ℕ) → Text → ℕ → Text → Text
substitute match_at new skip [] = []
substitute match_at new (suc skip) (c ∷ t) = substitute match_at new skip t
substitute match_at new zero (c ∷ t) =
    let rest = substitute match_at new zero t in
    elim (match_at (c ∷ t)) [ none ↦ c ∷ rest | some n ↦ new ++ substitute match_at new (n - 1) t ]

-- Whether a text starts with another, and where that ends.
abbrev pub starts_with : Text → Text → Option ℕ
starts_with p t = elim (strip_prefix p t) [ none ↦ none | some _ ↦ some (length p) ]

-- `text.replace(old, new)`
abbrev pub replace : Text → Text → Text → Text
replace old new t = substitute (starts_with old) new 0 t

-- `re.sub(rf"{prefix}\S+", …)`: the characters of a match.
abbrev pub match_word : (ℕ → Bool) → Text → Text → Option ℕ
match_word is_space p t = elim (strip_prefix p t) [
  | none ↦ none
  | some rest ↦ elim (span (λ c. not (is_space c)) rest).0 [
    | [] ↦ none
    | c ∷ word ↦ some (length p + length (c ∷ word))
  ]
]

module _ (re : Classes) where
  -- `(\S+) ` and what follows it.
  abbrev pub match_field : Text → Option (Text × Text)
  match_field t =
      let (field, rest) = span (λ c. not (re.is_space c)) t in
      elim field [
        | [] ↦ none
        | c ∷ cs ↦ elim (strip_prefix (lit " ") rest) [ none ↦ none | some r ↦ some (c ∷ cs, r) ]
      ]

  abbrev pub has_newline : Text → Bool
  has_newline [] = false
  has_newline (c ∷ t) = if nat_beq c 10 then true else has_newline t

  -- `(\d+)\s*$`: the spaces reach the end of the text, or the end of a line is among them.
  abbrev pub match_pt : Text → Option Text
  match_pt t =
      let (digits, after) = span re.is_digit t in
      let (spaces, rest) = span re.is_space after in
      elim digits [
        | [] ↦ none
        | d ∷ ds ↦ elim rest [
          | [] ↦ some (d ∷ ds)
          | c ∷ cs ↦ if has_newline spaces then some (d ∷ ds) else none
        ]
      ]

  -- `^m=video (\S+) (\S+) (\d+)\s*$` at the start of a line.
  abbrev pub match_mline : Text → Option (Text × Text × Text)
  match_mline t = elim (strip_prefix (lit "m=video ") t) [
    | none ↦ none
    | some rest ↦ elim (match_field rest) [
      | none ↦ none
      | some (port, rest₁) ↦ elim (match_field rest₁) [
        | none ↦ none
        | some (proto, rest₂) ↦ elim (match_pt rest₂) [
          | none ↦ none
          | some current_pt ↦ some (port, proto, current_pt)
        ]
      ]
    ]
  ]

  unfoldable pub mline : Text → Option (Text × Text × Text)
  mline answer_sdp_text = search_lines match_mline true answer_sdp_text

  module _ (decimal : ℕ → Text) where
    abbrev pub fmtp_line : ℕ → Option Text → Text
    fmtp_line pt profile =
        lit "a=fmtp:"
        ++ decimal pt
        ++ lit " level-asymmetry-allowed=1;packetization-mode=1"
        ++ (elim profile [
          | none ↦ []
          | some id ↦ if id == [] then [] else lit ";profile-level-id=" ++ id
        ])

    -- The four edits, one after the other.
    unfoldable pub edit : Text → ℕ → Option Text → Text × Text × Text → Text
    edit text pt profile_level_id (port, proto, current_pt) =
        let line = λ (n : Text). lit "m=video " ++ port ++ lit " " ++ proto ++ lit " " ++ n in
        let moved = replace (line current_pt) (line (decimal pt)) text in
        let mapped =
          substitute (match_word re.is_space (lit "a=rtpmap:" ++ current_pt ++ lit " "))
            (lit "a=rtpmap:" ++ decimal pt ++ lit " H264/90000") 0 moved in
        let fed =
          replace (lit "a=rtcp-fb:" ++ current_pt ++ lit " ")
            (lit "a=rtcp-fb:" ++ decimal pt ++ lit " ") mapped in
        replace (lit "a=inactive") (lit "a=sendonly\r\n" ++ fmtp_line pt profile_level_id) fed

    abbrev pub rewrite_with : Text → ℕ → Option Text → Option (Text × Text × Text) → Result Text
    rewrite_with text pt profile_level_id none = err value_error
    rewrite_with text pt profile_level_id (some (port, proto, current_pt)) =
        if current_pt == decimal pt && not (contains (lit "a=inactive") text)
        then ok text
        else ok (edit text pt profile_level_id (port, proto, current_pt))

    unfoldable pub rewrite_answer_for_real_codec_match : Text → ℕ → Option Text → Result Text
    rewrite_answer_for_real_codec_match answer_sdp_text pt profile_level_id =
        rewrite_with answer_sdp_text pt profile_level_id (mline answer_sdp_text)
