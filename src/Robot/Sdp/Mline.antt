-- ===== src/Robot/Sdp/Mline.antt =====
-- Which m=video line robot-container/robot_agent/sdp_utils.py finds in an answer of lines, and what
-- the rewriting makes of it.
use cloud_robotics.Prelude.{
  ℕ, Text, lit, ◌==◌, true, false, not, ◌&&◌, Option, none, some, List, [], ◌∷◌, ◌++◌, append_assoc,
  All, ◌≡◌, refl, ap, ◌∙◌, arith, if◌then◌else◌,
}
use cloud_robotics.Exec.{ok, err, value_error}
use cloud_robotics.Backend.Topics.{strip_prefix}
use cloud_robotics.Robot.Sdp.{Classes, span, contains}
use cloud_robotics.Robot.Sdp.Scanning.{
  IsLine, AllIn, span-run, strip_prefix-append, strip_prefix-line,
}
use cloud_robotics.Robot.Sdp.Rewriting.{
  search_lines, match_mline, mline, edit, rewrite_answer_for_real_codec_match, has_newline,
  match_field, match_pt, rewrite_with,
}

-- A line of an answer: a video line with its port, its protocol, its payload type and the spaces that
-- end it, or another.
pub data Line : Type 0 where
  video : (c : ℕ) (port : Text) (d : ℕ) (proto : Text) (n : ℕ) (pt spaces : Text) → Line
  other : Text → Line

abbrev pub line_text : Line → Text
line_text (video c port d proto n pt spaces) =
    lit "m=video " ++ ((c ∷ port) ++ (b' ' ∷ ((d ∷ proto) ++ (b' ' ∷ ((n ∷ pt) ++ spaces)))))
line_text (other t) = t

abbrev pub write : List Line → Text
write [] = []
write (l ∷ ls) = line_text l ++ 10 ∷ write ls

abbrev pub first_video : List Line → Option (Text × Text × Text)
first_video [] = none
first_video (video c port d proto n pt spaces ∷ ls) = some (c ∷ port, d ∷ proto, n ∷ pt)
first_video (other t ∷ ls) = first_video ls

-- What Python's `re` says of its classes: a space and a newline are spaces and no digits.
pub record HasSpaces (re : Classes) : Type 0 where
  pub space : re.is_space b' ' ≡ true
  pub newline : re.is_space 10 ≡ true
  pub no_digit : (c : ℕ) → re.is_space c ≡ true → re.is_digit c ≡ false

pub record IsVideo (re : Classes) (port proto pt spaces : Text) : Type 0 where
  pub port_in : AllIn (λ c. not (re.is_space c)) port
  pub proto_in : AllIn (λ c. not (re.is_space c)) proto
  pub pt_in : AllIn re.is_digit pt
  pub spaces_in : AllIn re.is_space spaces

unfoldable pub IsWritten : Classes → Line → Type 0
IsWritten re (video c port d proto n pt spaces) = IsVideo re (c ∷ port) (d ∷ proto) (n ∷ pt) spaces
IsWritten re (other t) = IsLine t × (strip_prefix (lit "m=video ") t ≡ none)

module _ {A : Type 0} (m : Text → Option A) where
  search_lines-hit :
      (c : ℕ) (t : Text) (a : A) → m (c ∷ t) ≡ some a → search_lines m true (c ∷ t) ≡ some a
  unfolding search_lines
  search_lines-hit c t a e = ground arith

  search_lines-rest :
      (s t : Text) → IsLine s → search_lines m false (s ++ 10 ∷ t) ≡ search_lines m true t
  unfolding search_lines
  search_lines-rest [] t h = refl
  search_lines-rest (c ∷ s) t h = rw (h.0) (search_lines-rest s t h.1)

  search_lines-miss :
      (c : ℕ) (s t : Text)
      → m (c ∷ (s ++ 10 ∷ t)) ≡ none
      → IsLine (c ∷ s)
      → search_lines m true (c ∷ (s ++ 10 ∷ t)) ≡ search_lines m true t
  unfolding search_lines
  search_lines-miss c s t e line = ground (arith, line.0, search_lines-rest s t line.1)

prefix-IsLine : IsLine (lit "m=video ")
prefix-IsLine = (refl, (refl, (refl, (refl, (refl, (refl, (refl, (refl, tt))))))))

module _ (re : Classes) (laws : HasSpaces re) where
  -- The spaces at the end of a line run up to its newline, and maybe on.
  spaces-has_newline :
      (spaces rest : Text)
      → AllIn re.is_space spaces
      → has_newline re (span re.is_space (spaces ++ 10 ∷ rest)).0 ≡ true
  unfolding span
  spaces-has_newline [] rest h = rw (laws.newline) refl
  spaces-has_newline (c ∷ spaces) rest h = ground (arith, h.0, spaces-has_newline spaces rest h.1)

  match_field-written :
      (c : ℕ) (field rest : Text)
      → AllIn (λ x. not (re.is_space x)) (c ∷ field)
      → match_field re ((c ∷ field) ++ (b' ' ∷ rest)) ≡ some (c ∷ field, rest)
  unfolding strip_prefix
  match_field-written c field rest h = ground (
    arith,
    laws.space,
    span-run (λ x. not (re.is_space x)) (c ∷ field) b' ' rest h (rw (laws.space) refl),
  )

  -- The payload type ends with its digits, where spaces or the end of the line follow.
  match_pt-written :
      (n : ℕ) (pt spaces rest : Text)
      → AllIn re.is_digit (n ∷ pt)
      → AllIn re.is_space spaces
      → match_pt re ((n ∷ pt) ++ (spaces ++ 10 ∷ rest)) ≡ some (n ∷ pt)
  match_pt-written n pt [] rest h k = ground (
    arith,
    span-run re.is_digit (n ∷ pt) 10 rest h (laws.no_digit 10 laws.newline),
    spaces-has_newline [] rest k,
  )
  match_pt-written n pt (s ∷ spaces) rest h k = ground (
    arith,
    span-run re.is_digit (n ∷ pt) s (spaces ++ 10 ∷ rest) h (laws.no_digit s k.0),
    spaces-has_newline (s ∷ spaces) rest k,
  )

  match_mline-written :
      (c : ℕ) (port : Text) (d : ℕ) (proto : Text) (n : ℕ) (pt spaces rest : Text)
      → IsVideo re (c ∷ port) (d ∷ proto) (n ∷ pt) spaces
      → match_mline re (
          lit "m=video "
          ++ ((c ∷ port) ++ (b' ' ∷ ((d ∷ proto) ++ (b' ' ∷ ((n ∷ pt) ++ (spaces ++ 10 ∷ rest)))))))
        ≡ some (c ∷ port, d ∷ proto, n ∷ pt)
  match_mline-written c port d proto n pt spaces rest h = ground (
    arith,
    strip_prefix-append (lit "m=video ")
        ((c ∷ port) ++ (b' ' ∷ ((d ∷ proto) ++ (b' ' ∷ ((n ∷ pt) ++ (spaces ++ 10 ∷ rest)))))),
    match_field-written c port ((d ∷ proto) ++ (b' ' ∷ ((n ∷ pt) ++ (spaces ++ 10 ∷ rest))))
        h.port_in,
    match_field-written d proto ((n ∷ pt) ++ (spaces ++ 10 ∷ rest)) h.proto_in,
    match_pt-written n pt spaces rest h.pt_in h.spaces_in,
  )

  no_match : (t : Text) → strip_prefix (lit "m=video ") t ≡ none → match_mline re t ≡ none
  no_match t e = ground arith

  video_text :
      (c : ℕ) (port : Text) (d : ℕ) (proto : Text) (n : ℕ) (pt spaces rest : Text)
      → line_text (video c port d proto n pt spaces) ++ 10 ∷ rest
        ≡ lit "m=video "
          ++ ((c ∷ port) ++ (b' ' ∷ ((d ∷ proto) ++ (b' ' ∷ ((n ∷ pt) ++ (spaces ++ 10 ∷ rest))))))
  video_text c port d proto n pt spaces rest = simp append_assoc

  -- The first video line of an answer of well-formed lines is the one that is found, with its port,
  -- its protocol and its payload type.
  pub mline-write : (ls : List Line) → All (IsWritten re) ls → mline re (write ls) ≡ first_video ls
  unfolding mline search_lines IsWritten strip_prefix
  mline-write [] h = refl
  mline-write (other [] ∷ ls) h = mline-write ls h.1
  mline-write (other (c ∷ t) ∷ ls) h =
      search_lines-miss (match_mline re) c t (write ls)
        (no_match (c ∷ (t ++ 10 ∷ write ls))
          (strip_prefix-line (lit "m=video ") (c ∷ t) (write ls) prefix-IsLine h.0.1))
        h.0.0
      ∙ mline-write ls h.1
  mline-write (video c port d proto n pt spaces ∷ ls) h =
      ap (search_lines (match_mline re) true) (video_text c port d proto n pt spaces (write ls))
      ∙ search_lines-hit (match_mline re) b'm'
          (lit "=video "
            ++ ((c ∷ port)
                ++ (b' ' ∷ ((d ∷ proto) ++ (b' ' ∷ ((n ∷ pt) ++ (spaces ++ 10 ∷ write ls)))))))
          (c ∷ port, d ∷ proto, n ∷ pt)
          (match_mline-written c port d proto n pt spaces (write ls) h.0)

  -- An answer of well-formed lines without a video line is refused. Another is left as it is, where
  -- its first video line has the wanted payload type and nothing is inactive, and else edited, from
  -- the port, the protocol and the payload type of that line.
  pub rewrite-write :
      (decimal : ℕ → Text) (ls : List Line) (pt : ℕ) (profile : Option Text)
      → All (IsWritten re) ls
      → rewrite_answer_for_real_codec_match re decimal (write ls) pt profile
        ≡ elim (first_video ls) [
          | none ↦ err value_error
          | some (port, proto, current_pt) ↦
              if current_pt == decimal pt && not (contains (lit "a=inactive") (write ls))
              then ok (write ls)
              else ok (edit re decimal (write ls) pt profile (port, proto, current_pt))
        ]
  unfolding rewrite_answer_for_real_codec_match
  rewrite-write decimal ls pt profile h = rw (mline-write ls h) (by_cases (first_video ls))
    where
      by_cases :
          (v : Option (Text × Text × Text))
          → rewrite_with re decimal (write ls) pt profile v ≡ elim v [
            | none ↦ err value_error
            | some (port, proto, current_pt) ↦
                if current_pt == decimal pt && not (contains (lit "a=inactive") (write ls))
                then ok (write ls)
                else ok (edit re decimal (write ls) pt profile (port, proto, current_pt))
          ]
      by_cases none = refl
      by_cases (some (port, proto, current_pt)) = refl
