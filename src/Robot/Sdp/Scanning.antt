-- ===== src/Robot/Sdp/Scanning.antt =====
-- The rtpmap entries that robot-container/robot_agent/sdp_utils.py reads in a text of lines.
use cloud_robotics.Prelude.{
  ℕ, suc, ◌+◌, Text, lit, Bool, Bool-cases, inl, inr, true, false, nat_beq, Option, none, some,
  List, [], ◌∷◌, ◌++◌, append_assoc, length, length-append, All, All-append, ◌≡◌, refl, ap, ◌∙◌,
  arith,
}
use cloud_robotics.Backend.Topics.{strip_prefix}
use cloud_robotics.Robot.Sdp.{Classes, span, find_lines, match_rtpmap, is_name, rtpmaps}

-- No newline in a text.
abbrev pub IsLine : Text → Type 0
IsLine t = All (λ c. nat_beq c 10 ≡ false) t

pub IsLine-append : (s t : Text) → IsLine s → IsLine t → IsLine (s ++ t)
IsLine-append s t h k = All-append (λ c. nat_beq c 10 ≡ false) s t h k

module _ {A : Type 0} (m : Text → Option (A × ℕ)) where
  -- The characters of a match are passed over.
  find_lines-skip :
      (s t : Text) → IsLine s → find_lines m false (length s) (s ++ t) ≡ find_lines m false 0 t
  unfolding find_lines
  find_lines-skip [] t h = refl
  find_lines-skip (c ∷ s) t h = rw (h.0) (find_lines-skip s t h.1)

  -- Behind the start of a line, nothing matches up to the next.
  find_lines-rest :
      (s t : Text) → IsLine s → find_lines m false 0 (s ++ 10 ∷ t) ≡ find_lines m true 0 t
  unfolding find_lines
  find_lines-rest [] t h = refl
  find_lines-rest (c ∷ s) t h = rw (h.0) (find_lines-rest s t h.1)

  -- At the start of a line, a match is taken and passed over; without one the line is passed over.
  find_lines-hit :
      (c : ℕ) (a : A) (n : ℕ) (s t : Text)
      → m (c ∷ (s ++ t)) ≡ some (a, n)
      → nat_beq c 10 ≡ false
      → IsLine s
      → n ≡ suc (length s)
      → find_lines m true 0 (c ∷ (s ++ t)) ≡ a ∷ find_lines m false 0 t
  unfolding find_lines
  find_lines-hit c a n s t e h line size = ground (arith, find_lines-skip s t line)

  find_lines-miss :
      (c : ℕ) (s t : Text)
      → m (c ∷ (s ++ 10 ∷ t)) ≡ none
      → IsLine (c ∷ s)
      → find_lines m true 0 (c ∷ (s ++ 10 ∷ t)) ≡ find_lines m true 0 t
  unfolding find_lines
  find_lines-miss c s t e line = ground (arith, line.0, find_lines-rest s t line.1)

pub span-run :
    (test : ℕ → Bool) (run : Text) (c : ℕ) (rest : Text)
    → All (λ x. test x ≡ true) run
    → test c ≡ false
    → span test (run ++ c ∷ rest) ≡ (run, c ∷ rest)
unfolding span
span-run test [] c rest h stop = rw (stop) refl
span-run test (x ∷ run) c rest h stop = rw (h.0, span-run test run c rest h.1 stop) refl

pub strip_prefix-append : (p t : Text) → strip_prefix p (p ++ t) ≡ some t
unfolding strip_prefix
strip_prefix-append [] t = refl
strip_prefix-append (c ∷ p) t = ground (arith, strip_prefix-append p t)

pub strip_prefix-line :
    (p s t : Text) → IsLine p → strip_prefix p s ≡ none → strip_prefix p (s ++ 10 ∷ t) ≡ none
unfolding strip_prefix
strip_prefix-line [] s t h e = absurd (ground arith)
strip_prefix-line (c ∷ p) [] t h e = rw (h.0) refl
strip_prefix-line (c ∷ p) (d ∷ s) t h e = elim (Bool-cases (nat_beq c d)) [
  | inl same ↦ rw (same) (strip_prefix-line p s t h.1 (ground arith))
  | inr other ↦ rw (other) refl
]

-- What Python's `re` says of its classes.
pub record AreClasses (re : Classes) : Type 0 where
  pub space_no_digit : (c : ℕ) → re.is_space c ≡ true → re.is_digit c ≡ false
  pub name_no_space : (c : ℕ) → is_name re c ≡ true → re.is_space c ≡ false
  pub slash_no_name : is_name re b'/' ≡ false

-- A line of a description: an rtpmap entry, its digits, spaces and name not empty, or another.
pub data Line : Type 0 where
  rtpmap : (d : ℕ) (ds : Text) (s : ℕ) (ss : Text) (n : ℕ) (ns : Text) (tail : Text) → Line
  other : Text → Line

abbrev pub line_text : Line → Text
line_text (rtpmap d ds s ss n ns tail) =
    lit "a=rtpmap:" ++ ((d ∷ ds) ++ ((s ∷ ss) ++ ((n ∷ ns) ++ (b'/' ∷ tail))))
line_text (other t) = t

-- The text of the lines, each ended by a newline.
abbrev pub write : List Line → Text
write [] = []
write (l ∷ ls) = line_text l ++ 10 ∷ write ls

-- The numbers and the names of the rtpmap entries.
abbrev pub entries : List Line → List (Text × Text)
entries [] = []
entries (rtpmap d ds s ss n ns tail ∷ ls) = (d ∷ ds, n ∷ ns) ∷ entries ls
entries (other t ∷ ls) = entries ls

abbrev pub AllIn : (ℕ → Bool) → Text → Type 0
AllIn test t = All (λ c. test c ≡ true) t

pub record IsEntry (re : Classes) (digits spaces name tail : Text) : Type 0 where
  pub digits_in : AllIn re.is_digit digits
  pub spaces_in : AllIn re.is_space spaces
  pub name_in : AllIn (is_name re) name
  pub digits_line : IsLine digits
  pub spaces_line : IsLine spaces
  pub name_line : IsLine name
  pub tail_line : IsLine tail

unfoldable pub IsWritten : Classes → Line → Type 0
IsWritten re (rtpmap d ds s ss n ns tail) = IsEntry re (d ∷ ds) (s ∷ ss) (n ∷ ns) tail
IsWritten re (other t) = IsLine t × (strip_prefix (lit "a=rtpmap:") t ≡ none)

prefix-IsLine : IsLine (lit "a=rtpmap:")
prefix-IsLine = (refl, (refl, (refl, (refl, (refl, (refl, (refl, (refl, (refl, tt)))))))))

module _ (re : Classes) (laws : AreClasses re) where
  match_entry :
      (d : ℕ) (ds : Text) (s : ℕ) (ss : Text) (n : ℕ) (ns tail rest : Text)
      → IsEntry re (d ∷ ds) (s ∷ ss) (n ∷ ns) tail
      → match_rtpmap re (lit "a=rtpmap:" ++ ((d ∷ ds) ++ ((s ∷ ss) ++ ((n ∷ ns) ++ (b'/' ∷ rest)))))
        ≡ some ((d ∷ ds, n ∷ ns), 9 + length (d ∷ ds) + length (s ∷ ss) + length (n ∷ ns) + 1)
  match_entry d ds s ss n ns tail rest h = ground (
    arith,
    strip_prefix-append (lit "a=rtpmap:") ((d ∷ ds) ++ ((s ∷ ss) ++ ((n ∷ ns) ++ (b'/' ∷ rest)))),
    span-run re.is_digit (d ∷ ds) s (ss ++ ((n ∷ ns) ++ (b'/' ∷ rest))) h.digits_in
        (laws.space_no_digit s h.spaces_in.0),
    span-run re.is_space (s ∷ ss) n (ns ++ (b'/' ∷ rest)) h.spaces_in
        (laws.name_no_space n h.name_in.0),
    span-run (is_name re) (n ∷ ns) b'/' rest h.name_in laws.slash_no_name,
  )

  -- Behind its first character, an entry up to its slash.
  abbrev after_a : Text → Text → Text → Text
  after_a digits spaces name = lit "=rtpmap:" ++ (digits ++ (spaces ++ (name ++ (b'/' ∷ []))))

  after_a-length :
      (digits spaces name : Text)
      → 9 + length digits + length spaces + length name + 1
        ≡ suc (length (after_a digits spaces name))
  after_a-length digits spaces name = omega (
    arith,
    length-append digits (spaces ++ (name ++ (b'/' ∷ []))),
    length-append spaces (name ++ (b'/' ∷ [])),
    length-append name (b'/' ∷ []),
  )

  entry_shape :
      (digits spaces name u : Text)
      → b'a' ∷ (after_a digits spaces name ++ u)
        ≡ lit "a=rtpmap:" ++ (digits ++ (spaces ++ (name ++ (b'/' ∷ u))))
  entry_shape digits spaces name u = simp append_assoc

  entry_text :
      (d : ℕ) (ds : Text) (s : ℕ) (ss : Text) (n : ℕ) (ns tail rest : Text)
      → line_text (rtpmap d ds s ss n ns tail) ++ rest
        ≡ b'a' ∷ (after_a (d ∷ ds) (s ∷ ss) (n ∷ ns) ++ (tail ++ rest))
  entry_text d ds s ss n ns tail rest = simp append_assoc

  after_a-IsLine :
      (digits spaces name tail : Text)
      → IsEntry re digits spaces name tail
      → IsLine (after_a digits spaces name)
  after_a-IsLine digits spaces name tail h =
      IsLine-append (lit "=rtpmap:") (digits ++ (spaces ++ (name ++ (b'/' ∷ [])))) prefix-IsLine.1 (
        IsLine-append digits (spaces ++ (name ++ (b'/' ∷ []))) h.digits_line (
          IsLine-append spaces (name ++ (b'/' ∷ [])) h.spaces_line
            (IsLine-append name (b'/' ∷ []) h.name_line (refl, tt))))

  no_match : (t : Text) → strip_prefix (lit "a=rtpmap:") t ≡ none → match_rtpmap re t ≡ none
  no_match t e = ground arith

  find_entry :
      (d : ℕ) (ds : Text) (s : ℕ) (ss : Text) (n : ℕ) (ns tail rest : Text)
      → IsEntry re (d ∷ ds) (s ∷ ss) (n ∷ ns) tail
      → find_lines (match_rtpmap re) true 0 (line_text (rtpmap d ds s ss n ns tail) ++ 10 ∷ rest)
        ≡ (d ∷ ds, n ∷ ns) ∷ find_lines (match_rtpmap re) true 0 rest
  find_entry d ds s ss n ns tail rest h =
      ap (find_lines (match_rtpmap re) true 0) (entry_text d ds s ss n ns tail (10 ∷ rest))
      ∙ find_lines-hit (match_rtpmap re) b'a' (d ∷ ds, n ∷ ns)
          (9 + length (d ∷ ds) + length (s ∷ ss) + length (n ∷ ns) + 1)
          (after_a (d ∷ ds) (s ∷ ss) (n ∷ ns)) (tail ++ 10 ∷ rest)
          (ap (match_rtpmap re) (entry_shape (d ∷ ds) (s ∷ ss) (n ∷ ns) (tail ++ 10 ∷ rest))
            ∙ match_entry d ds s ss n ns tail (tail ++ 10 ∷ rest) h)
          refl (after_a-IsLine (d ∷ ds) (s ∷ ss) (n ∷ ns) tail h)
          (after_a-length (d ∷ ds) (s ∷ ss) (n ∷ ns))
      ∙ ap (λ xs. (d ∷ ds, n ∷ ns) ∷ xs) (find_lines-rest (match_rtpmap re) tail rest h.tail_line)

  -- The entries of a text of well-formed lines are found, each once and in order, with their number
  -- and their name, and nothing else is.
  pub rtpmaps-write : (ls : List Line) → All (IsWritten re) ls → rtpmaps re (write ls) ≡ entries ls
  unfolding rtpmaps find_lines IsWritten strip_prefix
  rtpmaps-write [] h = refl
  rtpmaps-write (other [] ∷ ls) h = rtpmaps-write ls h.1
  rtpmaps-write (other (c ∷ t) ∷ ls) h =
      find_lines-miss (match_rtpmap re) c t (write ls)
        (no_match (c ∷ (t ++ 10 ∷ write ls))
          (strip_prefix-line (lit "a=rtpmap:") (c ∷ t) (write ls) prefix-IsLine h.0.1))
        h.0.0
      ∙ rtpmaps-write ls h.1
  rtpmaps-write (rtpmap d ds s ss n ns tail ∷ ls) h =
      find_entry d ds s ss n ns tail (write ls) h.0
      ∙ ap (λ xs. (d ∷ ds, n ∷ ns) ∷ xs) (rtpmaps-write ls h.1)
