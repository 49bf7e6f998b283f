-- ===== src/Robot/Sdp/Patterns.antt =====
-- The patterns that robot-container/robot_agent/sdp_utils.py replaces match within a line.
use cloud_robotics.Prelude.{
  ℕ, ◌+◌, ◌≤◌, Text, Bool, true, not, Option, none, some, [], ◌∷◌, ◌++◌, length, ◌≡◌, refl, sym, ap,
  ◌∙◌, arith,
}
use cloud_robotics.Backend.Topics.{strip_prefix}
use cloud_robotics.Robot.Sdp.{span}
use cloud_robotics.Robot.Sdp.Scanning.{IsLine}
use cloud_robotics.Robot.Sdp.Rewriting.{starts_with, match_word}
use cloud_robotics.Robot.Sdp.Lines.{IsLocal}

-- What a prefix leaves of a text that goes on behind its line.
abbrev go_on : Text → Option Text → Option Text
go_on t none = none
go_on t (some r) = some (r ++ 10 ∷ t)

strip_prefix-local :
    (p s t : Text) → IsLine p → strip_prefix p (s ++ 10 ∷ t) ≡ go_on t (strip_prefix p s)
unfolding strip_prefix
strip_prefix-local [] s t h = refl
strip_prefix-local (c ∷ p) [] t h = ground (arith, h.0)
strip_prefix-local (c ∷ p) (d ∷ s) t h = ground (arith, strip_prefix-local p s t h.1)

strip_prefix-length : (p s r : Text) → strip_prefix p s ≡ some r → length p + length r ≡ length s
unfolding strip_prefix
strip_prefix-length [] s r h = ground arith
strip_prefix-length (c ∷ p) [] r h = cc
strip_prefix-length (c ∷ p) (d ∷ s) r h = ground (arith, strip_prefix-length p s r)

span-local :
    (is_space : ℕ → Bool) (s t : Text)
    → is_space 10 ≡ true
    → (span (λ c. not (is_space c)) (s ++ 10 ∷ t)).0 ≡ (span (λ c. not (is_space c)) s).0
unfolding span
span-local is_space [] t h = rw h refl
span-local is_space (c ∷ s) t h = ground (arith, span-local is_space s t h)

span-within : (test : ℕ → Bool) (s : Text) → length (span test s).0 ≤ length s
unfolding span
span-within test [] = omega arith
span-within test (c ∷ s) = ground (arith, span-within test s)

strip_prefix-newline : (c : ℕ) (p t : Text) → IsLine (c ∷ p) → strip_prefix (c ∷ p) (10 ∷ t) ≡ none
unfolding strip_prefix
strip_prefix-newline c p t h = ground (arith, h.0)

-- The characters of a prefix, where it is there.
abbrev taken : ℕ → Option Text → Option ℕ
taken n none = none
taken n (some rest) = some n

starts_with-eq : (p s : Text) → starts_with p s ≡ taken (length p) (strip_prefix p s)
starts_with-eq p s = ground arith

taken-local : (n : ℕ) (t : Text) (o : Option Text) → taken n (go_on t o) ≡ taken n o
taken-local n t none = refl
taken-local n t (some rest) = refl

pub starts_with-IsLocal : (c : ℕ) (p : Text) → IsLine (c ∷ p) → IsLocal (starts_with (c ∷ p))
starts_with-IsLocal c p h = record {
  newline = λ t.
      starts_with-eq (c ∷ p) (10 ∷ t) ∙ ap (taken (length (c ∷ p))) (strip_prefix-newline c p t h);
  local = λ s t line.
      starts_with-eq (c ∷ p) (s ++ 10 ∷ t)
      ∙ ap (taken (length (c ∷ p))) (strip_prefix-local (c ∷ p) s t h)
      ∙ taken-local (length (c ∷ p)) t (strip_prefix (c ∷ p) s)
      ∙ sym (starts_with-eq (c ∷ p) s);
  within = λ s n e. within s n (strip_prefix (c ∷ p) s) refl (sym (starts_with-eq (c ∷ p) s) ∙ e);
}
  where
    within :
        (s : Text) (n : ℕ) (o : Option Text)
        → strip_prefix (c ∷ p) s ≡ o
        → taken (length (c ∷ p)) (strip_prefix (c ∷ p) s) ≡ some n
        → n ≤ length s
    within s n none e h = let q : none ≡ some n = ap (taken (length (c ∷ p))) (sym e) ∙ h in cc
    within s n (some rest) e h =
        let q : some (length (c ∷ p)) ≡ some n = ap (taken (length (c ∷ p))) (sym e) ∙ h in
        let size = strip_prefix-length (c ∷ p) s rest e in ground arith

module _ (is_space : ℕ → Bool) (newline : is_space 10 ≡ true) where
  -- The characters of a match, from what the prefix leaves.
  abbrev word_size : ℕ → Text → Option ℕ
  word_size n [] = none
  word_size n (c ∷ word) = some (n + length (c ∷ word))

  abbrev size : ℕ → Option Text → Option ℕ
  size n none = none
  size n (some rest) = word_size n (span (λ c. not (is_space c)) rest).0

  match_word-eq : (p s : Text) → match_word is_space p s ≡ size (length p) (strip_prefix p s)
  match_word-eq p s = ground arith

  size-local : (n : ℕ) (t : Text) (o : Option Text) → size n (go_on t o) ≡ size n o
  size-local n t none = refl
  size-local n t (some rest) = ap (word_size n) (span-local is_space rest t newline)

  size-within : (k n : ℕ) (rest : Text) → size k (some rest) ≡ some n → n ≤ k + length rest
  size-within k n rest e = ground (arith, span-within (λ c. not (is_space c)) rest)

  pub match_word-IsLocal :
      (c : ℕ) (p : Text) → IsLine (c ∷ p) → IsLocal (match_word is_space (c ∷ p))
  match_word-IsLocal c p h = record {
    newline = λ t.
        match_word-eq (c ∷ p) (10 ∷ t) ∙ ap (size (length (c ∷ p))) (strip_prefix-newline c p t h);
    local = λ s t line.
        match_word-eq (c ∷ p) (s ++ 10 ∷ t)
        ∙ ap (size (length (c ∷ p))) (strip_prefix-local (c ∷ p) s t h)
        ∙ size-local (length (c ∷ p)) t (strip_prefix (c ∷ p) s)
        ∙ sym (match_word-eq (c ∷ p) s);
    within = λ s n e. within s n (strip_prefix (c ∷ p) s) refl (sym (match_word-eq (c ∷ p) s) ∙ e);
  }
    where
      within :
          (s : Text) (n : ℕ) (o : Option Text)
          → strip_prefix (c ∷ p) s ≡ o
          → size (length (c ∷ p)) (strip_prefix (c ∷ p) s) ≡ some n
          → n ≤ length s
      within s n none e h = let q : none ≡ some n = ap (size (length (c ∷ p))) (sym e) ∙ h in cc
      within s n (some rest) e h = omega (
        arith,
        strip_prefix-length (c ∷ p) s rest e,
        size-within (length (c ∷ p)) n rest (ap (size (length (c ∷ p))) (sym e) ∙ h),
      )
