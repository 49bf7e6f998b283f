-- ===== src/Robot/Sdp/Lines.antt =====
-- The replacements of robot-container/robot_agent/sdp_utils.py on a text of lines: each line is
-- edited on its own.
use cloud_robotics.Prelude.{
  ℕ, zero, suc, ◌-◌, ◌≤◌, Text, Option, none, some, Option-cases, inl, inr, List, [], ◌∷◌, ◌++◌,
  append_assoc, map, length, All, ◌≡◌, ◌≢◌, refl, ap, ◌∙◌, arith, Bool, true, false,
}
use cloud_robotics.Robot.Sdp.Scanning.{IsLine, IsLine-append}
use cloud_robotics.Robot.Sdp.Rewriting.{substitute}

-- The text of lines, each ended by a newline.
abbrev pub join : List Text → Text
join [] = []
join (l ∷ ls) = l ++ 10 ∷ join ls

-- A match that takes at least one character, none beyond its line, and looks no further.
pub record IsLocal (m : Text → Option ℕ) : Type 0 where
  pub newline : (t : Text) → m (10 ∷ t) ≡ none
  pub local : (s t : Text) → IsLine s → m (s ++ 10 ∷ t) ≡ m s
  pub within : (s : Text) (n : ℕ) → m s ≡ some n → n ≤ length s

-- Whether the pattern occurs nowhere in a text.
unfoldable pub is_quiet : (Text → Option ℕ) → Text → Bool
is_quiet m [] = true
is_quiet m (c ∷ t) = let rest = is_quiet m t in elim (m (c ∷ t)) [ none ↦ rest | some _ ↦ false ]

module _ (m : Text → Option ℕ) (new : Text) where
  substitute-miss :
      (c : ℕ) (t : Text) → m (c ∷ t) ≡ none → substitute m new 0 (c ∷ t) ≡ c ∷ substitute m new 0 t
  unfolding substitute
  substitute-miss c t e = ground arith

  substitute-hit :
      (c : ℕ) (t : Text) (n : ℕ)
      → m (c ∷ t) ≡ some n
      → substitute m new 0 (c ∷ t) ≡ new ++ substitute m new (n - 1) t
  unfolding substitute
  substitute-hit c t n e = ground arith

  substitute-line :
      IsLocal m
      → (s t : Text) (skip : ℕ) → IsLine s
      → skip ≤ length s
      → substitute m new skip (s ++ 10 ∷ t) ≡ substitute m new skip s ++ 10 ∷ substitute m new 0 t
  unfolding substitute
  substitute-line h [] t zero line le = rw (h.newline t) refl
  substitute-line h [] t (suc skip) line le = absurd (omega arith)
  substitute-line h (c ∷ s) t (suc skip) line le = substitute-line h s t skip line.1 (omega arith)
  substitute-line h (c ∷ s) t zero line le = elim (Option-cases (m (c ∷ s))) [
    | inl e ↦
        ground (arith, e, h.local (c ∷ s) t line, substitute-line h s t 0 line.1 (omega arith))
    | inr (n, e) ↦ ground (
      arith,
      e,
      h.local (c ∷ s) t line,
      append_assoc new (substitute m new (n - 1) s) (10 ∷ substitute m new 0 t),
      substitute-line h s t (n - 1) line.1 (omega (arith, h.within (c ∷ s) n e)),
    )
  ]

  -- Each line is edited on its own.
  pub substitute-join :
      IsLocal m
      → (ls : List Text) → All IsLine ls
      → substitute m new 0 (join ls) ≡ join (map (substitute m new 0) ls)
  substitute-join h [] lines = unfold substitute in refl
  substitute-join h (l ∷ ls) lines =
      substitute-line h l (join ls) 0 lines.0 (omega arith)
      ∙ ap (λ t. substitute m new 0 l ++ 10 ∷ t) (substitute-join h ls lines.1)

  substitute-IsLine :
      IsLine new → (s : Text) (skip : ℕ) → IsLine s → IsLine (substitute m new skip s)
  unfolding substitute
  substitute-IsLine h [] skip line = tt
  substitute-IsLine h (c ∷ s) (suc skip) line = substitute-IsLine h s skip line.1
  substitute-IsLine h (c ∷ s) zero line = elim (Option-cases (m (c ∷ s))) [
    | inl e ↦ rw (substitute-miss c s e) (line.0, substitute-IsLine h s 0 line.1)
    | inr (n, e) ↦
        rw (substitute-hit c s n e)
          (IsLine-append new (substitute m new (n - 1) s) h (substitute-IsLine h s (n - 1) line.1))
  ]

  pub lines-IsLine :
      IsLine new → (ls : List Text) → All IsLine ls → All IsLine (map (substitute m new 0) ls)
  lines-IsLine h [] lines = tt
  lines-IsLine h (l ∷ ls) lines = (substitute-IsLine h l 0 lines.0, lines-IsLine h ls lines.1)

  pub substitute-quiet : (t : Text) → is_quiet m t ≡ true → substitute m new 0 t ≡ t
  unfolding substitute is_quiet
  substitute-quiet [] h = refl
  substitute-quiet (c ∷ t) h = ground (arith, substitute-quiet t)

  substitute-skip : (p t : Text) → substitute m new (length p) (p ++ t) ≡ substitute m new 0 t
  unfolding substitute
  substitute-skip [] t = refl
  substitute-skip (c ∷ p) t = substitute-skip p t

  -- A text that starts with a match, and has no other.
  pub substitute-head :
      (p t : Text)
      → p ≢ []
      → m (p ++ t) ≡ some (length p)
      → is_quiet m t ≡ true
      → substitute m new 0 (p ++ t) ≡ new ++ t
  unfolding substitute
  substitute-head [] t ne e quiet = absurd (ne refl)
  substitute-head (c ∷ p) t ne e quiet =
      ground (arith, e, substitute-skip p t, substitute-quiet t quiet)
