-- ===== src/Backend/Registry/Keys.antt =====
-- The Redis keys of cloud-container/backend/app/registry/store.py.
use cloud_robotics.Prelude.{ℕ, Text, ◌++◌, ◌≡◌, refl, [], ◌∷◌, arith}
use cloud_robotics.Backend.Topics.Parsing.{Lacks}
use cloud_robotics.Backend.Registry.{key}

not-Lacks-append : (c : ℕ) (s f : Text) → Lacks c (s ++ (c ∷ f)) → ⊥
not-Lacks-append c [] f h = h.0 refl
not-Lacks-append c (x ∷ s) f h = not-Lacks-append c s f h.1

-- Two texts that are split at the last `c` have the same parts.
pub split_unique :
    (c : ℕ) (r s f g : Text)
    → Lacks c f
    → Lacks c g
    → r ++ (c ∷ f) ≡ s ++ (c ∷ g)
    → (r ≡ s) × (f ≡ g)
split_unique c [] [] f g hf hg e = ground arith
split_unique c [] (y ∷ s) f g hf hg e =
    let same : f ≡ s ++ (c ∷ g) = ground arith in absurd (not-Lacks-append c s g (rw same at hf))
split_unique c (x ∷ r) [] f g hf hg e =
    let same : g ≡ r ++ (c ∷ f) = ground arith in absurd (not-Lacks-append c r f (rw same at hg))
split_unique c (x ∷ r) (y ∷ s) f g hf hg e = ground (arith, split_unique c r s f g hf hg)

-- Two registry keys are equal only for one robot and one field, when the fields have no colon; so
-- no robot id, with colons or without, can reach another robot's state.
pub key_injective :
    (r s f g : Text) → Lacks b':' f → Lacks b':' g → key r f ≡ key s g → (r ≡ s) × (f ≡ g)
unfolding key
key_injective r s f g hf hg e = split_unique b':' r s f g hf hg (ground arith)
