-- ===== src/Prelude/Int.antt =====
-- Python's `int`, and its `float` in thousandths: the operations that the program uses.
use Prim.Native.Nat.{ℕ, zero, suc}
use mathlib.Core.Bool.{Bool, true, false}

-- `negsuc n` is -(n + 1).
pub data ℤ : Type 0 where
  pos : ℕ → ℤ
  negsuc : ℕ → ℤ

-- -x
unfoldable pub neg : ℤ → ℤ
neg (pos zero) = pos 0
neg (pos (suc n)) = negsuc n
neg (negsuc n) = pos (suc n)

-- max(x, 0)
abbrev pub pos_part : ℤ → ℕ
pos_part (pos n) = n
pos_part (negsuc n) = 0

-- Python's `bool(x)`.
abbrev pub is_nonzero : ℤ → Bool
is_nonzero (pos n) = elim n [ zero ↦ false | suc _ ↦ true ]
is_nonzero (negsuc n) = true
