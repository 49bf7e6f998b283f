-- ===== src/Backend/Mqtt/Retrying.antt =====
-- The retries of `connect` in cloud-container/backend/app/mqtt/service.py: how long it waits between
-- attempts, and when it is done.
use Prim.Native.Nat.{◌^◌}
use Prim.Native.Nat.pow
use cloud_robotics.Prelude.{
  ℕ, zero, suc, ◌+◌, ◌*◌, ◌≤◌, min, Bool, true, false, List, [], ◌∷◌, ◌++◌, length, All, ◌≡◌, refl,
  arith,
}
use cloud_robotics.Backend.Mqtt.{connect_from, connect}

abbrev pub sum : List ℕ → ℕ
sum [] = 0
sum (x ∷ xs) = x + sum xs

-- `n` attempts that raise, and the seconds of a back-off that doubles from the k-th power of two up
-- to 30.
abbrev pub failures : ℕ → List Bool
failures zero = []
failures (suc n) = false ∷ failures n

abbrev pub backoff : ℕ → ℕ → List ℕ
backoff k zero = []
backoff k (suc n) = min (2 ^ k) 30 ∷ backoff (suc k) n

doubled : (k : ℕ) → min (min (2 ^ k) 30 * 2) 30 ≡ min (2 ^ suc k) 30
doubled k = omega (arith, pow.suc 2 k)

-- The waits of `n` failures, from any step of the back-off.
fails_from :
    (k n : ℕ) (rest : List Bool)
    → (connect_from (min (2 ^ k) 30) (failures n ++ true ∷ rest) ≡ (backoff k n, true))
      × (connect_from (min (2 ^ k) 30) (failures n) ≡ (backoff k n, false))
unfolding connect_from
fails_from k zero rest = (refl, refl)
fails_from k (suc n) rest =
    let (done, waiting) = fails_from (suc k) n rest in
    rw (doubled k) (rw (done) refl, rw (waiting) refl)

-- After n failed attempts `connect` has waited n times, 1, 2, 4, 8, 16 and from then on 30 seconds;
-- it returns at the first attempt that succeeds, whatever later ones would do, and not before.
pub connect_returns :
    (n : ℕ) (rest : List Bool)
    → (connect (failures n ++ true ∷ rest) ≡ (backoff 0 n, true))
      × (connect (failures n) ≡ (backoff 0 n, false))
unfolding connect
connect_returns n rest = fails_from 0 n rest

waits_from :
    (d : ℕ) (attempts : List Bool)
    → 1 ≤ d
    → d ≤ 30
    → All (λ s. (1 ≤ s) × (s ≤ 30)) (connect_from d attempts).0
      × (sum (connect_from d attempts).0 ≤ 30 * length attempts)
unfolding connect_from
waits_from d [] lo hi = (tt, omega arith)
waits_from d (true ∷ attempts) lo hi = (tt, omega arith)
waits_from d (false ∷ attempts) lo hi =
    let (each, total) = waits_from (min (d * 2) 30) attempts (omega arith) (omega arith) in
    (((lo, hi), each), omega (arith, total))

-- Whatever the attempts do, each wait is of 1 to 30 seconds, and all of them together are at most 30
-- seconds for each attempt.
pub waits_bounded :
    (attempts : List Bool)
    → All (λ s. (1 ≤ s) × (s ≤ 30)) (connect attempts).0
      × (sum (connect attempts).0 ≤ 30 * length attempts)
unfolding connect
waits_bounded attempts = waits_from 1 attempts (omega arith) (omega arith)
