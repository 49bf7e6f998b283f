-- ===== src/Robot/Watchdog/Outage.antt =====
-- robot-container/robot_agent/watchdog.py: what the rounds of one outage do.
use cloud_robotics.Prelude.{
  ℕ, ◌≤◌, ◌<◌, ◌+◌, ◌≡◌, refl, Bool, true, false, Option, none, some, List, [], ◌∷◌, ◌++◌, map, All,
  arith,
}
use cloud_robotics.Robot.Watchdog.{Check, round, run}

-- A check that finds the connection down, before `limit`.
abbrev pub IsDownBefore : ℕ → Check → Type 0
IsDownBefore limit c = (c.connected ≡ false) × (c.now < limit)

-- No restart for a check.
abbrev pub no_restart : Check → Bool
no_restart _ = false

run_since :
    (u start : ℕ) (checks later : List Check)
    → All (IsDownBefore (start + u)) checks
    → 0 < u
    → run u (some start) (checks ++ later) ≡ map no_restart checks ++ run u (some start) later
unfolding run round
run_since u start [] later hs hu = refl
run_since u start (c ∷ checks) later hs hu = ground (arith, run_since u start checks later hs.1 hu)

-- Where the check before found the connection up, or there is none, and the first check finds it
-- down, and the threshold is positive, no check asks for a restart before the threshold has passed since then,
-- and the first one after it, if it still finds the connection down, does; if that restart returns,
-- the next outage is measured anew.
pub run-outage :
    (u : ℕ) (first : Check) (during : List Check) (last : Check) (later : List Check)
    → 0 < u
    → first.connected ≡ false
    → All (IsDownBefore (first.now + u)) during
    → last.connected ≡ false
    → first.now + u ≤ last.now
    → last.restart_returns ≡ true
    → run u none (first ∷ during ++ last ∷ later)
      ≡ false ∷ map no_restart during ++ true ∷ run u none later
unfolding run round
run-outage u first during last later hu hf hd hl ht hr =
    ground (arith, run_since u first.now during (last ∷ later) hd hu)

-- A check that finds the connection up forgets the outage: however long it was, the rounds that
-- follow are those of a watchdog that has seen none.
pub run-connected :
    (u : ℕ) (since : Option ℕ) (c : Check) (later : List Check)
    → c.connected ≡ true
    → run u since (c ∷ later) ≡ false ∷ run u none later
unfolding run round
run-connected u since c later h = ground arith
