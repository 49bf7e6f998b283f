-- ===== src/Robot/Watchdog.antt =====
-- robot-container/robot_agent/watchdog.py: one round of the loop for each check, at the loop's
-- clock. What the loop reads of the world in a round is a `Check`.
pub mod Outage
use cloud_robotics.Prelude.{
  ℕ, ◌-◌, Bool, true, false, Option, none, some, List, [], ◌∷◌, leb, if◌then◌else◌,
}

-- `loop.time()`, `_is_connected()` and whether `on_unhealthy()`, if it is called, returns.
pub record Check : Type 0 where
  pub now : ℕ
  pub connected : Bool
  pub restart_returns : Bool

-- What a round does: `_disconnected_since` after it, and whether it asked for a restart; a restart
-- that raises leaves the loop.
pub data Round : Type 0 where
  quiet : Option ℕ → Round
  restarted : Round
  raised : Round

abbrev or_now : Option ℕ → ℕ → ℕ
or_now none now = now
or_now (some t) now = t

unfoldable pub round : ℕ → Option ℕ → Check → Round
round unhealthy_after since c =
    if c.connected
    then quiet none
    else if leb unhealthy_after (c.now - or_now since c.now)
    then (if c.restart_returns then restarted else raised)
    else quiet (some (or_now since c.now))

abbrev continue : Round → (Option ℕ → List Bool) → List Bool
continue (quiet since) rest = false ∷ rest since
continue restarted rest = true ∷ rest none
continue raised rest = true ∷ []

-- `run`, until the checks end: whether each round asked for a restart.
pub run : ℕ → Option ℕ → List Check → List Bool
unfolding round
run unhealthy_after since [] = []
run unhealthy_after since (c ∷ checks) =
    continue (round unhealthy_after since c) (λ s. run unhealthy_after s checks)
