-- ===== src/Robot/MockAdapter/Ranges.antt =====
-- The ranges of the numbers that robot-container/robot_agent/mock_ros_adapter.py makes up.
use cloud_robotics.Prelude.{
  ℕ, zero, suc, ◌≤◌, true, false, List, [], ◌∷◌, length, All, ◌≡◌, refl, arith, map, some,
}
use cloud_robotics.Robot.MockAdapter.{
  Math, MockAdapter, Event, timer, cmd_vel, clamped, readings, synthetic_scan, tick, run,
  publish_cmd_vel, distance,
}

-- How floats that are numbers compare: `<` is asymmetric and a chain of `≤` is one, literals are in
-- the order of their thousandths, and a number less 0.01 is no more than it.
pub record IsOrdered {F : Type 0} (m : Math F) : Type 0 where
  pub asym : (a b : F) → m.lt a b ≡ true → m.lt b a ≡ false
  pub trans : (a b c : F) → m.lt b a ≡ false → m.lt c b ≡ false → m.lt c a ≡ false
  pub literals : (i j : ℕ) → i ≤ j → m.lt (m.literal j) (m.literal i) ≡ false
  pub sub_le : (a : F) → m.lt a (m.sub a (m.literal 10)) ≡ false

-- `a ≤ b`
abbrev pub Le : {F : Type 0} → Math F → F → F → Type 0
Le m a b = m.lt b a ≡ false

module _ {F : Type 0} (m : Math F) (o : IsOrdered m) where
  le_refl : (a : F) → Le m a a
  le_refl a = ground (arith, o.asym a a)

  clamped-bounds :
      (d : F) → Le m (m.literal 120) (clamped m d) × Le m (clamped m d) (m.literal 3500)
  clamped-bounds d = ground (
    arith,
    le_refl (m.literal 120),
    le_refl (m.literal 3500),
    o.literals 120 3500 (omega arith),
    o.asym d (m.literal 3500),
    o.asym (m.literal 120) d,
  )

  readings-bounds :
      (increment phase : F) (n left : ℕ)
      → (length (readings m increment phase n left) ≡ left)
        × All
            (λ d. Le m (m.literal 120) d × Le m d (m.literal 3500))
            (readings m increment phase n left)
  unfolding readings
  readings-bounds increment phase n zero = (refl, tt)
  readings-bounds increment phase n (suc left) =
      let (count, each) = readings-bounds increment phase (suc n) left in
      (
        omega (arith, count),
        (clamped-bounds (distance m (m.mul (m.of_int n) increment) phase), each),
      )

  -- A scan has 360 readings, each the rounding of a distance from 0.12 to 3.5 metres.
  pub scan-bounds :
      (a : MockAdapter F)
      → (ds : List F) × ((synthetic_scan m a).0.ranges ≡ map (λ d. some (m.round3 d)) ds)
        × (length ds ≡ 360)
        × All (λ d. Le m (m.literal 120) d × Le m d (m.literal 3500)) ds
  unfolding synthetic_scan
  scan-bounds a =
      let phase = m.add a.scan_phase (m.literal 50) in
      let increment = m.div (m.mul (m.of_int 2) m.pi) (m.of_int 360) in
      let (count, each) = readings-bounds increment phase 0 360 in
      (readings m increment phase 0 360, refl, count, each)

  tick-battery :
      (a : MockAdapter F)
      → Le m (m.literal 0) a.battery_percentage
      → Le m (m.literal 0) (tick m a).1.battery_percentage
        × Le m (tick m a).1.battery_percentage a.battery_percentage
  unfolding tick synthetic_scan
  tick-battery a h = ground (
    arith,
    le_refl (m.literal 0),
    le_refl a.battery_percentage,
    o.sub_le a.battery_percentage,
    o.asym (m.literal 0) (m.sub a.battery_percentage (m.literal 10)),
  )

  -- From a charge that is not negative, whatever the ticks and the velocities, the charge never
  -- rises and never falls below 0.
  pub run-battery :
      (events : List (Event F)) (a : MockAdapter F)
      → Le m (m.literal 0) a.battery_percentage
      → Le m (m.literal 0) (run m events a).battery_percentage
        × Le m (run m events a).battery_percentage a.battery_percentage
  unfolding run publish_cmd_vel
  run-battery [] a h = (h, le_refl a.battery_percentage)
  run-battery (timer ∷ events) a h =
      let (low, high) = tick-battery a h in
      let (low', high') = run-battery events (tick m a).1 low in (low', o.trans _ _ _ high' high)
  run-battery (cmd_vel linear angular ∷ events) a h =
      run-battery events (publish_cmd_vel linear angular a) h
