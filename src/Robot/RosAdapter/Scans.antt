-- ===== src/Robot/RosAdapter/Scans.antt =====
-- A LIDAR scan from its ROS message to the packet that the agent publishes
-- (real_ros_adapter.py, robot-container/robot_agent/agent.py).
use cloud_robotics.Prelude.{
  Text, lit, ◌==◌, ◌≡◌, refl, ap, false, Option, none, some, List, [], ◌∷◌, ◌++◌, map, arith,
  if◌then◌else◌,
}
use cloud_robotics.Prelude.Int.{ℤ}
use cloud_robotics.Json.{Json, Items, nil, cons, null, num, arr, obj, numbers, find}
use cloud_robotics.Backend.World.{Packet}
use cloud_robotics.Robot.Models.{LaserScanData}
use cloud_robotics.Robot.Agent.{Agent, publish, packet, on_lidar_scan}
use cloud_robotics.Robot.Agent.Publishing.{publish_lidar_scan}
use cloud_robotics.Robot.RosAdapter.{
  Floats, Adapter, LaserScan, reading, subscribe_lidar, handle_laser_scan,
}

-- What a reading is in JSON: null where nothing was detected, and the rounded distance elsewhere.
abbrev pub reading_json : {F : Type 0} → Floats F → List F → Items
reading_json floats [] = nil
reading_json floats (r ∷ rs) =
    cons (if floats.is_finite r then num (floats.round3 r) else null) (reading_json floats rs)

-- `get` of a payload.
abbrev pub get : Json → Text → Option Json
get (obj fs) key = find fs key
get _ key = none

numbers-reading :
    {F : Type 0} (floats : Floats F) (rs : List F)
    → numbers (map (reading floats) rs) ≡ reading_json floats rs
numbers-reading floats [] = refl
numbers-reading floats (r ∷ rs) = ground (arith, numbers-reading floats rs)

-- A scan that arrives once the agent has subscribed to the LIDAR, cached and then published at the
-- next tick: the packet has one reading for each of the message's, in their order, a null for every
-- one that is not finite and the rounded distance for every other.
pub lidar_published :
    {F : Type 0} (floats : Floats F) (msg : LaserScan F) (adapter : Adapter F) (now : ℤ) (a : Agent)
    → (scan : LaserScanData) × (handle_laser_scan floats msg (subscribe_lidar adapter) ≡ some scan)
      × (p : Packet) × ((publish_lidar_scan now (on_lidar_scan scan a)).mqtt
          ≡ a.mqtt ++ publish p ∷ [])
      × (get p.payload (lit "ranges") ≡ some (arr (reading_json floats msg.ranges)))
unfolding handle_laser_scan subscribe_lidar publish_lidar_scan on_lidar_scan find ◌==◌
lidar_published floats msg adapter now a = (
  _,
  refl,
  packet _ _ 0 false,
  refl,
  ap (λ (xs : Items). some (arr xs)) (numbers-reading floats msg.ranges),
)
