-- ===== src/Robot/RosAdapter/Lifecycle.antt =====
-- robot-container/ros_ws/src/robot_cloud_bridge/robot_cloud_bridge/real_ros_adapter.py: `start` and
-- `stop`. rclpy is outside; whether it makes a node is an argument.
use cloud_robotics.Prelude.{
  ℕ, Text, lit, Bool, true, false, List, [], ◌∷◌, ◌++◌, ◌≡◌, refl, if◌then◌else◌,
}
use cloud_robotics.Exec.{Exec, ok, err, modify, ◌>>◌, runtime_error}

pub data Call : Type 0 where
  init shutdown_executor join_thread destroy_node shutdown : Call

-- What is set of the attributes, the subscriptions of the node with their depths, and the calls.
pub record Bridge : Type 0 where
  pub has_node : Bool
  pub has_publisher : Bool
  pub subscriptions : List (Text × ℕ)
  pub has_executor : Bool
  pub has_thread : Bool
  pub calls : List Call

abbrev pub unstarted : Bridge
unstarted = record {
  has_node = false;
  has_publisher = false;
  subscriptions = [];
  has_executor = false;
  has_thread = false;
  calls = [];
}

abbrev called : Call → Bridge → Bridge
called c b = record b { calls = b.calls ++ c ∷ [] }

abbrev create_node : Bool → Exec Bridge (Unit {0})
create_node made b = if made then (ok tt, record b { has_node = true }) else (err runtime_error, b)

abbrev subscribe : Bridge → Bridge
subscribe b = record b {
  has_publisher = true;
  subscriptions =
      (lit "/odom", 10) ∷ (lit "/camera/image_raw", 1) ∷ (lit "/scan", 1) ∷ b.subscriptions;
}

unfoldable pub start : Bool → Exec Bridge (Unit {0})
start node_made = do
  modify (called init)
  create_node node_made
  modify subscribe
  modify (λ b. record b { has_executor = true; has_thread = true })

-- A call under its `if`.
abbrev pub call_if : Bool → Call → Bridge → Bridge
call_if set c b = if set then called c b else b

unfoldable pub stop : Bridge → Bridge
stop b = called shutdown (
    call_if b.has_node destroy_node
      (call_if b.has_thread join_thread (call_if b.has_executor shutdown_executor b)))

abbrev pub stopped : Bool → List Call
stopped true = init ∷ shutdown_executor ∷ join_thread ∷ destroy_node ∷ shutdown ∷ []
stopped false = init ∷ shutdown ∷ []

-- Whether the node could be made or not, `stop` ends what `start` has made: the executor, its thread
-- and the node, in this order, and ROS itself in both cases.
pub stop-start : (node_made : Bool) → (stop (start node_made unstarted).1).calls ≡ stopped node_made
unfolding start stop
stop-start true = refl
stop-start false = refl
