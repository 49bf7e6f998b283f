-- ===== src/Robot/Launch.antt =====
-- robot-container/ros_ws/src/robot_cloud_bridge/launch/simulation.launch.py: the processes of the
-- simulation. What the launch system makes of an action is outside; a path is the
-- package that shares it and the rest.
use cloud_robotics.Prelude.{
  Text, lit, Bool, true, false, Option, none, some, List, [], ◌∷◌, ◌≡◌, refl, if◌then◌else◌,
}

pub data Action : Type 0 where
  log_info : Bool → Action
  include_launch : (share file : Text) (arguments : List (Text × Text)) → Action
  execute_process : Text → Action
  node : (owner executable : Text) → Action

-- `bool(os.environ.get("DISPLAY"))`
abbrev pub has_display : Option Text → Bool
has_display none = false
has_display (some []) = false
has_display (some (c ∷ t)) = true

-- `LaunchConfiguration(name, default=default)`, once the launch knows its arguments.
abbrev pub value : (Text → Option Text) → Text → Text → Text
value given name default = elim (given name) [ none ↦ default | some v ↦ v ]

-- The robot's model, its place in the world and the camera.
abbrev pub spawn : (Text → Option Text) → List Action
spawn given =
    include_launch (lit "turtlebot3_gazebo") (lit "robot_state_publisher.launch.py")
      ((lit "use_sim_time", value given (lit "use_sim_time") (lit "true")) ∷ [])
    ∷ include_launch (lit "turtlebot3_gazebo") (lit "spawn_turtlebot3.launch.py") (
        (lit "x_pose", value given (lit "x_pose") (lit "-2.0"))
        ∷ (lit "y_pose", value given (lit "y_pose") (lit "-0.5"))
        ∷ [])
    ∷ node (lit "robot_cloud_bridge") (lit "webcam_driver")
    ∷ []

abbrev pub server : Action
server =
    include_launch (lit "gazebo_ros") (lit "gzserver.launch.py")
      ((lit "world", lit "worlds/turtlebot3_world.world") ∷ (lit "verbose", lit "false") ∷ [])

-- The `add_action` calls, in their order.
unfoldable pub generate_launch_description : (Text → Option Text) → Option Text → List Action
generate_launch_description given display =
    log_info (has_display display)
    ∷ server
    ∷ (if has_display display then execute_process (lit "gzclient") ∷ spawn given else spawn given)

-- The actions that show something.
abbrev pub is_gui : Action → Bool
is_gui (execute_process p) = true
is_gui (log_info d) = false
is_gui (include_launch p f xs) = false
is_gui (node p e) = false

abbrev pub without_gui : List Action → List Action
without_gui [] = []
without_gui (x ∷ xs) = let rest = without_gui xs in if is_gui x then rest else x ∷ rest

-- A display adds the one client to the processes of a headless launch, and takes none away; an empty
-- DISPLAY counts as none.
pub display_adds_client :
    (given : Text → Option Text) (display : Option Text)
    → without_gui (generate_launch_description given display)
      ≡ log_info (has_display display) ∷ server ∷ spawn given
unfolding generate_launch_description
display_adds_client given none = refl
display_adds_client given (some []) = refl
display_adds_client given (some (c ∷ t)) = refl
