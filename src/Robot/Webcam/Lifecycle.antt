-- ===== src/Robot/Webcam/Lifecycle.antt =====
-- robot-container/ros_ws/src/robot_cloud_bridge/robot_cloud_bridge/webcam_driver.py: the settings that
-- the node reads, and `main`. What `int` and `float` make of a text is an argument, as is how the
-- spinning of the node ends.
use cloud_robotics.Prelude.{
  ℕ, Text, lit, Bool, true, false, Option, none, some, List, [], ◌∷◌, ◌++◌, ◌≡◌, refl,
}
use cloud_robotics.Exec.{Exec, Result, ok, err, ◌>>◌, runtime_error}
use cloud_robotics.Results.{◌>>=◌}
use cloud_robotics.Calls.{perform, try_finally}

-- `os.environ.get(name, default)`
abbrev pub get_or : (Text → Option Text) → Text → Text → Text
get_or environ name default = elim (environ name) [ none ↦ default | some value ↦ value ]

pub record Settings (F : Type 0) : Type 0 where
  pub device : Text
  pub width : ℕ
  pub height : ℕ
  pub fps : F
  pub fallback_text : Text

-- The first lines of `__init__`, in their order.
unfoldable pub settings :
    {F : Type 0}
    → (Text → Result ℕ)
    → (Text → Result F)
    → (Text → Option Text)
    → Result (Settings F)
settings int float environ = do
  width ← int (get_or environ (lit "CAMERA_WIDTH") (lit "640"))
  height ← int (get_or environ (lit "CAMERA_HEIGHT") (lit "480"))
  fps ← float (get_or environ (lit "CAMERA_FPS") (lit "15"))
  ok (record {
    device = get_or environ (lit "CAMERA_DEVICE") (lit "/dev/video0");
    width = width;
    height = height;
    fps = fps;
    fallback_text = get_or environ (lit "CAMERA_TEST_PATTERN_FALLBACK") (lit "false");
  })

pub data Call : Type 0 where
  init create_node spin release destroy shutdown : Call

pub data Spun : Type 0 where
  returned interrupted raised : Spun

-- `try: rclpy.spin(node)` with its `except KeyboardInterrupt`.
abbrev pub spin_node : Spun → Exec (List Call) (Unit {0})
spin_node returned calls = (ok tt, calls ++ spin ∷ [])
spin_node interrupted calls = (ok tt, calls ++ spin ∷ [])
spin_node raised calls = (err runtime_error, calls ++ spin ∷ [])

-- `has_cap`: whether the device is open when the node is destroyed.
abbrev pub destroy_node : Bool → Exec (List Call) (Unit {0})
destroy_node true = do perform release true; perform destroy true
destroy_node false = perform destroy true

unfoldable pub main : Spun → Bool → Exec (List Call) (Unit {0})
main spun has_cap = do
  perform init true
  perform create_node true
  try_finally (spin_node spun) (do destroy_node has_cap; perform shutdown true)

abbrev pub releases : Bool → List Call
releases true = release ∷ destroy ∷ shutdown ∷ []
releases false = destroy ∷ shutdown ∷ []

abbrev pub ends : Spun → Result (Unit {0})
ends raised = err runtime_error
ends returned = ok tt
ends interrupted = ok tt

-- However the node's spinning ends, an open device is released, the node destroyed and ROS shut down,
-- in this order; an interrupt of the keyboard is no error.
pub main-releases :
    (spun : Spun) (has_cap : Bool)
    → main spun has_cap [] ≡ (ends spun, init ∷ create_node ∷ spin ∷ releases has_cap)
unfolding main
main-releases returned true = refl
main-releases returned false = refl
main-releases interrupted true = refl
main-releases interrupted false = refl
main-releases raised true = refl
main-releases raised false = refl
