-- ===== src/Robot/Webcam.antt =====
-- robot-container/ros_ws/src/robot_cloud_bridge/robot_cloud_bridge/webcam_driver.py: the camera node.
-- OpenCV and rclpy are outside: whether the device opens, what it reads and how a test frame is drawn
-- are arguments, and the images that are published are part of the state. Times are milliseconds.
pub mod Frames
pub mod Lifecycle
use cloud_robotics.Prelude.{
  ℕ, suc, ◌+◌, ◌-◌, ◌*◌, Text, lit, ◌==◌, Bool, true, false, ◌||◌, Option, none, some, List, [],
  ◌∷◌, ◌++◌, ltb, if◌then◌else◌,
}
use Prim.Native.Nat.{◌%◌}

-- An array of `frame.shape[:2]` and its bytes.
pub record Frame : Type 0 where
  pub height : ℕ
  pub width : ℕ
  pub data_bytes : List ℕ

-- The fields of the ROS message that are set.
pub record Image : Type 0 where
  pub frame_id : Text
  pub height : ℕ
  pub width : ℕ
  pub encoding : Text
  pub is_bigendian : ℕ
  pub step : ℕ
  pub data_bytes : List ℕ

-- Whether `_cap` is set, and the other attributes.
pub record WebcamDriver : Type 0 where
  pub test_pattern_fallback : Bool
  pub has_cap : Bool
  pub last_open_attempt : ℕ
  pub frames_published : ℕ
  pub synthetic_hue : ℕ
  pub images : List Image

-- `text.strip().lower() in ("1", "true", "yes")`, of the text once stripped and lowered.
abbrev pub is_yes : Text → Bool
is_yes t = t == lit "1" || (t == lit "true" || t == lit "yes")

-- What a tick of the timer meets: the clock, whether the device opens, and what it reads.
pub record Tick : Type 0 where
  pub now : ℕ
  pub opens : Bool
  pub reads : Option Frame

abbrev pub reopen_interval : ℕ
reopen_interval = 5000

unfoldable pub try_open_device : ℕ → Bool → WebcamDriver → WebcamDriver
try_open_device now opens d = record d { last_open_attempt = now; has_cap = opens }

-- `__init__`, whose first attempt to open the device is made at once.
unfoldable pub new_driver : Text → ℕ → Bool → WebcamDriver
unfolding try_open_device
new_driver fallback_text now opens = try_open_device now opens (record {
  test_pattern_fallback = is_yes fallback_text;
  has_cap = false;
  last_open_attempt = 0;
  frames_published = 0;
  synthetic_hue = 0;
  images = [];
})

abbrev pub image_of : Frame → Image
image_of frame = record {
  frame_id = lit "camera_rgb_optical_frame";
  height = frame.height;
  width = frame.width;
  encoding = lit "bgr8";
  is_bigendian = 0;
  step = frame.width * 3;
  data_bytes = frame.data_bytes;
}

unfoldable pub publish_bgr : Frame → WebcamDriver → WebcamDriver
publish_bgr frame d = record d {
  images = d.images ++ image_of frame ∷ [];
  frames_published = suc d.frames_published;
}

module _ (draw : ℕ → Frame) where
  unfoldable pub synthetic_frame : WebcamDriver → Frame × WebcamDriver
  synthetic_frame d =
      let hue = (d.synthetic_hue + 2) % 180 in (draw hue, record d { synthetic_hue = hue })

  -- Without a device: the test pattern, if that is asked for.
  abbrev pub fall_back : WebcamDriver → WebcamDriver
  fall_back d =
      if d.test_pattern_fallback
      then (let (frame, d') = synthetic_frame d in publish_bgr frame d')
      else d

  abbrev pub read_frame : Option Frame → WebcamDriver → WebcamDriver
  read_frame none d = record d { has_cap = false }
  read_frame (some frame) d = publish_bgr frame d

  -- The device is tried again once its last attempt is more than five seconds ago.
  abbrev pub retry : Tick → WebcamDriver → WebcamDriver
  retry t d =
      if ltb reopen_interval (t.now - d.last_open_attempt)
      then try_open_device t.now t.opens d
      else d

  abbrev pub with_cap : Tick → WebcamDriver → WebcamDriver
  with_cap t d = if d.has_cap then read_frame t.reads d else fall_back d

  unfoldable pub on_timer : Tick → WebcamDriver → WebcamDriver
  on_timer t d = if d.has_cap then read_frame t.reads d else with_cap t (retry t d)

  unfoldable pub run : List Tick → WebcamDriver → WebcamDriver
  run [] d = d
  run (t ∷ ts) d = run ts (on_timer t d)
