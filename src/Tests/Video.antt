-- ===== src/Tests/Video.antt =====
-- The theorems on the streamer and on LIDAR scans, at one negotiation and one scan.
use cloud_robotics.Prelude.{
  ℕ, ◌+◌, ◌≤◌, ◌-◌, ◌*◌, Text, lit, ◌≡◌, refl, Bool, true, false, Option, none, some, [], ◌∷◌,
}
use cloud_robotics.Prelude.Int.{ℤ, pos}
use cloud_robotics.Exec.{Result, ok}
use cloud_robotics.Robot.Models.{CameraFrame}
use cloud_robotics.Robot.Agent.{Agent, new_agent}
use cloud_robotics.Robot.RosAdapter.{Floats, Adapter, LaserScan}
use cloud_robotics.Robot.VideoStreamer.{
  Streamer, Wait, replied, timed_out, Outcome, Gst, handle_offer,
}
use cloud_robotics.Robot.VideoStreamer.Negotiating.{
  queued_in, first_waits, last_waits, handle_offer_lem,
}

abbrev frame : CameraFrame
frame = record { bytes = 1 ∷ []; width = 1; height = 1; encoding = lit "mono8" }

abbrev streamer : Streamer
streamer = record {
  has_pipeline = true;
  negotiating = false;
  frames_pushed = 3;
  frames_dropped = 0;
  buffers = frame ∷ [];
}

-- A call during which a frame arrives.
abbrev wait : Outcome → Wait
wait outcome = record { queued = frame ∷ []; frames = frame ∷ []; outcome = outcome }

-- `create-answer` never resolves.
abbrev stuck : Gst
stuck = record {
  prepare = wait replied;
  set_remote = wait replied;
  create_answer = wait timed_out;
  extract_answer = wait replied;
  answer_sdp = lit "v=0";
  profile_level_id = none;
  set_local = wait replied;
  ice_gathering = wait replied;
  extract_local = wait replied;
  local_description = none;
}

abbrev choose : Text → Option ℕ
choose _ = some 102

abbrev rewrite : Text → ℕ → Option Text → Result Text
rewrite text _ _ = ok text

handle_offer_lem_example :
    (n : ℕ) × ((handle_offer choose rewrite stuck (lit "v=0") streamer).1 ≡ record streamer {
      negotiating = false;
      frames_dropped = 0;
      frames_pushed = streamer.frames_pushed + n;
    })
    × (n ≤ queued_in (first_waits stuck) + queued_in (last_waits stuck))
handle_offer_lem_example = handle_offer_lem choose rewrite stuck (lit "v=0") streamer refl

-- An offer comes in between.
abbrev start_negotiation : Streamer → Streamer
start_negotiation s = record s { negotiating = true }

-- Floats that are natural numbers, or no number.
abbrev both : (ℕ → ℕ → ℕ) → Option ℕ → Option ℕ → Option ℕ
both f none y = none
both f (some x) none = none
both f (some x) (some y) = some (f x y)

abbrev known : Option ℕ → Bool
known none = false
known (some x) = true

abbrev number : Option ℕ → ℤ
number none = pos 0
number (some x) = pos x

abbrev natural_floats : Floats (Option ℕ)
natural_floats = record {
  one = some 1;
  two = some 2;
  add = both (λ x y. x + y);
  sub = both (λ x y. x - y);
  mul = both (λ x y. x * y);
  atan2 = both (λ x y. x);
  is_finite = known;
  round3 = number;
  value = number;
}

abbrev scan : LaserScan (Option ℕ)
scan = record {
  angle_min = some 0;
  angle_max = some 6;
  angle_increment = some 3;
  range_min = some 0;
  range_max = some 9;
  ranges = some 4 ∷ none ∷ [];
}

abbrev new_adapter : Adapter (Option ℕ)
new_adapter = record {
  odometry_callback = false;
  camera_callback = false;
  lidar_callback = false;
  twists = [];
}

abbrev scanning_agent : Agent
scanning_agent = new_agent (lit "r1") (record { linear_speed = pos 200; angular_speed = pos 500 }) 0
