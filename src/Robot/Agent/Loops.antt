-- ===== src/Robot/Agent/Loops.antt =====
-- robot-container/robot_agent/agent.py: `run`, the periodic loops beside the callbacks, as the
-- sequence in which their calls happen to come. A loop calls its function until the stop event is
-- set, which ends the sequence; what the function raises is logged and dropped.
use cloud_robotics.Prelude.{
  ℕ, suc, ◌+◌, Text, lit, Bool, true, false, Option, none, some, Option-cases, inl, inr, List, [],
  ◌∷◌, ◌++◌, length, length-append, ◌≡◌, refl, arith,
}
use cloud_robotics.Prelude.Int.{ℤ}
use cloud_robotics.Json.{Json, obj, find, or_null}
use cloud_robotics.Robot.Models.{
  OdometryData, BatteryState, DiagnosticsData, CameraFrame, LaserScanData,
}
use cloud_robotics.Robot.Agent.{
  Agent, Call, Metrics, on_odometry, on_battery, on_diagnostics, on_lidar_scan, on_camera_frame,
}
use cloud_robotics.Robot.Agent.Publishing.{
  heartbeat, publish_telemetry, publish_health, publish_lidar_scan,
}
use cloud_robotics.Robot.Agent.Messages.{receive_command, handle_camera_offer, answer_offer}

-- A turn of one of the four loops at a time of the clock, a message, or a sample.
pub data Event : Type 0 where
  heartbeat_due telemetry_due health_due lidar_due : ℤ → Event
  command : Json → Event
  offer : (Json → Option Text) → Json → Event
  odometry : OdometryData → Event
  battery : BatteryState → Event
  diagnostics : DiagnosticsData → Event
  lidar_scan : LaserScanData → Event
  camera_frame : Bool → CameraFrame → Event

unfoldable pub handle : Event → Agent → Agent
handle (heartbeat_due now) a = heartbeat now a
handle (telemetry_due now) a = publish_telemetry now a
handle (health_due now) a = publish_health now a
handle (lidar_due now) a = publish_lidar_scan now a
handle (command payload) a = receive_command payload a
handle (offer handle_offer payload) a = handle_camera_offer handle_offer payload a
handle (odometry sample) a = on_odometry sample a
handle (battery sample) a = on_battery sample a
handle (diagnostics sample) a = on_diagnostics sample a
handle (lidar_scan sample) a = on_lidar_scan sample a
handle (camera_frame pushed frame) a = on_camera_frame pushed frame a

unfoldable pub run : List Event → Agent → Agent
run [] a = a
run (e ∷ es) a = run es (handle e a)

-- What the counters say was published.
abbrev pub counted : Metrics → ℕ
counted m =
    m.heartbeats_sent + m.telemetry_published + m.health_published + m.lidar_scans_published
    + m.webrtc_offers_handled

abbrev Counts : (Agent → Agent) → Type 0
Counts f =
    (a : Agent) → length (f a).mqtt + counted a.metrics ≡ length a.mqtt + counted (f a).metrics

-- One call more at the end of a list.
called : (cs : List Call) (c : Call) → length (cs ++ c ∷ []) ≡ suc (length cs)
called cs c = omega (arith, length-append cs (c ∷ []))

lidar-Counts : (now : ℤ) → Counts (publish_lidar_scan now)
unfolding publish_lidar_scan
lidar-Counts now a = elim (Option-cases a.latest_lidar_scan) [
  | inl e ↦ ground arith
  | inr (scan, e) ↦ rw (e, called) (omega arith)
]

command-Counts : (payload : Json) → Counts (receive_command payload)
unfolding receive_command
command-Counts payload a = ground arith

answer-Counts : (request_id : Json) (answer : Option Text) → Counts (answer_offer request_id answer)
answer-Counts request_id none a = refl
answer-Counts request_id (some sdp) a = rw (called) (omega arith)

offer-Counts :
    (handle_offer : Json → Option Text) (payload : Json)
    → Counts (handle_camera_offer handle_offer payload)
unfolding handle_camera_offer
offer-Counts handle_offer (obj fs) a =
    let request_id = or_null (find fs (lit "request_id")) in
    let sdp = or_null (find fs (lit "sdp")) in
    ground (arith, answer-Counts request_id (handle_offer sdp) a)
offer-Counts handle_offer payload a = refl

frame-Counts : (pushed : Bool) (frame : CameraFrame) → Counts (on_camera_frame pushed frame)
unfolding on_camera_frame
frame-Counts true frame a = refl
frame-Counts false frame a = refl

handle-Counts : (e : Event) → Counts (handle e)
unfolding handle heartbeat publish_telemetry publish_health on_odometry on_battery on_diagnostics
    on_lidar_scan
handle-Counts (heartbeat_due now) a = rw (called) (omega arith)
handle-Counts (telemetry_due now) a = rw (called) (omega arith)
handle-Counts (health_due now) a = rw (called) (omega arith)
handle-Counts (lidar_due now) a = lidar-Counts now a
handle-Counts (command payload) a = command-Counts payload a
handle-Counts (offer handle_offer payload) a = offer-Counts handle_offer payload a
handle-Counts (odometry sample) a = refl
handle-Counts (battery sample) a = refl
handle-Counts (diagnostics sample) a = refl
handle-Counts (lidar_scan sample) a = refl
handle-Counts (camera_frame pushed frame) a = frame-Counts pushed frame a

-- Whatever turns, messages and samples come in whatever order, the agent makes one MQTT call for
-- each publication that its counters count, and no other.
pub run-counted :
    (es : List Event) (a : Agent)
    → length (run es a).mqtt + counted a.metrics ≡ length a.mqtt + counted (run es a).metrics
unfolding run
run-counted [] a = refl
run-counted (e ∷ es) a = omega (arith, handle-Counts e a, run-counted es (handle e a))
