-- ===== src/Robot/Agent/Messages.antt =====
-- robot-container/robot_agent/agent.py: the two messages that the agent is subscribed to, a command
-- and a camera offer. What `VideoStreamer.handle_offer` answers is an argument.
pub mod Commands
pub mod Driving
pub mod Signalling
use cloud_robotics.Prelude.{
  ℕ, suc, ◌-◌, Text, lit, ◌==◌, Bool, true, false, Option, none, some, List, [], ◌∷◌, ◌++◌,
  if◌then◌else◌,
}
use cloud_robotics.Prelude.Int.{ℤ, pos}
use cloud_robotics.Json.{
  Json, null, bool, num, str, arr, obj, find, or_null, truthy, num_or_null, object, numbers,
}
use cloud_robotics.Backend.World.{Packet}
use cloud_robotics.Robot.Topics.{
  cmd_topic, telemetry_topic, health_topic, status_topic, heartbeat_topic, lidar_topic,
  camera_offer_topic, camera_answer_topic,
}
use cloud_robotics.Robot.Models.{
  OdometryData, BatteryState, DiagnosticsData, CameraFrame, LaserScanData,
}
use cloud_robotics.Robot.Dispatcher.{Speeds, dispatch}
use cloud_robotics.Robot.Agent.{
  Agent, Metrics, Call, call, packet, publish, set_will, connect_client, disconnect_client,
  subscribe,
}

abbrev pub reject : Agent → Agent
reject a = record a {
  metrics = record a.metrics { commands_rejected = suc a.metrics.commands_rejected };
}

abbrev pub receive : Agent → Agent
receive a = record a {
  metrics = record a.metrics { commands_received = suc a.metrics.commands_received };
}

-- The command is looked up in a set: a text may be known, a list or an object has no hash and
-- raises, and no other value is known.
abbrev dispatch_value : Json → Agent → Agent
dispatch_value (str t) a =
    let (known, vels) = dispatch a.speeds t a.cmd_vels in
    if known then record a { cmd_vels = vels } else reject a
dispatch_value (arr xs) a = a
dispatch_value (obj fs) a = a
dispatch_value v a = reject a

-- `payload.get("command") if isinstance(payload, dict) else None`
abbrev pub command_of : Json → Json
command_of (obj fs) = or_null (find fs (lit "command"))
command_of _ = null

unfoldable pub receive_command : Json → Agent → Agent
receive_command payload a =
    let command = command_of payload in
    if truthy command then dispatch_value command (receive a) else reject a

abbrev fail_offer : Agent → Agent
fail_offer a = record a {
  metrics = record a.metrics { webrtc_offers_failed = suc a.metrics.webrtc_offers_failed };
}

-- `{"request_id": request_id, "sdp": answer_sdp}`
abbrev pub answer_payload : Json → Text → Json
answer_payload request_id sdp = object ((lit "request_id", request_id) ∷ (lit "sdp", str sdp) ∷ [])

abbrev pub answer_offer : Json → Option Text → Agent → Agent
answer_offer request_id none a = fail_offer a
answer_offer request_id (some answer_sdp) a =
    record (call
      (publish
        (packet (camera_answer_topic a.robot_id) (answer_payload request_id answer_sdp) 1 false))
      a) {
        metrics = record a.metrics { webrtc_offers_handled = suc a.metrics.webrtc_offers_handled };
      }

-- `handle_offer` is what the video streamer answers to an SDP, `none` if it raises. A payload that
-- is no dict ends the offer's own thread.
unfoldable pub handle_camera_offer : (Json → Option Text) → Json → Agent → Agent
handle_camera_offer handle_offer (obj fs) a =
    let request_id = or_null (find fs (lit "request_id")) in
    let sdp = or_null (find fs (lit "sdp")) in
    if truthy request_id
    then (if truthy sdp then answer_offer request_id (handle_offer sdp) a else fail_offer a)
    else fail_offer a
handle_camera_offer handle_offer _ a = a
