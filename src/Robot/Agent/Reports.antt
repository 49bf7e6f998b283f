-- ===== src/Robot/Agent/Reports.antt =====
-- robot-container/robot_agent/agent.py: what the agent tells its health server. `round1` is Python's
-- `round(x, 1)`, and `rtp_packets_sent` the streamer's counter.
use cloud_robotics.Prelude.{ℕ, ◌-◌, lit, [], ◌∷◌, if◌then◌else◌}
use cloud_robotics.Prelude.Int.{ℤ, pos}
use cloud_robotics.Json.{Json, bool, num, str, object}
use cloud_robotics.Robot.Agent.{Agent}

pub get_status : (ℕ → ℤ) → ℕ → Agent → Json
get_status round1 now a = object (
    (lit "status", str (if a.mqtt_connected then lit "ok" else lit "degraded"))
    ∷ (lit "robot_id", str a.robot_id)
    ∷ (lit "mqtt_connected", bool a.mqtt_connected)
    ∷ (lit "uptime_seconds", num (round1 (now - a.started_at)))
    ∷ [])

pub get_metrics : (ℕ → ℤ) → ℕ → ℕ → Agent → Json
get_metrics round1 rtp_packets_sent now a = object (
    (lit "heartbeats_sent", num (pos a.metrics.heartbeats_sent))
    ∷ (lit "telemetry_published", num (pos a.metrics.telemetry_published))
    ∷ (lit "health_published", num (pos a.metrics.health_published))
    ∷ (lit "lidar_scans_published", num (pos a.metrics.lidar_scans_published))
    ∷ (lit "commands_received", num (pos a.metrics.commands_received))
    ∷ (lit "commands_rejected", num (pos a.metrics.commands_rejected))
    ∷ (lit "camera_frames_received", num (pos a.metrics.camera_frames_received))
    ∷ (lit "webrtc_offers_handled", num (pos a.metrics.webrtc_offers_handled))
    ∷ (lit "webrtc_offers_failed", num (pos a.metrics.webrtc_offers_failed))
    ∷ (lit "rtp_packets_sent", num (pos rtp_packets_sent))
    ∷ (lit "uptime_seconds", num (round1 (now - a.started_at)))
    ∷ [])
