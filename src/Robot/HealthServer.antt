-- ===== src/Robot/HealthServer.antt =====
-- robot-container/robot_agent/health_server.py: what a GET request of the container's orchestrator is
-- answered, from the two providers. The HTTP server itself is Python's.
use cloud_robotics.Prelude.{ℕ, Text, lit, ◌==◌, [], ◌∷◌, if◌then◌else◌}
use cloud_robotics.Json.{Json, str, object}

pub do_get : Json → Json → Text → ℕ × Json
do_get status metrics path =
    if path == lit "/health"
    then (200, status)
    else if path == lit "/metrics"
    then (200, metrics)
    else (404, object ((lit "error", str (lit "not found")) ∷ []))
