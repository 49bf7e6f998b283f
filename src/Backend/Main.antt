-- ===== src/Backend/Main.antt =====
-- cloud-container/backend/app/main.py: the handlers that `lifespan` registers, and what the event
-- loop runs for a message.
pub mod Wiring
pub mod Arrivals
pub mod Lifespan
use cloud_robotics.Prelude.{Text, lit, true, false, List, [], ◌∷◌}
use cloud_robotics.Json.{Json, Wire}
use cloud_robotics.Exec.{Exec, pure}
use cloud_robotics.Services.{Services}
use cloud_robotics.Backend.World.{World}
use cloud_robotics.Backend.Registry.{
  record_status, record_telemetry, record_health, record_heartbeat, record_lidar_scan,
}
use cloud_robotics.Backend.Relay.{Relay, handle_answer}
use cloud_robotics.Backend.Mqtt.{Mqtt, on_message, handle_message}

-- The bound methods that are registered.
pub data Handler : Type 0 where
  on_status on_telemetry on_health on_heartbeat on_lidar on_answer : Handler

-- A registered method, run on the stores and on the relay's table; what it raises ends its own
-- coroutine alone.
abbrev pub call_handler : (σ : Services) → Handler → Text → Json → World σ × Relay → World σ × Relay
call_handler σ on_status r p (w, s) = ((record_status σ r p w).1, s)
call_handler σ on_telemetry r p (w, s) = ((record_telemetry σ r p w).1, s)
call_handler σ on_health r p (w, s) = ((record_health σ r p w).1, s)
call_handler σ on_heartbeat r p (w, s) = ((record_heartbeat σ r p w).1, s)
call_handler σ on_lidar r p (w, s) = ((record_lidar_scan σ r p w).1, s)
call_handler σ on_answer r p (w, s) = (w, (handle_answer p s).1)

-- `MQTTService()`, the registrations, and the loop that `connect` sets.
pub mqtt_service : Mqtt Handler
unfolding on_message
mqtt_service =
    record (on_message (lit "camera/answer") on_answer (
      on_message (lit "lidar") on_lidar (
        on_message (lit "heartbeat") on_heartbeat (
          on_message (lit "health") on_health (
            on_message (lit "telemetry") on_telemetry (
              on_message (lit "status") on_status
                (record { handlers = []; connected = false; has_loop = false }))))))) {
                  has_loop = true;
                }

-- The scheduled coroutines, one after the other.
abbrev pub run_calls :
    (σ : Services) → List (Handler × Text × Json) → World σ × Relay → World σ × Relay
run_calls σ [] w = w
run_calls σ ((h, r, p) ∷ calls) w = run_calls σ calls (call_handler σ h r p w)

unfoldable pub receive : (σ : Services) → Text → Wire → World σ × Relay → World σ × Relay
unfolding mqtt_service
receive σ topic payload w = run_calls σ (handle_message mqtt_service topic payload) w
