-- ===== src/Robot.antt =====
-- The robot agent, robot-container/robot_agent.
pub mod Topics
pub mod Models
pub mod Dispatcher
pub mod Watchdog
pub mod MqttClient
pub mod Agent
pub mod VideoStreamer
pub mod RosAdapter
pub mod HealthServer
pub mod Webcam
pub mod Sdp
pub mod MockAdapter
pub mod Config
pub mod Main
pub mod Launch
