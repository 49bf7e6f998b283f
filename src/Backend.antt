-- ===== src/Backend.antt =====
-- The cloud backend, cloud-container/backend/app.
pub mod Config
pub mod Models
pub mod Topics
pub mod World
pub mod Sessions
pub mod Registry
pub mod Mqtt
pub mod Fleet
pub mod Relay
pub mod Auth
pub mod Api
pub mod Health
pub mod Teleop
pub mod Main
