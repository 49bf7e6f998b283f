-- ===== src/Tests.antt =====
-- Worlds to run the program at, tests, and the theorems at concrete inputs.
pub mod Worlds
pub mod Sessions
pub mod Fleet
pub mod Signals
pub mod Tokens
pub mod Robot
pub mod Video
pub mod Settings
pub mod Media
pub mod Broker
pub mod MainLoop
pub mod Answer
