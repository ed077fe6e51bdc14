-- ===== src/Adapter.antt =====
-- internal/adapter: the service that runs a turn at the provider and keeps the frames of it.
pub mod Types
pub mod Checks
pub mod Tools
pub mod Requests
pub mod Frames
pub mod Finish
pub mod Calls
pub mod Stage
pub mod Continue
pub mod Run
pub mod Sound
pub mod Lifecycle
pub mod Retain
pub mod Start
pub mod System
mod Tests
