-- ===== src/Harness.antt =====
-- internal/harness: the harness protocol, its messages and their checks.
pub mod Types
pub mod Messages
pub mod Checks
pub mod Validate
pub mod ValidateMessages
pub mod Accepted
pub mod Tests
