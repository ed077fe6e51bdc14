-- ===== src/Foundry.antt =====
-- internal/foundry: the limits, identifiers, digests and Responses types that the broker and the
-- child share.
pub mod Limits
pub mod Strings
pub mod Digest
pub mod Session
pub mod Responses
pub mod Tests
