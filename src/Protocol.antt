-- ===== src/Protocol.antt =====
-- The message protocol: robotsix_agent_comm/protocol.
pub mod Value
pub mod Errors
pub mod Messages
pub mod Validation
pub mod Serialization
pub mod Replies
pub mod Redaction
