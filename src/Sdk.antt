-- ===== src/Sdk.antt =====
-- The client SDK: robotsix_agent_comm/sdk.
pub mod Responder
pub mod Requester
pub mod Agent
pub mod Conversation
pub mod Brokered
pub mod Lifetime
pub mod Direct
