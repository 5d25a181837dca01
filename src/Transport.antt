-- ===== src/Transport.antt =====
-- The transport layer: robotsix_agent_comm/transport.
pub mod Endpoints
pub mod Registry
pub mod Retry
pub mod Client
pub mod Router
pub mod Server
