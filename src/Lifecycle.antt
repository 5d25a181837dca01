-- ===== src/Lifecycle.antt =====
-- The supervision and the lifecycle of services: robotsix_agent_comm/lifecycle.
pub mod Supervision
pub mod Server
pub mod Config
pub mod Backend
