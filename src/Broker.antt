-- ===== src/Broker.antt =====
-- The broker daemon: robotsix_agent_comm/broker.
pub mod RateLimit
pub mod State
pub mod Http
pub mod Auth
pub mod Register
pub mod Deregister
pub mod Send
pub mod Poll
pub mod Agents
pub mod Config
pub mod Traffic
pub mod Sweep
pub mod Dispatch
pub mod Invariant
pub mod Runs
pub mod Threads
