-- ===== src/Tests.antt =====
-- The theorems of the library at concrete inputs.
mod Data
mod Messages
mod Network
mod Daemon
mod Services
mod Kits
mod Journeys
mod Setups
mod Clients
mod Threads
mod Wires
mod Peers
