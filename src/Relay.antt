-- ===== src/Relay.antt =====
-- The relay: the registry of nodes, the UDP server in front of it, and what its clients send.
pub mod Registry
pub mod Server
pub mod Client
mod Tests
