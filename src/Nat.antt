-- ===== src/Nat.antt =====
-- src/nat: what the control server keeps of the nodes and their sessions.
pub mod Nodes
pub mod Sessions
pub mod Monitor
pub mod Dispatcher
