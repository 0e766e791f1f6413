-- ===== src/Service.antt =====
-- src/service: the services of the control server.
pub mod Password
pub mod Users
pub mod Devices
pub mod Networks
pub mod Peers
mod Tests
