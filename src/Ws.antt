-- ===== src/Ws.antt =====
-- src/ws and src/model: the WebSocket sessions of the control server.
pub mod Device
pub mod Session
