-- ===== src/Interface.antt =====
-- interface/: the connection with the backend.
pub mod WebSocket
