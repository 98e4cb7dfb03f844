-- ===== src/Websocket.antt =====
-- internal/websocket: the hub and what its clients ask of it.
pub mod Sets
pub mod Hub
