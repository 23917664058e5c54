-- ===== src/Tcp.antt =====
-- backend/internal/tcp: the sessions of the trackers, and the registry of live connections.
pub mod Session
pub mod Manager
pub mod Examples
