-- ===== src/Coreserver.antt =====
-- internal/coreserver: the HTTP/1.1 server of the data plane.
pub mod Chars
pub mod Request
pub mod Parser
pub mod Heads
pub mod HeaderBuf
pub mod Warm
pub mod Conn
