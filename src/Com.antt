-- ===== src/Com.antt =====
-- The socket server under src/com: an event-driven key-value server with a binary protocol.
pub mod Header
pub mod Conn
pub mod Table
pub mod Parse
pub mod Reply
pub mod Network
pub mod Process
pub mod Accept
mod Examples
