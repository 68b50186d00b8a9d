-- ===== src/Proxy.antt =====
-- src/proxy.rs, by parts: the table of pending requests, the framing of a byte stream, the state
-- and the three tasks of a connection, and the server that accepts connections.
pub mod Pending
pub mod Framing
pub mod State
pub mod Writer
pub mod Connection
pub mod Server
mod Tests
