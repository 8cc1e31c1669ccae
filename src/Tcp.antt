-- ===== src/Tcp.antt =====
-- network/tcp: the framing of messages on a stream.
pub mod Parser
pub mod Conn
pub mod Tests
