-- ===== src/Udp.antt =====
-- network/kcp: the sessions over UDP, which put the protocol and the error correction together, and
-- the listener.
pub mod Session
pub mod Input
pub mod Stream
pub mod Control
pub mod Listener
pub mod Tests
