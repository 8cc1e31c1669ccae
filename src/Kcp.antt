-- ===== src/Kcp.antt =====
-- network/kcp: the ARQ protocol of kcp.go.
pub mod State
pub mod Codec
pub mod Window
pub mod Recv
pub mod Send
pub mod Ack
pub mod Writer
pub mod Announce
pub mod Transmit
pub mod Flush
pub mod Input
pub mod Config
pub mod Invariant
pub mod Tests
