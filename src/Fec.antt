-- ===== src/Fec.antt =====
-- network/kcp: forward error correction, fec.go and aototune.go.
pub mod Packet
pub mod Tune
pub mod Encoder
pub mod Shards
pub mod Decoder
pub mod Tests
