-- ===== src/Multiplexer.antt =====
-- multiplexer/: the link that a handshake carries, the registry of protocols, the hand-over channel.
pub mod Protocol
pub mod Alpn
pub mod Config
pub mod Link
pub mod Channel
pub mod Pipe
