-- ===== src/Messaging.antt =====
-- messaging/: the control messages between peers, the streams that carry them, and the calls that
-- run over them.
pub mod Message
pub mod Rpc
pub mod Calls
pub mod Streams
pub mod Hub
mod Runs
