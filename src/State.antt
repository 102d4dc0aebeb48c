-- ===== src/State.antt =====
-- state/: which peers are connected, and which clients each of them serves.
pub mod ConnectedClients
pub mod PeerGraph
pub mod PeerMap
mod Runs
