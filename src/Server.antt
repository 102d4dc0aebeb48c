-- ===== src/Server.antt =====
-- server/: a node of the network, which serves clients, knows its peers, and routes between them.
-- This file has the part of the state of server.go on which the modelled methods work.
pub mod Meta
pub mod Gossip
pub mod Ping
pub mod Leader
pub mod Routing
pub mod Peering
pub mod Events
pub mod Handshakes
pub mod Certificates
pub mod Negotiation
pub mod Samples
mod Runs
