-- ===== src/Anna/Server.antt =====
-- What a server thread of anna does with the messages that it receives: src/dist/anna/src/kvs.
pub mod Maps
pub mod Caches
pub mod Gossip
pub mod Redistribute
pub mod Requests
pub mod Replication
pub mod TakeGossip
mod Examples
