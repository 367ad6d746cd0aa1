-- ===== src/Anna.antt =====
-- The key-value store anna: its lattices, the store of a server thread, the nodes of its hash ring, and the
-- handlers of its servers, routers and monitor.
pub mod Lattice
pub mod Kvs
pub mod HashRing
pub mod Metadata
pub mod Cluster
pub mod Server
pub mod Routing
pub mod Monitor
mod Examples
