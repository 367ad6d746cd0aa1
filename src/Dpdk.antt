-- ===== src/Dpdk.antt =====
-- The packet distributor under src/dpdk: a server process that reads the network ports, and the client
-- processes that it hands packets to.
pub mod Ports
pub mod Args
pub mod Server
pub mod Client
pub mod Links
mod Examples
