-- ===== src/Memcached.antt =====
-- The load drivers under src/dist/memcached.
pub mod Shares
pub mod Batches
pub mod Workers
pub mod Strides
mod Examples
