-- ===== src/Utils.antt =====
-- The helpers of the drivers: the reader of YCSB workload files.
pub mod Tracer
mod Examples
