-- ===== src/Anna/Lattice.antt =====
-- The lattices of src/dist/anna/common/include/lattices: how two versions of a value are merged.
pub mod Interface
pub mod Scalars
pub mod SetLattice
pub mod MapLattice
pub mod Causal
