-- ===== src/Anna/Lattice/Interface.antt =====
-- The abstract class Lattice of src/dist/anna/common/include/lattices/lattice.hpp: what a value needs for a map
-- or a store to hold it.
pub record Lattice {ℓ} (V : Type ℓ) : Type ℓ where
  -- The element of the default constructor.
  pub bottom : V
  -- `merge`, from the element that is there and the one that comes in to the new element.
  pub merge : V → V → V
