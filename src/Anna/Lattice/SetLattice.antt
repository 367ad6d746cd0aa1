-- ===== src/Anna/Lattice/SetLattice.antt =====
-- SetLattice of core_lattices.hpp over strings, with the `unordered_set` that it keeps: a list without
-- repetitions, in an order that nothing depends on. OrderedSetLattice has the same code.
pub mod Laws
use testbed.Prelude.{
  ℕ, Bool, true, false, ◌&&◌, ◌||◌, List, [], ◌∷◌, Bytes, bytes_eq, length, if◌then◌else◌,
}

abbrev pub StringSet : Type 0
StringSet = List Bytes

unfoldable pub elem : Bytes → StringSet → Bool
elem x [] = false
elem x (y ∷ s) = bytes_eq y x || elem x s

unfoldable pub set_insert : Bytes → StringSet → StringSet
set_insert x s = if elem x s then s else x ∷ s

unfoldable pub set_do_merge : StringSet → StringSet → StringSet
set_do_merge element [] = element
set_do_merge element (x ∷ e) = set_do_merge (set_insert x element) e

unfoldable pub set_size : StringSet → ℕ
set_size s = length s

-- The inner loop of `intersect`: `this_elem` runs over the lattice's own set.
unfoldable pub intersect_one : Bytes → StringSet → StringSet → StringSet
intersect_one that_elem [] res = res
intersect_one that_elem (this_elem ∷ rest) res =
    intersect_one that_elem rest
      (if bytes_eq this_elem that_elem then set_insert this_elem res else res)

unfoldable pub intersect_from : StringSet → StringSet → StringSet → StringSet
intersect_from element [] res = res
intersect_from element (that_elem ∷ s) res =
    intersect_from element s (intersect_one that_elem element res)

unfoldable pub set_intersect : StringSet → StringSet → StringSet
set_intersect element s = intersect_from element s []

unfoldable pub project_from : (Bytes → Bool) → StringSet → StringSet → StringSet
project_from f [] res = res
project_from f (x ∷ s) res = project_from f s (if f x then set_insert x res else res)

unfoldable pub set_project : (Bytes → Bool) → StringSet → StringSet
set_project f element = project_from f element []
