-- ===== src/Anna/Lattice/MapLattice.antt =====
-- MapLattice of core_lattices.hpp over strings. The `unordered_map` that it keeps is a list of pairs
-- without repeated keys, in an order that nothing depends on.
pub mod Laws
use testbed.Prelude.{
  ℕ, Bool, true, false, Option, some, none, List, [], ◌∷◌, Bytes, bytes_eq, length, if◌then◌else◌,
}
use testbed.Anna.Lattice.Interface.{Lattice}
use testbed.Anna.Lattice.SetLattice.{StringSet, set_insert}

abbrev pub StringMap {ℓ} : Type ℓ → Type ℓ
StringMap V = List (Bytes × V)

unfoldable pub find {ℓ} : {V : Type ℓ} → Bytes → StringMap V → Option V
find k [] = none
find k ((j, v) ∷ element) = if bytes_eq j k then some v else find k element

unfoldable pub contains {ℓ} : {V : Type ℓ} → Bytes → StringMap V → Bool
contains k element = elim (find k element) [ none ↦ false | some v ↦ true ]

-- A change of the value behind the iterator `search`.
unfoldable pub update {ℓ} : {V : Type ℓ} → Bytes → (V → V) → StringMap V → StringMap V
update k change [] = []
update k change ((j, v) ∷ element) =
    let rest = update k change element in
    if bytes_eq j k then (j, change v) ∷ element else (j, v) ∷ rest

unfoldable pub insert_pair {ℓ} : {V : Type ℓ} → Lattice V → Bytes → V → StringMap V → StringMap V
insert_pair l k v element =
    if contains k element then update k (λ there. l.merge there v) element else (k, v) ∷ element

unfoldable pub map_do_merge {ℓ} : {V : Type ℓ} → Lattice V → StringMap V → StringMap V → StringMap V
map_do_merge l element [] = element
map_do_merge l element ((k, v) ∷ m) = map_do_merge l (insert_pair l k v element) m

unfoldable pub map_size {ℓ} : {V : Type ℓ} → StringMap V → ℕ
map_size element = length element

unfoldable pub project_pairs {ℓ} :
    {V : Type ℓ} → (V → Bool) → StringMap V → StringMap V → StringMap V
project_pairs f [] res = res
project_pairs f ((k, v) ∷ element) res =
    project_pairs f element (if f v then (if contains k res then res else (k, v) ∷ res) else res)

unfoldable pub map_project {ℓ} : {V : Type ℓ} → (V → Bool) → StringMap V → StringMap V
map_project f element = project_pairs f element []

unfoldable pub keys_from {ℓ} : {V : Type ℓ} → StringMap V → StringSet → StringSet
keys_from [] res = res
keys_from ((k, v) ∷ element) res = keys_from element (set_insert k res)

unfoldable pub key_set {ℓ} : {V : Type ℓ} → StringMap V → StringSet
key_set element = keys_from element []

-- `operator[]`, which inserts the default value for a key that is missing: the value that the
-- reference names, and the map afterwards.
unfoldable pub at {ℓ} : {V : Type ℓ} → Lattice V → Bytes → StringMap V → V × StringMap V
at l k element = elim (find k element) [
  | some v ↦ (v, element)
  | none ↦ (l.bottom, (k, l.bottom) ∷ element)
]

unfoldable pub erase {ℓ} : {V : Type ℓ} → Bytes → StringMap V → StringMap V
erase k [] = []
erase k ((j, v) ∷ element) =
    let rest = erase k element in if bytes_eq j k then element else (j, v) ∷ rest

unfoldable pub map_remove {ℓ} : {V : Type ℓ} → Bytes → StringMap V → StringMap V
map_remove k element = if contains k element then erase k element else element
