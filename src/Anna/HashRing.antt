-- ===== src/Anna/HashRing.antt =====
-- ConsistentHashMap of src/dist/anna/include/consistent_hash_map.hpp: the nodes of a hash ring, ordered by hash. An
-- iterator is the pair that it points to, and `none` is end().
pub mod Owners
pub mod Walk
pub mod Servers
pub mod Responsible
mod Examples
use testbed.Prelude.{
  ℕ, Bool, true, false, Option, some, none, List, [], ◌∷◌, length, if◌then◌else◌, ltb, ◌==◌,
}

-- `nodes_`: ascending by hash, without repetitions.
abbrev pub Nodes {ℓ} : Type ℓ → Type ℓ
Nodes T = List (ℕ × T)

unfoldable pub ring_size {ℓ} : {T : Type ℓ} → Nodes T → ℕ
ring_size nodes = length nodes

unfoldable pub ring_empty {ℓ} : {T : Type ℓ} → Nodes T → Bool
ring_empty [] = true
ring_empty (n ∷ nodes) = false

-- `std::map::insert`, which leaves a node that has the hash already.
unfoldable pub insert_at {ℓ} : {T : Type ℓ} → ℕ → T → Nodes T → Nodes T
insert_at hash node [] = (hash, node) ∷ []
insert_at hash node ((k, other) ∷ nodes) =
    let rest = insert_at hash node nodes in
    if ltb hash k
    then (hash, node) ∷ ((k, other) ∷ nodes)
    else if ltb k hash
    then (k, other) ∷ rest
    else (k, other) ∷ nodes

unfoldable pub ring_insert {ℓ} : {T : Type ℓ} → (T → ℕ) → T → Nodes T → Nodes T
ring_insert hasher_ node nodes = insert_at (hasher_ node) node nodes

unfoldable pub erase_at {ℓ} : {T : Type ℓ} → ℕ → Nodes T → Nodes T
erase_at hash [] = []
erase_at hash ((k, other) ∷ nodes) =
    let rest = erase_at hash nodes in if k == hash then nodes else (k, other) ∷ rest

unfoldable pub ring_erase {ℓ} : {T : Type ℓ} → (T → ℕ) → T → Nodes T → Nodes T
ring_erase hasher_ node nodes = erase_at (hasher_ node) nodes

-- The first node whose hash is not below.
unfoldable pub lower_bound {ℓ} : {T : Type ℓ} → ℕ → Nodes T → Option (ℕ × T)
lower_bound hash [] = none
lower_bound hash ((k, node) ∷ nodes) =
    let rest = lower_bound hash nodes in if ltb k hash then rest else some (k, node)

unfoldable pub ring_begin {ℓ} : {T : Type ℓ} → Nodes T → Option (ℕ × T)
ring_begin [] = none
ring_begin (n ∷ nodes) = some n

unfoldable pub ring_find {ℓ} : {T : Type ℓ} → ℕ → Nodes T → Option (ℕ × T)
ring_find hash nodes =
    if ring_empty nodes
    then none
    else elim (lower_bound hash nodes) [ none ↦ ring_begin nodes | some it ↦ some it ]
