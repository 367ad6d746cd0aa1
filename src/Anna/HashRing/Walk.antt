-- ===== src/Anna/HashRing/Walk.antt =====
-- `responsible_global` of src/dist/anna/src/hash_ring/hash_ring.cpp: the walk round a hash ring for the
-- nodes of a key. `same` is `operator==` on server threads.
pub mod Distinct
pub mod Rounds
pub mod Endless
use testbed.Prelude.{
  ℕ, zero, suc, ◌+◌, Bool, true, false, ◌||◌, Option, some, none, List, [], ◌∷◌, ◌++◌, length,
  if◌then◌else◌, ltb,
}
use testbed.Anna.HashRing.{Nodes}

-- The nodes from `lower_bound` of a hash on.
unfoldable pub seek {ℓ} : {T : Type ℓ} → ℕ → Nodes T → Nodes T
seek hash [] = []
seek hash ((k, node) ∷ nodes) =
    let rest = seek hash nodes in if ltb k hash then rest else (k, node) ∷ nodes

abbrev or_begin {ℓ} : {T : Type ℓ} → Nodes T → Nodes T → Nodes T
or_begin nodes [] = nodes
or_begin nodes (n ∷ ns) = n ∷ ns

-- The iterator that `find` returns: the first node not below the hash, or begin().
unfoldable pub start {ℓ} : {T : Type ℓ} → ℕ → Nodes T → Nodes T
start hash nodes = or_begin nodes (seek hash nodes)

module _ {ℓ} {T : Type ℓ} (same : T → T → Bool) where
  unfoldable pub has : T → List T → Bool
  has t [] = false
  has t (x ∷ xs) = same x t || has t xs

  unfoldable pub add_thread : T → List T → List T
  add_thread t threads = if has t threads then threads else threads ++ (t ∷ [])

  -- The `while`: what is left of the map from the iterator on, and the threads found, whose number is `i`.
  -- `none` where the fuel is out. On an empty rest the iterator is end(), which the loop never holds.
  unfoldable pub walk : Nodes T → ℕ → ℕ → Nodes T → List T → Option (List T)
  walk nodes global_rep zero pos threads = none
  walk nodes global_rep (suc fuel) [] threads = none
  walk nodes global_rep (suc fuel) ((k, t) ∷ []) threads =
      let rest = walk nodes global_rep fuel nodes (add_thread t threads) in
      if ltb (length threads) global_rep then rest else some threads
  walk nodes global_rep (suc fuel) ((k, t) ∷ n ∷ ns) threads =
      let rest = walk nodes global_rep fuel (n ∷ ns) (add_thread t threads) in
      if ltb (length threads) global_rep then rest else some threads

  -- `find` returns end() on an empty ring only.
  unfoldable pub responsible_global : ℕ → ℕ → ℕ → Nodes T → Option (List T)
  responsible_global fuel hash global_rep [] = some []
  responsible_global fuel hash global_rep (n ∷ ns) =
      walk (n ∷ ns) global_rep fuel (start hash (n ∷ ns)) []
