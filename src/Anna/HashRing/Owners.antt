-- ===== src/Anna/HashRing/Owners.antt =====
-- The owner of a hash on the ring of src/dist/anna/include/consistent_hash_map.hpp, and what a node that
-- joins or leaves does to it.
use testbed.Prelude.{
  ℕ, ◌<◌, ◌≤◌, ◌≡◌, ◌≢◌, ◌⊎◌, inl, inr, refl, sym, ◌∙◌, some, none, [], ◌∷◌, arith, Option-cases,
}
use testbed.Anna.HashRing.{
  Nodes, insert_at, erase_at, lower_bound, ring_begin, ring_find, ring_empty, ring_insert,
  ring_erase,
}

abbrev pub IsAbove {ℓ} : {T : Type ℓ} → ℕ → Nodes T → Type 0
IsAbove h [] = Unit
IsAbove h ((k, node) ∷ nodes) = (h < k) × IsAbove k nodes

-- The hashes ascend.
abbrev pub IsRing {ℓ} : {T : Type ℓ} → Nodes T → Type 0
IsRing [] = Unit
IsRing ((k, node) ∷ nodes) = IsAbove k nodes

module _ {ℓ} {T : Type ℓ} where
  insert_at-IsAbove :
      (h b : ℕ) (x : T) (nodes : Nodes T)
      → b < h
      → IsAbove b nodes
      → IsAbove b (insert_at h x nodes)
  unfolding insert_at
  insert_at-IsAbove h b x [] lt a = (lt, tt)
  insert_at-IsAbove h b x ((k, y) ∷ nodes) lt a = ground (arith, insert_at-IsAbove h k x nodes)

  insert_at-IsRing : (h : ℕ) (x : T) (nodes : Nodes T) → IsRing nodes → IsRing (insert_at h x nodes)
  unfolding insert_at
  insert_at-IsRing h x [] a = tt
  insert_at-IsRing h x ((k, y) ∷ nodes) a = ground (arith, insert_at-IsAbove h k x nodes)

  lower_bound-insert_at :
      (h g : ℕ) (x : T) (nodes : Nodes T)
      → (lower_bound h (insert_at g x nodes) ≡ lower_bound h nodes)
        ⊎ (lower_bound h (insert_at g x nodes) ≡ some (g, x))
  unfolding insert_at lower_bound
  lower_bound-insert_at h g x [] = ground arith
  lower_bound-insert_at h g x ((k, y) ∷ nodes) = ground (arith, lower_bound-insert_at h g x nodes)

  lower_bound-erase_at :
      (h g k : ℕ) (x : T) (nodes : Nodes T)
      → k ≢ g
      → lower_bound h nodes ≡ some (k, x)
      → lower_bound h (erase_at g nodes) ≡ some (k, x)
  unfolding erase_at lower_bound
  lower_bound-erase_at h g k x [] ne e = ground arith
  lower_bound-erase_at h g k x ((j, y) ∷ nodes) ne e =
      ground (arith, lower_bound-erase_at h g k x nodes)

  begin-insert_at :
      (g : ℕ) (x : T) (nodes : Nodes T)
      → (ring_begin (insert_at g x nodes) ≡ ring_begin nodes)
        ⊎ (ring_begin (insert_at g x nodes) ≡ some (g, x))
  unfolding insert_at ring_begin
  begin-insert_at g x [] = ground arith
  begin-insert_at g x ((k, y) ∷ nodes) = ground arith

  begin-erase_at :
      (g k : ℕ) (x : T) (nodes : Nodes T)
      → k ≢ g
      → ring_begin nodes ≡ some (k, x)
      → ring_begin (erase_at g nodes) ≡ some (k, x)
  unfolding erase_at ring_begin
  begin-erase_at g k x [] ne e = ground arith
  begin-erase_at g k x ((j, y) ∷ nodes) ne e = ground arith

  lower_bound-erase_at-none :
      (h g : ℕ) (nodes : Nodes T)
      → lower_bound h nodes ≡ none
      → lower_bound h (erase_at g nodes) ≡ none
  unfolding erase_at lower_bound
  lower_bound-erase_at-none h g [] e = refl
  lower_bound-erase_at-none h g ((j, y) ∷ nodes) e =
      ground (arith, lower_bound-erase_at-none h g nodes)

  ring_find-lower_bound :
      (h : ℕ) (it : ℕ × T) (nodes : Nodes T)
      → lower_bound h nodes ≡ some it
      → ring_find h nodes ≡ some it
  unfolding ring_find ring_empty lower_bound
  ring_find-lower_bound h it [] e = e
  ring_find-lower_bound h it ((k, y) ∷ nodes) e = ground arith

  ring_find-begin :
      (h : ℕ) (nodes : Nodes T) → lower_bound h nodes ≡ none → ring_find h nodes ≡ ring_begin nodes
  unfolding ring_find ring_empty lower_bound ring_begin
  ring_find-begin h [] e = refl
  ring_find-begin h ((k, y) ∷ nodes) e = ground arith

  -- When a node joins, a key keeps its owner or moves to the new node.
  pub ring_find-ring_insert :
      (hasher_ : T → ℕ) (h : ℕ) (x : T) (nodes : Nodes T)
      → (ring_find h (ring_insert hasher_ x nodes) ≡ ring_find h nodes)
        ⊎ (ring_find h (ring_insert hasher_ x nodes) ≡ some (hasher_ x, x))
  unfolding ring_insert
  ring_find-ring_insert hasher_ h x nodes =
      let joined = insert_at (hasher_ x) x nodes in
      elim (Option-cases (lower_bound h joined)) [
        | inl n ↦ ground (
          arith,
          n,
          lower_bound-insert_at h (hasher_ x) x nodes,
          begin-insert_at (hasher_ x) x nodes,
          ring_find-begin h nodes,
          ring_find-begin h joined n,
        )
        | inr (it, e) ↦ ground (
          arith,
          e,
          lower_bound-insert_at h (hasher_ x) x nodes,
          ring_find-lower_bound h it nodes,
          ring_find-lower_bound h it joined e,
        )
      ]

  -- When a node leaves, every key that a node with another hash owns keeps its owner.
  pub ring_find-ring_erase :
      (hasher_ : T → ℕ) (h k : ℕ) (x owner : T) (nodes : Nodes T)
      → k ≢ hasher_ x
      → ring_find h nodes ≡ some (k, owner)
      → ring_find h (ring_erase hasher_ x nodes) ≡ some (k, owner)
  unfolding ring_erase
  ring_find-ring_erase hasher_ h k x owner nodes ne e =
      let left = erase_at (hasher_ x) nodes in
      elim (Option-cases (lower_bound h nodes)) [
        | inl n ↦ ground (
          arith,
          ring_find-begin h nodes n,
          ring_find-begin h left (lower_bound-erase_at-none h (hasher_ x) nodes n),
          begin-erase_at (hasher_ x) k owner nodes ne,
        )
        | inr (it, l) ↦ ground (
          arith,
          l,
          ring_find-lower_bound h it nodes l,
          lower_bound-erase_at h (hasher_ x) k owner nodes ne,
          ring_find-lower_bound h (k, owner) left,
        )
      ]

  -- A hash at which the ring has a node.
  abbrev pub HasHash : ℕ → Nodes T → Type 0
  HasHash j [] = ⊥
  HasHash j ((k, node) ∷ nodes) = (j ≡ k) ⊎ HasHash j nodes

  above-HasHash : (b j : ℕ) (nodes : Nodes T) → IsAbove b nodes → HasHash j nodes → b < j
  above-HasHash b j [] a m = elim m [ ]
  above-HasHash b j ((k, y) ∷ nodes) a m = ground (arith, above-HasHash k j nodes)

  above-IsRing : (b : ℕ) (nodes : Nodes T) → IsAbove b nodes → IsRing nodes
  above-IsRing b [] a = tt
  above-IsRing b ((k, y) ∷ nodes) a = a.1

  lower_bound-reaches :
      (h k : ℕ) (x : T) (nodes : Nodes T) → lower_bound h nodes ≡ some (k, x) → h ≤ k
  unfolding lower_bound
  lower_bound-reaches h k x [] e = ground arith
  lower_bound-reaches h k x ((i, y) ∷ nodes) e = ground (arith, lower_bound-reaches h k x nodes)

  lower_bound-nearest :
      (h k j : ℕ) (x : T) (nodes : Nodes T)
      → IsRing nodes
      → lower_bound h nodes ≡ some (k, x)
      → HasHash j nodes
      → h ≤ j
      → k ≤ j
  unfolding lower_bound
  lower_bound-nearest h k j x [] r e m le = elim m [ ]
  lower_bound-nearest h k j x ((i, y) ∷ nodes) r e m le =
      ground (
        arith,
        above-HasHash i j nodes r,
        lower_bound-nearest h k j x nodes (above-IsRing i nodes r),
      )

  lower_bound-below :
      (h j : ℕ) (nodes : Nodes T) → lower_bound h nodes ≡ none → HasHash j nodes → j < h
  unfolding lower_bound
  lower_bound-below h j [] e m = elim m [ ]
  lower_bound-below h j ((i, y) ∷ nodes) e m = ground (arith, lower_bound-below h j nodes)

  begin-least :
      (k j : ℕ) (x : T) (nodes : Nodes T)
      → IsRing nodes
      → ring_begin nodes ≡ some (k, x)
      → HasHash j nodes
      → k ≤ j
  unfolding ring_begin
  begin-least k j x [] r e m = elim m [ ]
  begin-least k j x ((i, y) ∷ nodes) r e m = ground (arith, above-HasHash i j nodes r)

  -- On a ring whose hashes ascend, the owner of a hash is the nearest node from it on: the least of the
  -- nodes that are not below it, or, when all are below it, the least of all.
  pub ring_find-nearest :
      (h k j : ℕ) (x : T) (nodes : Nodes T)
      → IsRing nodes
      → ring_find h nodes ≡ some (k, x)
      → HasHash j nodes
      → ((h ≤ k) × (h ≤ j → k ≤ j)) ⊎ ((j < h) × (k ≤ j))
  ring_find-nearest h k j x nodes r e m = elim (Option-cases (lower_bound h nodes)) [
    | inl n ↦ inr (
      lower_bound-below h j nodes n m,
      begin-least k j x nodes r (sym (ring_find-begin h nodes n) ∙ e) m,
    )
    | inr (it, l) ↦
        let first : lower_bound h nodes ≡ some (k, x) =
          l ∙ (sym (ring_find-lower_bound h it nodes l) ∙ e) in
        inl (lower_bound-reaches h k x nodes first, lower_bound-nearest h k j x nodes r first m)
  ]

  -- A node that joins keeps the hashes ascending.
  pub ring_insert-IsRing :
      (hasher_ : T → ℕ) (x : T) (nodes : Nodes T)
      → IsRing nodes
      → IsRing (ring_insert hasher_ x nodes)
  unfolding ring_insert
  ring_insert-IsRing hasher_ x nodes r = insert_at-IsRing (hasher_ x) x nodes r
