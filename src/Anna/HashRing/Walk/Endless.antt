-- ===== src/Anna/HashRing/Walk/Endless.antt =====
-- Where `responsible_global` of src/dist/anna/src/hash_ring/hash_ring.cpp does not end.
use testbed.Prelude.{
  ℕ, zero, suc, ◌≤◌, ◌<◌, ◌≡◌, refl, ap, ◌∙◌, Bool, true, none, List, [], ◌∷◌, ◌++◌, length, arith,
}
use testbed.Anna.HashRing.{Nodes}
use testbed.Anna.HashRing.Walk.{start, add_thread, walk, responsible_global}
use testbed.Anna.HashRing.Walk.Distinct.{
  threads_of, distinct, distinct-append, distinct_longer, distinct-distinct,
}
use testbed.Anna.HashRing.Walk.Rounds.{walk-last, walk-next}

module _ {ℓ} {T : Type ℓ} (same : T → T → Bool) (same_refl : (t : T) → same t t ≡ true) where
  few : (acc xs ys : List T) → length acc ≤ length (distinct same (distinct same acc xs) ys)
  few acc xs ys =
      omega (arith, distinct_longer same acc xs, distinct_longer same (distinct same acc xs) ys)

  walk-no_fuel :
      (nodes : Nodes T) (rep : ℕ) (pos : Nodes T) (acc : List T)
      → walk same nodes rep 0 pos acc ≡ none
  unfolding walk
  walk-no_fuel nodes rep pos acc = refl

  walk-no_rest :
      (nodes : Nodes T) (rep fuel : ℕ) (acc : List T) → walk same nodes rep (suc fuel) [] acc ≡ none
  unfolding walk
  walk-no_rest nodes rep fuel acc = refl

  walk-endless :
      (nodes : Nodes T) (rep fuel : ℕ) (pos : Nodes T) (acc : List T)
      → length (distinct same (distinct same acc (threads_of pos)) (threads_of nodes)) < rep
      → walk same nodes rep fuel pos acc ≡ none
  unfolding distinct
  walk-endless nodes rep zero pos acc lt = walk-no_fuel nodes rep pos acc
  walk-endless nodes rep (suc fuel) [] acc lt = walk-no_rest nodes rep fuel acc
  walk-endless nodes rep (suc fuel) ((k, t) ∷ []) acc lt =
      let acc' = add_thread same t acc in
      let again = distinct-distinct same same_refl acc' (threads_of nodes) in
      walk-last same nodes rep fuel k t acc (omega (arith, lt, few acc (t ∷ []) (threads_of nodes)))
      ∙ walk-endless nodes rep fuel nodes acc'
          (omega (arith, lt, ap (λ (q : List T). length q) again))
  walk-endless nodes rep (suc fuel) ((k, t) ∷ n ∷ ns) acc lt =
      walk-next same nodes rep fuel k t n ns acc
        (omega (arith, lt, few acc (t ∷ threads_of (n ∷ ns)) (threads_of nodes)))
      ∙ walk-endless nodes rep fuel (n ∷ ns) (add_thread same t acc) lt

  -- With fewer different nodes on the ring than copies are asked for, the walk does not end, whatever the
  -- fuel. The ring is not empty, and a node is the same as itself.
  pub responsible_global-endless :
      (fuel hash global_rep : ℕ) (nodes : Nodes T)
      → 0 < length nodes
      → length (distinct same [] (threads_of (start hash nodes) ++ threads_of nodes)) < global_rep
      → responsible_global same fuel hash global_rep nodes ≡ none
  unfolding responsible_global
  responsible_global-endless fuel hash rep [] some_node lt = absurd (omega arith)
  responsible_global-endless fuel hash rep (n ∷ ns) some_node lt =
      let both = distinct-append same [] (threads_of (start hash (n ∷ ns))) (threads_of (n ∷ ns)) in
      walk-endless (n ∷ ns) rep fuel (start hash (n ∷ ns)) []
        (omega (arith, lt, ap (λ (q : List T). length q) both))
