-- ===== src/Anna/HashRing/Responsible/Primary.antt =====
-- The primary replica of a key is the first of the nodes responsible for it.
use testbed.Prelude.{
  ℕ, zero, suc, ◌+◌, ◌*◌, ◌≤◌, ◌<◌, ◌≡◌, refl, ap, ◌∙◌, Bool, true, false, ◌&&◌, Option, some, none,
  List, [], ◌∷◌, ◌++◌, Bytes, bytes_eq, length, take, if◌then◌else◌, ltb, ◌==◌, arith,
}
use testbed.Anna.HashRing.{Nodes, ring_find, ring_begin}
use testbed.Anna.HashRing.Servers.{ServerThread, same_thread}
use testbed.Anna.HashRing.Walk.{start, has, add_thread, responsible_global}
use testbed.Anna.HashRing.Walk.Distinct.{threads_of, distinct, Extends, distinct-Extends}
use testbed.Anna.HashRing.Walk.Rounds.{start-ring_find, responsible_global-distinct}
use testbed.Anna.HashRing.Responsible.{has_upper_tier_replica, is_local, is_at, is_primary_replica}

module _ {ℓ} {T : Type ℓ} (same : T → T → Bool) where
  -- The first node of a walk is the first that it finds.
  distinct-first : (t : T) (ts : List T) → (more : List T) × (distinct same [] (t ∷ ts) ≡ t ∷ more)
  unfolding distinct add_thread has Extends
  distinct-first t ts = distinct-Extends same (t ∷ []) ts

  take-first :
      (n : ℕ) (t : T) (more : List T) → 0 < n → (rest : List T) × (take n (t ∷ more) ≡ t ∷ rest)
  take-first zero t more lt = absurd (omega arith)
  take-first (suc n) t more lt = (take n more, refl)

  start-first :
      (hash k : ℕ) (t : T) (nodes : Nodes T)
      → ring_find hash nodes ≡ some (k, t)
      → (pos : List T) × (threads_of (start hash nodes) ≡ t ∷ pos)
  unfolding ring_begin
  start-first hash k t nodes e = go (start hash nodes) (start-ring_find hash nodes ∙ e)
    where
      node_or : Option (ℕ × T) → T
      node_or none = t
      node_or (some (k', t')) = t'

      is_there : Option (ℕ × T) → Bool
      is_there none = false
      is_there (some n) = true

      go :
          (pos : Nodes T)
          → ring_begin pos ≡ some (k, t)
          → (rest : List T) × (threads_of pos ≡ t ∷ rest)
      go [] e' = absurd (ground (arith, ap is_there e'))
      go ((k', t') ∷ pos) e' = (threads_of pos, ap (λ (x : T). x ∷ threads_of pos) (ap node_or e'))

  -- The first of the threads found for a key is the node that its hash is found at, if at least one is asked
  -- for and there are enough.
  responsible_global-first :
      (fuel hash k global_rep : ℕ) (t : T) (nodes : Nodes T)
      → 0 < length nodes
      → 0 < global_rep
      → global_rep ≤ length (distinct same [] (threads_of (start hash nodes) ++ threads_of nodes))
      → 2 * length nodes + 2 < fuel
      → ring_find hash nodes ≡ some (k, t)
      → (rest : List T) × (responsible_global same fuel hash global_rep nodes ≡ some (t ∷ rest))
  responsible_global-first fuel hash k rep t nodes some_node some_rep reaches enough e =
      let (pos, s) = start-first hash k t nodes e in
      let (more, d) = distinct-first t (pos ++ threads_of nodes) in
      let (rest, r) = take-first rep t more some_rep in
      (
        rest,
        responsible_global-distinct same fuel hash rep nodes some_node reaches enough
            ∙ ap some (
                ap (λ (q : List T). take rep (distinct same [] (q ++ threads_of nodes))) s
                ∙ ap (λ (q : List T). take rep q) d
                ∙ r),
      )

-- What the test of the rings says when it succeeds.
is_at-owner :
    (st : ServerThread) (found local_pos : Option (ℕ × ServerThread))
    → is_at st found local_pos ≡ true
    → (k : ℕ) × (node : ServerThread) × (found ≡ some (k, node))
      × (bytes_eq st.private_ip node.private_ip ≡ true)
unfolding is_at
is_at-owner st none l e = absurd (ground (arith, e))
is_at-owner st (some (k, node)) l e =
    (k, node, refl, left (bytes_eq st.private_ip node.private_ip) (is_local st l) e)
  where
    left : (a b : Bool) → a && b ≡ true → a ≡ true
    left true b h = refl
    left false b h = h

is_primary_replica-found :
    (memory self_tier : ℕ) (all_tiers : List ℕ) (global_replication : ℕ → ℕ)
    (global_hash local_hash : ℕ) (global_ring local_ring : Nodes ServerThread) (st : ServerThread)
    → is_primary_replica memory self_tier all_tiers global_replication global_hash local_hash
        global_ring local_ring st
      ≡ true
    → (0 < global_replication self_tier)
      × (is_at st (ring_find global_hash global_ring) (ring_find local_hash local_ring) ≡ true)
unfolding is_primary_replica
is_primary_replica-found memory self tiers rep gh lh g l st e =
    go (rep self == 0) refl (ltb memory self && has_upper_tier_replica self rep tiers) e
  where
    found : Bool
    found = is_at st (ring_find gh g) (ring_find lh l)

    go :
        (a : Bool)
        → (rep self == 0) ≡ a
        → (b : Bool) → (if a then false else if b then false else found) ≡ true
        → (0 < rep self) × (found ≡ true)
    go true e' b h = absurd (ground (arith, h))
    go false e' true h = absurd (ground (arith, h))
    go false e' false h = (ground (arith, e'), h)

-- A thread that takes itself for the primary replica of a key is on the node that the walk round the global
-- ring finds first: the server with its private address. The ring is not empty and has as many different
-- nodes as copies are asked for, and the fuel is more than two laps.
pub is_primary_replica-first :
    (to_string : ℕ → Bytes) (fuel memory self_tier : ℕ) (all_tiers : List ℕ)
    (global_replication : ℕ → ℕ) (global_hash local_hash : ℕ)
    (global_ring local_ring : Nodes ServerThread) (st : ServerThread)
    → 0 < length global_ring
    → global_replication self_tier
      ≤ length (
          distinct
            (same_thread to_string)
            []
            (threads_of (start global_hash global_ring) ++ threads_of global_ring))
    → 2 * length global_ring + 2 < fuel
    → is_primary_replica memory self_tier all_tiers global_replication global_hash local_hash
        global_ring local_ring st
      ≡ true
    → (node : ServerThread) × (rest : List ServerThread) × (responsible_global
          (same_thread to_string)
          fuel
          global_hash
          (global_replication self_tier)
          global_ring
        ≡ some (node ∷ rest))
      × (bytes_eq st.private_ip node.private_ip ≡ true)
is_primary_replica-first to_string fuel memory self tiers rep gh lh g l st some_node reaches enough
      e =
    let (some_rep, found) = is_primary_replica-found memory self tiers rep gh lh g l st e in
    let (k, node, here, same) = is_at-owner st (ring_find gh g) (ring_find lh l) found in
    let (rest, r) =
      responsible_global-first (same_thread to_string) fuel gh k (rep self) node g some_node
        some_rep reaches enough here in
    (node, rest, r, same)
