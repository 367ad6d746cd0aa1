-- ===== src/Anna/Cluster/Joining/Repeated.antt =====
-- Messages about a node that joins end: node_join_handler of src/dist/anna/src/kvs/node_join_handler.cpp.
use testbed.Prelude.{
  ℕ, ◌≤◌, ◌≡◌, ◌≢◌, refl, ap, ◌∙◌, Bool, true, false, Option, some, none, List, [], ◌∷◌, Bytes, ltb,
  if◌then◌else◌, Bool-cases, inl, inr,
}
use testbed.Anna.Lattice.MapLattice.{StringMap}
use testbed.Anna.Kvs.{KeyProperty}
use testbed.Anna.HashRing.Servers.{ServerThread, HashRing, join, same_thread, join-join, join-known}
use testbed.Anna.HashRing.Servers.Placed.{virtual, ArePlaced, join-ArePlaced}
use testbed.Anna.HashRing.Walk.{has}
use testbed.Anna.Cluster.{Tier, tier_unspecified, memory, disk, routing, tier_name, colon, returned}
use testbed.Anna.Cluster.Fields.{IsFree, split-parted}
use testbed.Anna.Cluster.Rings.{GlobalRingMap, same_tier, ring_at, set_ring}
use testbed.Anna.Cluster.Departing.{Sent}
use testbed.Anna.Cluster.Joining.{
  Node, NodeState, join_message, hand_over, hand_over_keys, joined, take_join, take_parsed,
  join_tokens, node_join_handler,
}

same_tier_refl : (t : Tier) → same_tier t t ≡ true
unfolding same_tier
same_tier_refl tier_unspecified = refl
same_tier_refl memory = refl
same_tier_refl disk = refl
same_tier_refl routing = refl

pub ring_at-set_ring :
    (t : Tier) (r : HashRing) (rings : GlobalRingMap) → ring_at t (set_ring t r rings) ≡ r
unfolding ring_at set_ring
ring_at-set_ring t r [] = rw (same_tier_refl t) refl
ring_at-set_ring t r ((u, old) ∷ rings) = elim (Bool-cases (same_tier u t)) [
  | inl e ↦ rw (e, e) refl
  | inr e ↦ rw (e, e) (ring_at-set_ring t r rings)
]

set_ring-set_ring :
    (t : Tier) (r : HashRing) (rings : GlobalRingMap)
    → set_ring t r (set_ring t r rings) ≡ set_ring t r rings
unfolding set_ring
set_ring-set_ring t r [] = rw (same_tier_refl t) refl
set_ring-set_ring t r ((u, old) ∷ rings) = elim (Bool-cases (same_tier u t)) [
  | inl e ↦ rw (e, e) refl
  | inr e ↦ rw (e, e) (ap (λ l. (u, old) ∷ l) (set_ring-set_ring t r rings))
]

-- A tier's name has no ':'.
pub tier_name-IsFree : (t : Tier) → IsFree colon (tier_name t)
unfolding tier_name
tier_name-IsFree tier_unspecified = (
  refl,
  (
    refl,
    (
      refl,
      (
        refl,
        (
          refl,
          (
            refl,
            (refl, (refl, (refl, (refl, (refl, (refl, (refl, (refl, (refl, (refl, tt)))))))))),
          ),
        ),
      ),
    ),
  ),
)
tier_name-IsFree memory = (refl, (refl, (refl, (refl, (refl, (refl, tt))))))
tier_name-IsFree disk = (refl, (refl, (refl, (refl, tt))))
tier_name-IsFree routing = (refl, (refl, (refl, (refl, (refl, (refl, (refl, tt)))))))

if-rings :
    (b : Bool) (x y : NodeState) (rings : GlobalRingMap)
    → x.global_hash_rings ≡ rings
    → y.global_hash_rings ≡ rings
    → (if b then x else y).global_hash_rings ≡ rings
if-rings true x y rings h k = h
if-rings false x y rings h k = k

-- What the two ends of a message agree on: numbers that an `int` holds, and tiers, are read as they were
-- written.
pub record Reads (to_string : ℕ → Bytes) (stoi : Bytes → Option ℕ)
    (tier_parse : Bytes → Option Tier) : Type 0 where
  pub stoi-to_string : (n : ℕ) → n ≤ 2147483647 → stoi (to_string n) ≡ some n
  pub tier_parse-tier_name : (t : Tier) → tier_parse (tier_name t) ≡ some t
  pub to_string-IsFree : (n : ℕ) → IsFree colon (to_string n)
  pub to_string-filled : (n : ℕ) → to_string n ≢ []

module _ (to_string : ℕ → Bytes) (is_self : ServerThread → ServerThread → Bool)
    (hasher : ServerThread → ℕ) (k_virtual_thread_num : ℕ)
    (get_responsible_threads : GlobalRingMap → Bytes → Option (List ServerThread)) where
  hand_over_keys-rings :
      (wt : ServerThread) (count : ℕ) (ip : Bytes)
      (responsible : Bytes → Option (List ServerThread)) (stored : StringMap KeyProperty)
      (s : NodeState)
      → (hand_over_keys to_string is_self wt count ip responsible stored s).global_hash_rings
        ≡ s.global_hash_rings
  unfolding hand_over_keys hand_over
  hand_over_keys-rings wt count ip responsible [] s = refl
  hand_over_keys-rings wt count ip responsible ((key, p) ∷ stored) s =
      hand_over_keys-rings wt count ip responsible stored
        (hand_over to_string is_self wt count ip key (responsible key) s)
      ∙ one (responsible key)
    where
      one :
          (o : Option (List ServerThread))
          → (hand_over to_string is_self wt count ip key o s).global_hash_rings
            ≡ s.global_hash_rings
      one none = refl
      one (some threads) =
          if-rings (ltb 0 count) _ _ s.global_hash_rings refl
            (if-rings (has is_self wt threads) _ _ s.global_hash_rings refl refl)

  -- What a join leaves on the rings.
  take_join-rings :
      (node : Node) (t : Tier) (p q : Bytes) (count : ℕ) (msg : Bytes)
      (stored : StringMap KeyProperty) (s : NodeState)
      → (let r =
            (join to_string hasher k_virtual_thread_num p q count 0
              (ring_at t s.global_hash_rings)).1 in
          (take_join to_string is_self hasher k_virtual_thread_num get_responsible_threads node t p
            q count msg stored s).1.global_hash_rings
          ≡ set_ring t r s.global_hash_rings)
  unfolding take_join joined
  take_join-rings node t p q count msg stored s =
      let after : GlobalRingMap =
        set_ring t
          (join to_string hasher k_virtual_thread_num p q count 0 (ring_at t s.global_hash_rings)).1
          s.global_hash_rings in
      let s1 : NodeState = record s { global_hash_rings = after } in
      elim (Bool-cases
        (join to_string hasher k_virtual_thread_num p q count 0
          (ring_at t s.global_hash_rings)).0) [
            | inl e ↦ rw e (
                if-rings (same_tier t node.self_tier) _ _ after
                  (hand_over_keys-rings node.wt count q (get_responsible_threads after) stored s1)
                  refl)
            | inr e ↦ rw e refl
          ]

  take_join-again :
      (node : Node) (t : Tier) (p q : Bytes) (count : ℕ) (msg : Bytes)
      (stored : StringMap KeyProperty) (s s1 : NodeState)
      → s1.global_hash_rings
        ≡ set_ring t
            (join to_string hasher k_virtual_thread_num p q count 0
              (ring_at t s.global_hash_rings)).1
            s.global_hash_rings
      → take_join to_string is_self hasher k_virtual_thread_num get_responsible_threads node t p q
          count msg stored s1
        ≡ ([], s1)
  unfolding take_join
  take_join-again node t p q count msg stored s s1 h =
      let r =
        (join to_string hasher k_virtual_thread_num p q count 0
          (ring_at t s.global_hash_rings)).1 in
      let there : ring_at t s1.global_hash_rings ≡ r =
        rw h (ring_at-set_ring t r s.global_hash_rings) in
      let (again, later) =
        join-join to_string hasher k_virtual_thread_num p q count 0
          (ring_at t s.global_hash_rings) in
      let same : set_ring t r s1.global_hash_rings ≡ s1.global_hash_rings =
        rw h (set_ring-set_ring t r s.global_hash_rings) in
      rw (there, again) (ap (λ rings. ([], record s1 { global_hash_rings = rings })) same)

  -- The message about a node that one server writes is taken by another, which then has the node among the
  -- servers of its tier and something on the ring at the hash of each of its virtual threads; the same
  -- message taken again changes nothing and is passed on to nobody, so that it does not go round for ever.
  -- The addresses contain no ':', tiers and numbers are read as they are written, the count fits an `int`,
  -- and if the node was among the servers before, it had its virtual threads on the ring.
  pub node_join_handler-repeated :
      (stoi : Bytes → Option ℕ) (tier_parse : Bytes → Option Tier) (node : Node) (t : Tier)
      (public_ip private_ip : Bytes) (count : ℕ) (stored later : StringMap KeyProperty)
      (s : NodeState)
      → Reads to_string stoi tier_parse
      → count ≤ 2147483647
      → (has
              (same_thread to_string)
              (virtual public_ip private_ip 0)
              (ring_at t s.global_hash_rings).unique_servers
            ≡ true
          → ArePlaced hasher k_virtual_thread_num public_ip private_ip
              (ring_at t s.global_hash_rings).nodes)
      → IsFree colon public_ip
      → IsFree colon private_ip
      → (let handler =
            node_join_handler to_string is_self hasher k_virtual_thread_num get_responsible_threads
              tier_parse stoi node
              (join_message to_string t public_ip private_ip count) in
          (sent : List Sent) × (s1 : NodeState) × (handler stored s ≡ returned (sent, s1))
          × (has
                (same_thread to_string)
                (record {
                  public_ip = public_ip;
                  private_ip = private_ip;
                  tid = 0;
                  virtual_num = 0;
                })
                (ring_at t s1.global_hash_rings).unique_servers
              ≡ true)
          × ArePlaced hasher k_virtual_thread_num public_ip private_ip
              (ring_at t s1.global_hash_rings).nodes
          × (handler later s1 ≡ returned ([], s1)))
  unfolding node_join_handler join_tokens take_parsed join_message
  node_join_handler-repeated stoi tier_parse node t p q count stored later s reads small placed fp
        fq =
      let msg = join_message to_string t p q count in
      let tokens =
        split-parted colon (tier_name t) (p ∷ q ∷ to_string count ∷ []) (tier_name-IsFree t)
          (fp, (fq, (reads.to_string-IsFree count, tt))) (reads.to_string-filled count) in
      let (sent, s1) =
        take_join to_string is_self hasher k_virtual_thread_num get_responsible_threads node t p q
          count msg stored s in
      let rings = take_join-rings node t p q count msg stored s in
      let (known, stale) =
        join-known to_string hasher k_virtual_thread_num p q count 0
          (ring_at t s.global_hash_rings) in
      (
        sent,
        s1,
        rw (tokens, reads.tier_parse-tier_name t, reads.stoi-to_string count small) refl,
        rw (rings, ring_at-set_ring t _ s.global_hash_rings) known,
        rw (rings, ring_at-set_ring t _ s.global_hash_rings)
            (join-ArePlaced to_string hasher k_virtual_thread_num p q count
              (ring_at t s.global_hash_rings) placed),
        rw (tokens, reads.tier_parse-tier_name t, reads.stoi-to_string count small)
            (ap returned (take_join-again node t p q count msg later s s1 rings)),
      )
