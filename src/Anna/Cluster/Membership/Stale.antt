-- ===== src/Anna/Cluster/Membership/Stale.antt =====
-- What the monitor keeps of a node that has left, in src/dist/anna/src/monitor.
use testbed.Prelude.{
  ℕ, ◌≡◌, ◌≢◌, refl, ap, false, Option, some, [], ◌∷◌, ◌++◌, Bytes, bytes_eq, bytes_eq_iff, length,
  length-append, Bool-cases, inl, inr, arith,
}
use testbed.Anna.Lattice.MapLattice.{StringMap, find}
use testbed.Anna.HashRing.Servers.{ServerThread}
use testbed.Anna.Server.Maps.{map_erase, find-map_erase}
use testbed.Anna.Cluster.{
  Tier, tier_unspecified, memory, disk, routing, tier_name, colon, parted, returned,
}
use testbed.Anna.Cluster.Fields.{IsFree, split-parted}
use testbed.Anna.Cluster.Joining.Repeated.{tier_name-IsFree}
use testbed.Anna.Cluster.Membership.{
  Monitor, depart_word, monitor_type, monitor_forget, monitor_parsed, monitor_tokens,
  monitor_membership_handler, ip_pair, ring_remove,
}

ip_pair-other :
    (public_ip private_ip : Bytes) → bytes_eq private_ip (ip_pair public_ip private_ip) ≡ false
unfolding ip_pair
ip_pair-other p q = elim (Bool-cases (bytes_eq q (p ++ (47 ∷ q)))) [
  | inl e ↦
      let longer = length-append p (47 ∷ q) in
      let same = ap length ((bytes_eq_iff q (p ++ (47 ∷ q))).0 e) in
      absurd (omega (arith, longer, same))
  | inr e ↦ e
]

erased-other :
    {A : Type 0} (p q : Bytes) (m : StringMap A)
    → find (ip_pair p q) (map_erase q m) ≡ find (ip_pair p q) m
erased-other p q m = rw (find-map_erase q (ip_pair p q) m, ip_pair-other p q) refl

module _ {A B : Type 0} (to_string : ℕ → Bytes) (hasher : ServerThread → ℕ)
    (k_virtual_thread_num : ℕ) (now k_memory_thread_count k_ebs_thread_count : ℕ) where
  forgotten :
      (t : Tier) (p q : Bytes) (m : Monitor A B)
      → (let m' =
            monitor_forget to_string hasher k_virtual_thread_num now k_memory_thread_count
              k_ebs_thread_count t q m in
          (m'.global_hash_rings ≡ m.global_hash_rings)
          × ((find (ip_pair p q) m'.memory_storage ≡ find (ip_pair p q) m.memory_storage)
              × (find (ip_pair p q) m'.ebs_storage ≡ find (ip_pair p q) m.ebs_storage)
              × (find (ip_pair p q) m'.memory_occupancy ≡ find (ip_pair p q) m.memory_occupancy)
              × (find (ip_pair p q) m'.ebs_occupancy ≡ find (ip_pair p q) m.ebs_occupancy)))
  unfolding monitor_forget
  forgotten memory p q m =
      (refl, (erased-other p q m.memory_storage, refl, erased-other p q m.memory_occupancy, refl))
  forgotten disk p q m =
      (refl, (refl, erased-other p q m.ebs_storage, refl, erased-other p q m.ebs_occupancy))
  forgotten routing p q m = (refl, (refl, refl, refl, refl))
  forgotten tier_unspecified p q m = (refl, (refl, refl, refl, refl))

  -- The message that a node sends when it leaves takes it off the monitor's ring of its tier, but what the
  -- monitor knows of the node's storage and occupancy stays, since that is kept under both addresses and
  -- erased under one. The addresses contain no ':', the private one is not empty, and tiers are read as they
  -- are written.
  pub monitor_membership-stale :
      (tier_parse : Bytes → Option Tier) (t : Tier) (public_ip private_ip : Bytes) (m : Monitor A B)
      → ((u : Tier) → tier_parse (tier_name u) ≡ some u)
      → IsFree colon public_ip
      → IsFree colon private_ip
      → private_ip ≢ []
      → (let name = ip_pair public_ip private_ip in
          (m' : Monitor A B) × (monitor_membership_handler to_string hasher k_virtual_thread_num now
              k_memory_thread_count k_ebs_thread_count tier_parse
              (parted colon depart_word (tier_name t ∷ public_ip ∷ private_ip ∷ []))
              m
            ≡ returned m')
          × (m'.global_hash_rings
              ≡ ring_remove to_string hasher k_virtual_thread_num t public_ip private_ip
                  m.global_hash_rings)
          × (find name m'.memory_storage ≡ find name m.memory_storage)
          × (find name m'.ebs_storage ≡ find name m.ebs_storage)
          × (find name m'.memory_occupancy ≡ find name m.memory_occupancy)
          × (find name m'.ebs_occupancy ≡ find name m.ebs_occupancy))
  unfolding monitor_membership_handler monitor_tokens monitor_parsed monitor_type bytes_eq
  monitor_membership-stale tier_parse t p q m reads fp fq filled =
      let tokens =
        split-parted colon depart_word (tier_name t ∷ p ∷ q ∷ [])
          (refl, (refl, (refl, (refl, (refl, (refl, tt)))))) (tier_name-IsFree t, (fp, (fq, tt)))
          filled in
      let left : Monitor A B = record m {
        global_hash_rings =
            ring_remove to_string hasher k_virtual_thread_num t p q m.global_hash_rings;
      } in
      let (rings, kept) = forgotten t p q left in
      (
        monitor_forget to_string hasher k_virtual_thread_num now k_memory_thread_count
            k_ebs_thread_count t q left,
        rw (tokens, reads t) refl,
        rings,
        kept.0,
        kept.1,
        kept.2,
        kept.3,
      )
