-- ===== src/Anna/HashRing/Servers/Placed.antt =====
-- The virtual threads that HashRing::insert of src/dist/anna/include/hash_ring.hpp puts on the ring.
use testbed.Prelude.{
  ℕ, suc, zero, ◌<◌, ◌≡◌, refl, ◌∙◌, ap, Bool, true, false, ◌||◌, [], ◌∷◌, Bytes, ltb, ◌==◌,
  Bool-cases, inl, inr, arith,
}
use testbed.Anna.HashRing.{Nodes, insert_at, ring_insert}
use testbed.Anna.HashRing.Servers.{
  ServerThread, HashRing, same_thread, insert_virtual, join, join_count_of,
}
use testbed.Anna.HashRing.Walk.{has}

-- Whether a node stands on the ring at the hash.
unfoldable pub stands {ℓ} : {T : Type ℓ} → ℕ → Nodes T → Bool
stands hash [] = false
stands hash ((k, node) ∷ nodes) = (k == hash) || stands hash nodes

stands-insert_at {ℓ} :
    {T : Type ℓ} (h hash : ℕ) (node : T) (nodes : Nodes T)
    → stands h (insert_at hash node nodes) ≡ ((hash == h) || stands h nodes)
unfolding stands insert_at
stands-insert_at h hash node [] = refl
stands-insert_at h hash node ((k, other) ∷ nodes) =
    ground (arith, stands-insert_at h hash node nodes)

abbrev pub virtual : Bytes → Bytes → ℕ → ServerThread
virtual public_ip private_ip n = record {
  public_ip = public_ip;
  private_ip = private_ip;
  tid = 0;
  virtual_num = n;
}

-- A node stands at the hash of each of the first virtual threads of a server.
abbrev pub ArePlaced : (ServerThread → ℕ) → ℕ → Bytes → Bytes → Nodes ServerThread → Type 0
ArePlaced hasher count public_ip private_ip nodes =
    (n : ℕ) → n < count → stands (hasher (virtual public_ip private_ip n)) nodes ≡ true

insert_virtual-ArePlaced :
    (hasher : ServerThread → ℕ) (public_ip private_ip : Bytes) (count : ℕ)
    (nodes : Nodes ServerThread)
    → ArePlaced hasher count public_ip private_ip
        (insert_virtual hasher public_ip private_ip 0 count nodes)
unfolding insert_virtual ring_insert
insert_virtual-ArePlaced hasher p q zero nodes n lt = absurd (omega (arith, lt))
insert_virtual-ArePlaced hasher p q (suc count) nodes n lt =
    stands-insert_at (hasher (virtual p q n)) (hasher (virtual p q count)) (virtual p q count)
      (insert_virtual hasher p q 0 count nodes)
    ∙ elim (Bool-cases (n == count)) [
      | inl e ↦
          let same : n ≡ count = ground (arith, e) in
          ap
            (λ i.
              (hasher (virtual p q count) == hasher (virtual p q i))
              || stands (hasher (virtual p q i)) (insert_virtual hasher p q 0 count nodes))
            same
          ∙ ground arith
      | inr e ↦
          ground (arith, insert_virtual-ArePlaced hasher p q count nodes n (ground (arith, e, lt)))
    ]

-- A server has its virtual threads on the ring after it has joined, if it has them there whenever it is
-- among the ring's servers before.
pub join-ArePlaced :
    (to_string : ℕ → Bytes) (hasher : ServerThread → ℕ) (k_virtual_thread_num : ℕ)
    (public_ip private_ip : Bytes) (join_count : ℕ) (r : HashRing)
    → (has (same_thread to_string) (virtual public_ip private_ip 0) r.unique_servers ≡ true
        → ArePlaced hasher k_virtual_thread_num public_ip private_ip r.nodes)
    → ArePlaced hasher k_virtual_thread_num public_ip private_ip
        (join to_string hasher k_virtual_thread_num public_ip private_ip join_count 0 r).1.nodes
unfolding join
join-ArePlaced to_string hasher k p q c r placed =
    elim (Bool-cases (has (same_thread to_string) (virtual p q 0) r.unique_servers)) [
      | inl e ↦ elim (Bool-cases (ltb (join_count_of q r.server_join_count) c)) [
        | inl newer ↦ rw (e, newer) (placed e)
        | inr stale ↦ rw (e, stale) (placed e)
      ]
      | inr e ↦ rw e (insert_virtual-ArePlaced hasher p q k r.nodes)
    ]
