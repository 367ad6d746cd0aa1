-- ===== src/Anna/HashRing/Responsible.antt =====
-- Which threads hold a key, by the rings of src/dist/anna/src/hash_ring/hash_ring.cpp, and
-- is_primary_replica of src/dist/anna/src/kvs/utils.cpp. The hashes of the key are arguments, and `fuel` is
-- that of the walks round the rings; `none` stands for a walk that has not ended. A set of thread numbers is
-- the list of them in the order found.
pub mod Primary
use testbed.Prelude.{
  ℕ, zero, suc, ◌+◌, Bool, true, false, ◌&&◌, ◌||◌, not, Option, some, none, List, [], ◌∷◌, ◌++◌,
  Bytes, bytes_eq, if◌then◌else◌, ltb, ◌==◌,
}
use testbed.Anna.HashRing.{Nodes, ring_find}
use testbed.Anna.HashRing.Servers.{ServerThread, same_thread}
use testbed.Anna.HashRing.Walk.{responsible_global}

-- The nodes of a local ring, each with its thread's number.
unfoldable pub tids_of : Nodes ServerThread → Nodes ℕ
tids_of [] = []
tids_of ((k, st) ∷ nodes) = (k, st.tid) ∷ tids_of nodes

abbrev same_tid : ℕ → ℕ → Bool
same_tid a b = a == b

unfoldable pub responsible_local : ℕ → ℕ → ℕ → Nodes ServerThread → Option (List ℕ)
responsible_local fuel hash local_rep nodes =
    responsible_global same_tid fuel hash local_rep (tids_of nodes)

-- `ServerThread(public_ip, private_ip, tid)` for each number. That constructor leaves the virtual number
-- unset; nothing reads it.
unfoldable pub threads_on : ServerThread → List ℕ → List ServerThread
threads_on st [] = []
threads_on st (tid ∷ tids) =
    record { public_ip = st.public_ip; private_ip = st.private_ip; tid = tid; virtual_num = 0 }
    ∷ threads_on st tids

-- The loop over the nodes, with the walk of the local ring, the same in each pass.
unfoldable pub spread : List ServerThread → Option (List ℕ) → Option (List ServerThread)
spread [] tids = some []
spread (st ∷ threads) none = none
spread (st ∷ threads) (some tids) = elim (spread threads (some tids)) [
  | none ↦ none
  | some result ↦ some (threads_on st tids ++ result)
]

-- One tier: the walk round its global ring, and the loop over what that found.
unfoldable pub responsible_in_tier :
    (ℕ → Bytes)
    → ℕ
    → ℕ
    → ℕ
    → ℕ
    → ℕ
    → Nodes ServerThread
    → Nodes ServerThread
    → Option (List ServerThread)
responsible_in_tier to_string fuel global_hash local_hash global_rep local_rep global_ring
      local_ring =
    elim (responsible_global (same_thread to_string) fuel global_hash global_rep global_ring) [
      | none ↦ none
      | some threads ↦ spread threads (responsible_local fuel local_hash local_rep local_ring)
    ]

-- With the metadata's replication factor and the default one.
unfoldable pub get_responsible_threads_metadata :
    (ℕ → Bytes)
    → ℕ
    → ℕ
    → ℕ
    → ℕ
    → ℕ
    → Nodes ServerThread
    → Nodes ServerThread
    → Option (List ServerThread)
get_responsible_threads_metadata to_string fuel global_hash local_hash k_metadata_replication_factor
      k_default_local_replication global_ring local_ring =
    responsible_in_tier to_string fuel global_hash local_hash k_metadata_replication_factor
      k_default_local_replication global_ring local_ring

-- What is known of a tier: its replication factors for the key, and its rings.
pub record TierView : Type 0 where
  pub global_replication : ℕ
  pub local_replication : ℕ
  pub global_ring : Nodes ServerThread
  pub local_ring : Nodes ServerThread

-- get_responsible_threads of a data key whose replication is known: the loop over the tiers.
unfoldable pub responsible_in_tiers :
    (ℕ → Bytes) → ℕ → ℕ → ℕ → List TierView → Option (List ServerThread)
responsible_in_tiers to_string fuel global_hash local_hash [] = some []
responsible_in_tiers to_string fuel global_hash local_hash (t ∷ tiers) =
    elim (responsible_in_tier to_string fuel global_hash local_hash t.global_replication
      t.local_replication t.global_ring t.local_ring) [
        | none ↦ none
        | some here ↦ elim (responsible_in_tiers to_string fuel global_hash local_hash tiers) [
          | none ↦ none
          | some rest ↦ some (here ++ rest)
        ]
      ]

-- Whether a tier above the thread's own has a replica. Tiers are numbered from the memory tier up.
unfoldable pub has_upper_tier_replica : ℕ → (ℕ → ℕ) → List ℕ → Bool
has_upper_tier_replica self_tier global_replication [] = false
has_upper_tier_replica self_tier global_replication (tier ∷ tiers) =
    (ltb tier self_tier && ltb 0 (global_replication tier))
    || has_upper_tier_replica self_tier global_replication tiers

-- The comparison with what the rings' `find` returned.
unfoldable pub is_local : ServerThread → Option (ℕ × ServerThread) → Bool
is_local st none = false
is_local st (some (h, worker)) = st.tid == worker.tid

unfoldable pub is_at : ServerThread → Option (ℕ × ServerThread) → Option (ℕ × ServerThread) → Bool
is_at st none local_pos = false
is_at st (some (h, node)) local_pos =
    bytes_eq st.private_ip node.private_ip && is_local st local_pos

unfoldable pub is_primary_replica :
    ℕ → ℕ → List ℕ → (ℕ → ℕ) → ℕ → ℕ → Nodes ServerThread → Nodes ServerThread → ServerThread → Bool
is_primary_replica memory self_tier all_tiers global_replication global_hash local_hash global_ring
      local_ring st =
    if global_replication self_tier == 0
    then false
    else if ltb memory self_tier && has_upper_tier_replica self_tier global_replication all_tiers
    then false
    else is_at st (ring_find global_hash global_ring) (ring_find local_hash local_ring)
