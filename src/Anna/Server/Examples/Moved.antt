-- ===== src/Anna/Server/Examples/Moved.antt =====
-- The theorems about keys that move between servers, at concrete states.
use testbed.Prelude.{
  ℕ, ◌≡◌, refl, true, false, Option, some, List, [], ◌∷◌, Bytes, bytes_eq, take, if◌then◌else◌,
  arith, max,
}
use testbed.Anna.Lattice.SetLattice.{StringSet, elem, set_insert}
use testbed.Anna.Lattice.MapLattice.{StringMap, find, contains}
use testbed.Anna.Kvs.{KeyProperty, Serializer, AnnaError}
use testbed.Anna.Kvs.Store.{value_or}
use testbed.Anna.HashRing.Servers.{ServerThread}
use testbed.Anna.Cluster.{returned, memory}
use testbed.Anna.Cluster.Rings.{GlobalRingMap}
use testbed.Anna.Cluster.Joining.{NodeState, hand_over_keys}
use testbed.Anna.Server.Maps.{set_at, set_erase}
use testbed.Anna.Server.Caches.{CacheMaps, CacheTuple, cache_ip_response_handler, track_caches}
use testbed.Anna.Server.Caches.Mirror.{IsMirrored, caches-IsMirrored}
use testbed.Anna.Server.Gossip.{PutTuple, gossip_keys}
use testbed.Anna.Server.Redistribute.{Joins, redistribute_passes}
use testbed.Anna.Server.Redistribute.Passes.{ever_sent, redistribute_passes-stuck}
use testbed.Anna.Server.Replication.{ReplicaState, KeyReplication}
use testbed.Anna.Server.Replication.Change.{Change, ReplicationFactor}
use testbed.Anna.Server.Replication.Handed.{IsHandedOver, hand_over_keys-IsHandedOver}
use testbed.Anna.Server.TakeGossip.{mismatches, gossip_handler}
use testbed.Anna.Server.TakeGossip.Merged.{gossip-merged}
use testbed.Anna.Server.Examples.{
  key_a, key_b, counters, one_byte, first_byte, first_byte-one_byte, is_zero, size_one, serializers,
  thread_a, thread_b, same_ip, owners, started, a_known, a_has,
}

abbrev replica : ReplicaState (StringMap ℕ)
replica = record { server = started; key_replication_map = []; pending_gossip = [] }

abbrev stored_a : KeyProperty
stored_a = record { size_ = 1; type_ = 1 }

a_found : find key_a started.store ≡ some 5
unfolding find bytes_eq
a_found = refl

a_stored : find key_a started.stored_key_map ≡ some stored_a
unfolding find bytes_eq
a_stored = refl

a_matches : mismatches 1 (find key_a started.stored_key_map) ≡ false
unfolding mismatches find bytes_eq
a_matches = refl

gossip-merged_example :
    (tuples : List PutTuple) × (rs' : ReplicaState (StringMap ℕ)) × (gossip_keys serializers
        (key_a ∷ [])
        started.stored_key_map
        started.store
      ≡ (tuples, started.store))
    × (gossip_handler serializers one_byte owners same_ip thread_a tuples [] replica
        ≡ returned ([], rs'))
    × ((j : Bytes)
        → find j rs'.server.store ≡ (
            if bytes_eq key_a j
            then some (max (value_or 0 (find j started.store)) 5)
            else find j started.store))
gossip-merged_example =
    gossip-merged counters is_zero size_one one_byte first_byte first_byte-one_byte serializers
      one_byte owners same_ip thread_a key_a stored_a 5 started.stored_key_map started.store
      (thread_a ∷ []) replica a_stored refl a_found refl (λ e. cc) a_known a_has a_matches

abbrev joins : Joins (StringMap ℕ)
joins = record {
  join_gossip_map = (key_b, key_a ∷ key_b ∷ []) ∷ [];
  join_remove_set = key_a ∷ [];
  stored_key_map = started.stored_key_map;
  store = started.store;
}

b_joins : find key_b joins.join_gossip_map ≡ some (key_a ∷ key_b ∷ [])
unfolding find bytes_eq
b_joins = refl

a_not_b : elem key_a (key_b ∷ []) ≡ false
unfolding elem bytes_eq
a_not_b = refl

b_not_none : elem key_b [] ≡ false
unfolding elem
b_not_none = refl

none_contains : contains {V = StringSet} key_b [] ≡ false
unfolding contains find
none_contains = refl

redistribute_passes-stuck_example :
    (let (messages, j') = redistribute_passes serializers 5 1 joins in
      (find key_b j'.join_gossip_map ≡ some (key_a ∷ key_b ∷ []))
      × (j'.join_remove_set ≡ key_a ∷ [])
      × (j'.stored_key_map ≡ started.stored_key_map)
      × ((y : Bytes)
          → elem y (take 1 (key_a ∷ key_b ∷ [])) ≡ false
          → ever_sent serializers key_b y messages ≡ false))
redistribute_passes-stuck_example =
    redistribute_passes-stuck serializers 5 1 key_b (key_a ∷ key_b ∷ []) joins (omega arith)
      (none_contains, (a_not_b, (b_not_none, tt)), tt) b_joins (omega arith)

-- A store that is the set of its keys.
abbrev listing : Serializer StringSet
listing = record {
  get = λ key error s. (([], if elem key s then error else AnnaError.key_dne), s);
  put = λ key payload s. (0, set_insert key s);
  remove = set_erase;
}

abbrev listed : Joins StringSet
listed = record {
  join_gossip_map = (key_b, key_a ∷ key_b ∷ []) ∷ [];
  join_remove_set = key_a ∷ [];
  stored_key_map = started.stored_key_map;
  store = key_a ∷ key_b ∷ [];
}

abbrev caches : CacheMaps
caches = record {
  extant_caches = key_b ∷ [];
  cache_ip_to_keys = (key_b, key_a ∷ []) ∷ [];
  key_to_cache_ips = (key_a, key_b ∷ []) ∷ [];
}

listed_both_ways : IsMirrored caches
unfolding set_at find value_or elem
listed_both_ways ip key = ground arith

caches-IsMirrored_example :
    ((tuples : List CacheTuple)
      → IsMirrored (cache_ip_response_handler (λ v. v) (λ v. v ∷ []) tuples caches))
    × ((func_nodes : List Bytes) → IsMirrored (track_caches func_nodes caches))
caches-IsMirrored_example = caches-IsMirrored (λ v. v) (λ v. v ∷ []) caches listed_both_ways

abbrev by_factors : StringMap KeyReplication → Bytes → Option (List ServerThread)
by_factors m key = some (thread_b ∷ [])

abbrev unchanged : Change
unchanged = record { key_replication_map = []; addr_keyset_map = []; remove_set = [] }

abbrev more_copies : ReplicationFactor
more_copies = record { key = key_a; global = (memory, 2) ∷ []; local = (memory, 1) ∷ [] }

none_removed : (key : Bytes) → elem key [] ≡ true → ⊥
unfolding elem
none_removed key h = cc

abbrev by_rings : GlobalRingMap → Bytes → Option (List ServerThread)
by_rings rings key = some (thread_b ∷ [])

abbrev calm : NodeState
calm = record { global_hash_rings = []; join_gossip_map = []; join_remove_set = [] }

hand_over_keys-IsHandedOver_example :
    (let s' =
        hand_over_keys one_byte same_ip thread_a 0 key_b
          (by_rings [])
          started.stored_key_map
          calm in
      IsHandedOver one_byte same_ip thread_a by_rings s'.join_remove_set s'.join_gossip_map)
hand_over_keys-IsHandedOver_example =
    hand_over_keys-IsHandedOver one_byte same_ip thread_a by_rings 0 key_b [] started.stored_key_map
      calm (λ key e. absurd (none_removed key e))
