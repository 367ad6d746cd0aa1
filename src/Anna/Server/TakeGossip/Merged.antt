-- ===== src/Anna/Server/TakeGossip/Merged.antt =====
-- What one server of src/dist/anna/src/kvs sends by send_gossip, and another takes by gossip_handler.
use testbed.Prelude.{
  ℕ, ◌≡◌, ◌≢◌, refl, Bool, true, false, Option, some, List, [], ◌∷◌, Bytes, bytes_eq, if◌then◌else◌,
}
use testbed.Anna.Lattice.Interface.{Lattice}
use testbed.Anna.Lattice.MapLattice.{StringMap, find}
use testbed.Anna.Kvs.{Serializer, KeyProperty, process_put, process_get, memory_serializer}
use testbed.Anna.Kvs.Store.{value_or, find-kvs_put}
use testbed.Anna.Kvs.Requests.{memory_put-kvs_put, memory_get-there}
use testbed.Anna.HashRing.Servers.{ServerThread}
use testbed.Anna.HashRing.Walk.{has}
use testbed.Anna.Cluster.{returned}
use testbed.Anna.Server.Caches.{is_no_error}
use testbed.Anna.Server.Gossip.{PutTuple, tuple_unless_error, gossip_key, gossip_keys}
use testbed.Anna.Server.Requests.Answered.{is_metadata-some}
use testbed.Anna.Server.Replication.{ReplicaState}
use testbed.Anna.Server.TakeGossip.{
  Messages, mismatches, then_gossip, merge_gossip, take_tuple, gossip_tuple, gossip_handler,
}

module _ {V : Type 0} (l : Lattice V) (is_empty : V → Bool) (size : V → ℕ) (serialize : V → Bytes)
    (deserialize : Bytes → V) (deserialize-serialize : (v : V) → deserialize (serialize v) ≡ v)
    (serializers : ℕ → Serializer (StringMap V)) where
  -- The sender reads the value and leaves its store as it is.
  gossip_keys-stored :
      (key : Bytes) (p : KeyProperty) (v : V) (stored : StringMap KeyProperty) (kvs : StringMap V)
      → find key stored ≡ some p
      → serializers p.type_ ≡ memory_serializer l is_empty size serialize deserialize
      → find key kvs ≡ some v
      → is_empty v ≡ false
      → gossip_keys serializers (key ∷ []) stored kvs
        ≡ (record { key = key; lattice_type = p.type_; payload = serialize v } ∷ [], kvs)
  unfolding gossip_keys gossip_key tuple_unless_error process_get memory_serializer is_no_error
  gossip_keys-stored key p v stored kvs known memory there full =
      rw (known, memory, memory_get-there l is_empty serialize key v kvs there, full) refl

  module _ (to_string : ℕ → Bytes) (get_responsible_threads : Bytes → Option (List ServerThread))
      (is_self : ServerThread → ServerThread → Bool) (wt : ServerThread) where
    taken :
        (tuple : PutTuple) (threads : List ServerThread) (m : Messages)
        (rs : ReplicaState (StringMap V))
        → tuple.key ≢ []
        → get_responsible_threads tuple.key ≡ some threads
        → has is_self wt threads ≡ true
        → gossip_handler serializers to_string get_responsible_threads is_self wt (tuple ∷ []) m rs
          ≡ returned
              (m, merge_gossip serializers to_string get_responsible_threads is_self wt tuple rs)
    unfolding gossip_handler then_gossip gossip_tuple take_tuple
    taken tuple threads m rs filled known self =
        let (metadata, first) = is_metadata-some tuple.key filled in rw (first, known, self) refl

    -- The value of a key that one server has stored and gossips is merged, at a server that is responsible
    -- for the key, into the value that one has, the default value if none; the receiver's other keys and
    -- the sender's store stay as they are. This is for a type with a memory serializer whose `deserialize`
    -- inverts `serialize`, which does not take the value for empty, and a receiver that has nothing or the
    -- same type under the key.
    pub gossip-merged :
        (key : Bytes) (p : KeyProperty) (v : V) (stored : StringMap KeyProperty) (kvs : StringMap V)
        (threads : List ServerThread) (rs : ReplicaState (StringMap V))
        → find key stored ≡ some p
        → serializers p.type_ ≡ memory_serializer l is_empty size serialize deserialize
        → find key kvs ≡ some v
        → is_empty v ≡ false
        → key ≢ []
        → get_responsible_threads key ≡ some threads
        → has is_self wt threads ≡ true
        → mismatches p.type_ (find key rs.server.stored_key_map) ≡ false
        → (tuples : List PutTuple) × (rs' : ReplicaState (StringMap V)) × (gossip_keys serializers
              (key ∷ [])
              stored
              kvs
            ≡ (tuples, kvs))
          × (gossip_handler serializers to_string get_responsible_threads is_self wt tuples [] rs
              ≡ returned ([], rs'))
          × ((j : Bytes)
              → find j rs'.server.store ≡ (
                  if bytes_eq key j
                  then some (l.merge (value_or l.bottom (find j rs.server.store)) v)
                  else find j rs.server.store))
    unfolding merge_gossip process_put memory_serializer
    gossip-merged key p v stored kvs threads rs known memory there full filled responsible self
          same =
        let tuple : PutTuple = record {
          key = key;
          lattice_type = p.type_;
          payload = serialize v;
        } in
        (
          tuple ∷ [],
          merge_gossip serializers to_string get_responsible_threads is_self wt tuple rs,
          gossip_keys-stored key p v stored kvs known memory there full,
          taken tuple threads [] rs filled responsible self,
          λ j.
              rw
                (
                  same,
                  memory,
                  memory_put-kvs_put l size deserialize key (serialize v) rs.server.store,
                  deserialize-serialize v,
                )
                (find-kvs_put l key j v rs.server.store),
        )
