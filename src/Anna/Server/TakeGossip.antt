-- ===== src/Anna/Server/TakeGossip.antt =====
-- gossip_handler of src/dist/anna/src/kvs/gossip_handler.cpp.
pub mod Merged
use testbed.Prelude.{
  ℕ, Bool, true, false, not, Option, some, none, List, [], ◌∷◌, Bytes, if◌then◌else◌, ◌==◌,
}
use testbed.Anna.Lattice.MapLattice.{StringMap, find}
use testbed.Anna.Kvs.{Serializer, KeyProperty, process_put}
use testbed.Anna.HashRing.Servers.{ServerThread}
use testbed.Anna.HashRing.Walk.{has}
use testbed.Anna.Metadata.{is_metadata}
use testbed.Anna.Cluster.{Handled, returned, thrown, overrun}
use testbed.Anna.Server.Gossip.{PutTuple}
use testbed.Anna.Server.Requests.{ServerState, push_at}
use testbed.Anna.Server.Replication.{ReplicaState, PendingGossip, forward_gossip}

abbrev pub Messages : Type 0
Messages = StringMap (List PutTuple)

abbrev gossip_of : PutTuple → PendingGossip
gossip_of tuple = record { lattice_type_ = tuple.lattice_type; payload_ = tuple.payload }

-- Unlike a user's request, also a stored key without a type is in conflict with a type.
unfoldable pub mismatches : ℕ → Option KeyProperty → Bool
mismatches lattice_type none = false
mismatches lattice_type (some p) = not (p.type_ == lattice_type)

unfoldable pub then_gossip :
    {S : Type 0}
    → Handled (Messages × ReplicaState S)
    → (Messages → ReplicaState S → Handled (Messages × ReplicaState S))
    → Handled (Messages × ReplicaState S)
then_gossip (returned (m, rs)) next = next m rs
then_gossip thrown next = thrown
then_gossip overrun next = overrun

module _ {S : Type 0} (serializers : ℕ → Serializer S) (to_string : ℕ → Bytes)
    (get_responsible_threads : Bytes → Option (List ServerThread))
    (is_self : ServerThread → ServerThread → Bool) (wt : ServerThread) where
  -- A key that the thread is responsible for.
  unfoldable pub merge_gossip : PutTuple → ReplicaState S → ReplicaState S
  merge_gossip tuple rs =
      let st = rs.server in
      if mismatches tuple.lattice_type (find tuple.key st.stored_key_map)
      then rs
      else let (store, stored_key_map) =
          process_put (serializers tuple.lattice_type) tuple.key tuple.lattice_type tuple.payload
            st.store st.stored_key_map in
        record rs { server = record st { store = store; stored_key_map = stored_key_map } }

  unfoldable pub suspend_gossip : PutTuple → ReplicaState S → ReplicaState S
  suspend_gossip tuple rs = record rs {
    pending_gossip = push_at tuple.key (gossip_of tuple) rs.pending_gossip;
  }

  -- A key that other threads are responsible for: metadata is passed on.
  unfoldable pub pass_on :
      Bool → List ServerThread → PutTuple → Messages → ReplicaState S → Messages × ReplicaState S
  pass_on true threads tuple m rs =
      (forward_gossip to_string tuple.key (gossip_of tuple ∷ []) threads m, rs)
  pass_on false threads tuple m rs =
      let st = rs.server in
      (
        m,
        suspend_gossip tuple (record rs { server = record st { issued = tuple.key ∷ st.issued } }),
      )

  unfoldable pub take_tuple :
      Bool
      → Option (List ServerThread)
      → PutTuple
      → Messages
      → ReplicaState S
      → Messages × ReplicaState S
  take_tuple metadata none tuple m rs = (m, suspend_gossip tuple rs)
  take_tuple metadata (some threads) tuple m rs =
      if has is_self wt threads
      then (m, merge_gossip tuple rs)
      else pass_on metadata threads tuple m rs

  unfoldable pub gossip_tuple :
      Option Bool → PutTuple → Messages → ReplicaState S → Handled (Messages × ReplicaState S)
  gossip_tuple none tuple m rs = overrun
  gossip_tuple (some metadata) tuple m rs =
      returned (take_tuple metadata (get_responsible_threads tuple.key) tuple m rs)

  -- The messages passed on, and the state afterwards.
  unfoldable pub gossip_handler :
      List PutTuple → Messages → ReplicaState S → Handled (Messages × ReplicaState S)
  gossip_handler [] m rs = returned (m, rs)
  gossip_handler (tuple ∷ tuples) m rs =
      then_gossip (gossip_tuple (is_metadata tuple.key) tuple m rs) (gossip_handler tuples)
