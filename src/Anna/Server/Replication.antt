-- ===== src/Anna/Server/Replication.antt =====
-- replication_response_handler of src/dist/anna/src/kvs/replication_response_handler.cpp, with KeyReplication
-- and init_replication of src/dist/anna/include/metadata.hpp: what waits for a key's replication factors
-- is done once they are known. `parse` reads the factors of the tiers out of a payload.
pub mod Change
pub mod Handed
pub mod Changed
pub mod Replay
use testbed.Prelude.{
  ℕ, Bool, true, false, not, ◌||◌, Option, some, none, List, [], ◌∷◌, ◌++◌, Bytes, bytes_eq,
  if◌then◌else◌, ◌==◌,
}
use testbed.Anna.Lattice.Interface.{Lattice}
use testbed.Anna.Lattice.SetLattice.{set_insert}
use testbed.Anna.Lattice.MapLattice.{StringMap, find, update, at}
use testbed.Anna.Kvs.{AnnaError, Serializer, KeyProperty, process_put}
use testbed.Anna.Kvs.Store.{value_or}
use testbed.Anna.HashRing.Servers.{ServerThread}
use testbed.Anna.HashRing.Walk.{has}
use testbed.Anna.Metadata.{get_key_from_metadata}
use testbed.Anna.Cluster.{Tier, memory, disk, connect_address, k_gossip_port}
use testbed.Anna.Cluster.Rings.{same_tier}
use testbed.Anna.Server.Maps.{map_erase}
use testbed.Anna.Server.Gossip.{PutTuple}
use testbed.Anna.Server.Requests.{
  RequestType, KeyTuple, KeyResponse, PendingRequest, ServerState, blank, conflicts, get_tuple,
  put_tuple, track_access, push_at, list_default,
}

abbrev pub Factors : Type 0
Factors = List (Tier × ℕ)

pub record KeyReplication : Type 0 where
  pub global_replication : Factors
  pub local_replication : Factors

-- `m[tier] = value`.
unfoldable pub set_factor : Tier → ℕ → Factors → Factors
set_factor tier n [] = (tier, n) ∷ []
set_factor tier n ((t, old) ∷ m) =
    let rest = set_factor tier n m in if same_tier t tier then (t, n) ∷ m else (t, old) ∷ rest

unfoldable pub set_factors : Factors → Factors → Factors
set_factors [] m = m
set_factors ((tier, n) ∷ new) m = set_factors new (set_factor tier n m)

abbrev pub replication_default : Lattice KeyReplication
replication_default = record {
  bottom = record { global_replication = []; local_replication = [] };
  merge = λ old new. new;
}

-- `key_replication_map[key]`, changed in place.
unfoldable pub change_replication :
    Bytes → (KeyReplication → KeyReplication) → StringMap KeyReplication → StringMap KeyReplication
change_replication key f m = let (there, m) = at replication_default key m in update key f m

-- The factors of an answer without error.
unfoldable pub learn_replication : Factors × Factors → KeyReplication → KeyReplication
learn_replication (global, local) r = record {
  global_replication = set_factors global r.global_replication;
  local_replication = set_factors local r.local_replication;
}

unfoldable pub default_factors : (Tier → ℕ) → ℕ → List Tier → Factors × Factors
default_factors default_replication k_default_local_replication [] = ([], [])
default_factors default_replication k_default_local_replication (tier ∷ tiers) =
    let (global, local) = default_factors default_replication k_default_local_replication tiers in
    ((tier, default_replication tier) ∷ global, (tier, k_default_local_replication) ∷ local)

-- kAllTiers.
abbrev pub k_all_tiers : List Tier
k_all_tiers = memory ∷ disk ∷ []

unfoldable pub init_replication :
    (Tier → ℕ) → ℕ → StringMap KeyReplication → Bytes → StringMap KeyReplication
init_replication default_replication k_default_local_replication m key =
    change_replication key
      (learn_replication
        (default_factors default_replication k_default_local_replication k_all_tiers))
      m

pub record PendingGossip : Type 0 where
  pub lattice_type_ : ℕ
  pub payload_ : Bytes

-- A server's state with what it knows of replication.
pub record ReplicaState (S : Type 0) : Type 0 where
  pub server : ServerState S
  pub key_replication_map : StringMap KeyReplication
  pub pending_gossip : StringMap (List PendingGossip)

abbrev pub Answers : Type 0
Answers = List (Bytes × KeyResponse)

-- A response of one tuple to a request that waited.
unfoldable pub answer_pending : PendingRequest → KeyTuple → Bytes × KeyResponse
answer_pending request tp = (
  request.addr_,
  record { type' = request.type_; tuples = tp ∷ []; response_id = request.response_id_ },
)

module _ {S : Type 0} (serializers : ℕ → Serializer S) (clock : ℕ → ℕ) where
  -- Without an address, of a key that the thread is responsible for.
  unfoldable pub replay_silent :
      Bytes → RequestType → PendingRequest → ServerState S → Answers × ServerState S
  replay_silent key RequestType.put request st =
      if (request.lattice_type_ == 0)
        || conflicts request.lattice_type_ (find key st.stored_key_map)
      then ([], st)
      else let (store, stored_key_map) =
          process_put (serializers request.lattice_type_) key request.lattice_type_ request.payload_
            st.store st.stored_key_map in
        let st =
          track_access serializers key (clock st.access_count)
            (record st { store = store; stored_key_map = stored_key_map }) in
        ([], record st { local_changeset = set_insert key st.local_changeset })
  replay_silent key RequestType.get request st = ([], st)
  replay_silent key RequestType.rt_unspecified request st = ([], st)

  -- Every type other than GET is a PUT here.
  unfoldable pub replay_tuple :
      Bytes → RequestType → PendingRequest → ServerState S → KeyTuple × ServerState S
  replay_tuple key RequestType.get request st =
      let (tp, store) = get_tuple serializers key (find key st.stored_key_map) st.store in
      (tp, record st { store = store })
  replay_tuple key RequestType.put request st =
      put_tuple serializers key request.lattice_type_ request.payload_ st
  replay_tuple key RequestType.rt_unspecified request st =
      put_tuple serializers key request.lattice_type_ request.payload_ st

  -- With the two tests: whether the thread is responsible, and whether there is no address.
  unfoldable pub replay_request :
      Bool → Bool → Bytes → PendingRequest → ServerState S → Answers × ServerState S
  replay_request false true key request st = ([], st)
  replay_request false false key request st =
      (answer_pending request (record (blank key) { error = AnnaError.wrong_thread }) ∷ [], st)
  replay_request true true key request st = replay_silent key request.type_ request st
  replay_request true false key request st =
      let (tp, st) = replay_tuple key request.type_ request st in
      (answer_pending request tp ∷ [], track_access serializers key (clock st.access_count) st)

  unfoldable pub replay_requests :
      Bool → Bytes → List PendingRequest → ServerState S → Answers × ServerState S
  replay_requests responsible key [] st = ([], st)
  replay_requests responsible key (request ∷ requests) st =
      let (here, st) = replay_request responsible (bytes_eq request.addr_ []) key request st in
      let (more, st) = replay_requests responsible key requests st in (here ++ more, st)

  -- Gossip of a key that the thread is responsible for.
  unfoldable pub gossip_put : Bytes → PendingGossip → ServerState S → ServerState S
  gossip_put key gossip st =
      if conflicts gossip.lattice_type_ (find key st.stored_key_map)
      then st
      else let (store, stored_key_map) =
          process_put (serializers gossip.lattice_type_) key gossip.lattice_type_ gossip.payload_
            st.store st.stored_key_map in
        record st { store = store; stored_key_map = stored_key_map }

  unfoldable pub replay_gossip : Bytes → List PendingGossip → ServerState S → ServerState S
  replay_gossip key [] st = st
  replay_gossip key (gossip ∷ more) st = replay_gossip key more (gossip_put key gossip st)

unfoldable pub gossip_tuples : Bytes → List PendingGossip → List PutTuple
gossip_tuples key [] = []
gossip_tuples key (gossip ∷ more) =
    record { key = key; lattice_type = gossip.lattice_type_; payload = gossip.payload_ }
    ∷ gossip_tuples key more

-- The tuples are added to what is already there for the address.
unfoldable pub forward_gossip :
    (ℕ → Bytes)
    → Bytes
    → List PendingGossip
    → List ServerThread
    → StringMap (List PutTuple)
    → StringMap (List PutTuple)
forward_gossip to_string key gossip [] m = m
forward_gossip to_string key gossip (thread ∷ threads) m =
    let address = connect_address to_string thread.private_ip thread.tid k_gossip_port in
    let (there, m) = at list_default address m in
    forward_gossip to_string key gossip threads
      (update address (λ old. old ++ gossip_tuples key gossip) m)

module _ {S : Type 0} (serializers : ℕ → Serializer S) (clock : ℕ → ℕ) (to_string : ℕ → Bytes)
    (get_responsible_threads : StringMap KeyReplication → Bytes → Option (List ServerThread))
    (is_self : ServerThread → ServerThread → Bool) (wt : ServerThread) where
  -- What waited is given up where the threads are still not known.
  unfoldable pub replay_pending :
      Bytes
      → Option (List ServerThread)
      → Option (List PendingRequest)
      → ServerState S
      → Answers × ServerState S
  replay_pending key threads none st = ([], st)
  replay_pending key none (some requests) st =
      ([], record st { pending_requests = map_erase key st.pending_requests })
  replay_pending key (some threads) (some requests) st =
      let (answers, st) =
        replay_requests serializers clock (has is_self wt threads) key requests st in
      (answers, record st { pending_requests = map_erase key st.pending_requests })

  unfoldable pub replay_pending_gossip :
      Bytes
      → Option (List ServerThread)
      → Option (List PendingGossip)
      → ReplicaState S
      → StringMap (List PutTuple) × ReplicaState S
  replay_pending_gossip key threads none rs = ([], rs)
  replay_pending_gossip key none (some gossip) rs =
      ([], record rs { pending_gossip = map_erase key rs.pending_gossip })
  replay_pending_gossip key (some threads) (some gossip) rs =
      let erased = map_erase key rs.pending_gossip in
      if has is_self wt threads
      then (
        [],
        record rs {
          server = replay_gossip serializers clock key gossip rs.server;
          pending_gossip = erased;
        },
      )
      else (forward_gossip to_string key gossip threads [], record rs { pending_gossip = erased })

  unfoldable pub replay_all :
      Bytes → ReplicaState S → (Answers × StringMap (List PutTuple)) × ReplicaState S
  replay_all key rs =
      let threads = get_responsible_threads rs.key_replication_map key in
      let (answers, server) =
        replay_pending key threads (find key rs.server.pending_requests) rs.server in
      let (gossip, rs) =
        replay_pending_gossip key threads (find key rs.pending_gossip)
          (record rs { server = server }) in
      ((answers, gossip), rs)

  module _ (parse : Bytes → Factors × Factors) (default_replication : Tier → ℕ)
      (k_default_local_replication : ℕ) where
    unfoldable pub replication_answer :
        AnnaError
        → Bytes
        → Bytes
        → ReplicaState S
        → (Answers × StringMap (List PutTuple)) × ReplicaState S
    replication_answer AnnaError.no_error key payload rs = replay_all key (record rs {
      key_replication_map =
          change_replication key (learn_replication (parse payload)) rs.key_replication_map;
    })
    replication_answer AnnaError.key_dne key payload rs = replay_all key (record rs {
      key_replication_map =
          init_replication default_replication k_default_local_replication rs.key_replication_map
            key;
    })
    replication_answer AnnaError.wrong_thread key payload rs =
        let st = rs.server in
        (([], []), record rs { server = record st { issued = key ∷ st.issued } })
    replication_answer _ key payload rs = (([], []), rs)

    -- Of the first tuple of the response.
    unfoldable pub replication_response_handler :
        KeyTuple → ReplicaState S → (Answers × StringMap (List PutTuple)) × ReplicaState S
    replication_response_handler tuple rs =
        replication_answer tuple.error (get_key_from_metadata tuple.key) tuple.payload rs
