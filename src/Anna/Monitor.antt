-- ===== src/Anna/Monitor.antt =====
-- The monitor's change_replication_factor, src/dist/anna/src/monitor/replication_helpers.cpp. The walk of a
-- tier's ring, responsible_global, is a parameter.
pub mod Prepare
pub mod Sending
pub mod Kept
pub mod Told
mod Examples
use testbed.Prelude.{
  ℕ, ◌+◌, ◌%◌, Bool, true, false, ◌&&◌, Option, some, none, List, [], ◌∷◌, ◌++◌, Bytes, length, ltb,
  if◌then◌else◌, ◌==◌,
}
use testbed.Anna.Lattice.Scalars.{u32_mod}
use testbed.Anna.Lattice.SetLattice.{StringSet, elem, set_insert}
use testbed.Anna.Lattice.MapLattice.{StringMap, find, contains, update}
use testbed.Anna.Kvs.{AnnaError}
use testbed.Anna.Kvs.Store.{value_or}
use testbed.Anna.HashRing.Servers.{ServerThread}
use testbed.Anna.Metadata.{MetadataType, get_data_metadata_key, get_key_from_metadata}
use testbed.Anna.Cluster.{Tier, colon, connect_address}
use testbed.Anna.Server.Maps.{set_erase}
use testbed.Anna.Server.Redistribute.{is_empty}
use testbed.Anna.Server.Requests.{RequestType, KeyTuple, KeyRequest, KeyResponse, blank, push_at}
use testbed.Anna.Server.Replication.{
  Factors, KeyReplication, replication_default, change_replication, set_factor, k_all_tiers,
}
use testbed.Anna.Server.Replication.Change.{ReplicationFactor, factor_of}
use testbed.Anna.Cluster.Rings.{same_tier}
use testbed.Anna.Monitor.Prepare.{Preparing, rep_at, prepare_changes}
use testbed.Anna.Monitor.Sending.{Inbox, send_requests}

abbrev k_server_replication_change_port : ℕ
k_server_replication_change_port = 6300

abbrev k_routing_replication_change_port : ℕ
k_routing_replication_change_port = 6550

abbrev pub Updates : Type 0
Updates = StringMap (List ReplicationFactor)

unfoldable pub prepare_replication_factor_update :
    Bytes → KeyReplication → Bytes → Updates → Updates
prepare_replication_factor_update key rep server_address m =
    let rf : ReplicationFactor = record {
      key = key;
      global = rep.global_replication;
      local = rep.local_replication;
    } in
    push_at server_address rf m

-- `global_replication_[tier]` inserts 0 where the tier is missing.
unfoldable pub touch : Tier → KeyReplication → KeyReplication
touch tier rep = record rep {
  global_replication =
      set_factor tier (factor_of tier rep.global_replication) rep.global_replication;
}

unfoldable pub max_rep : ℕ → ℕ → ℕ
max_rep a b = if ltb a b then b else a

module _ (to_string : ℕ → Bytes) where
  unfoldable pub tell_threads : Bytes → KeyReplication → List ServerThread → Updates → Updates
  tell_threads key rep [] m = m
  tell_threads key rep (thread ∷ threads) m =
      let address =
        connect_address to_string thread.private_ip thread.tid k_server_replication_change_port in
      tell_threads key rep threads (prepare_replication_factor_update key rep address m)

  unfoldable pub tell_routing : Bytes → KeyReplication → List Bytes → Updates → Updates
  tell_routing key rep [] m = m
  tell_routing key rep (address ∷ routing_ips) m = tell_routing key rep routing_ips (
      prepare_replication_factor_update key rep
        (connect_address to_string address 0 k_routing_replication_change_port) m)

  module _ (responsible_global : Bytes → ℕ → Tier → List ServerThread)
      (routing_ips : List Bytes) where
    unfoldable pub tell_tiers :
        Bytes
        → KeyReplication
        → List Tier
        → StringMap KeyReplication × Updates
        → StringMap KeyReplication × Updates
    tell_tiers key orig [] acc = acc
    tell_tiers key orig (tier ∷ tiers) (m, updates) =
        let m = change_replication key (touch tier) m in
        let now = rep_at key m in
        let rep =
          max_rep (factor_of tier now.global_replication)
            (factor_of tier orig.global_replication) in
        tell_tiers key orig tiers
          (m, tell_threads key now (responsible_global key rep tier) updates)

    unfoldable pub tell_key :
        Bytes
        → KeyReplication
        → StringMap KeyReplication × Updates
        → StringMap KeyReplication × Updates
    tell_key key orig acc =
        let (m, updates) = tell_tiers key orig k_all_tiers acc in
        (m, tell_routing key (rep_at key m) routing_ips updates)

    -- The second loop over the requests; the tiers that it inserts in the original factors are not read.
    unfoldable pub tell_keys :
        StringSet
        → StringMap KeyReplication
        → StringMap KeyReplication
        → StringMap KeyReplication × Updates
        → StringMap KeyReplication × Updates
    tell_keys failed_keys orig [] acc = acc
    tell_keys failed_keys orig ((key, new_rep) ∷ requests) acc =
        let acc = if elem key failed_keys then acc else tell_key key (rep_at key orig) acc in
        tell_keys failed_keys orig requests acc

-- The last loop.
unfoldable pub restore :
    List Bytes → StringMap KeyReplication → StringMap KeyReplication → StringMap KeyReplication
restore [] orig m = m
restore (key ∷ failed_keys) orig m =
    restore failed_keys orig (change_replication key (λ old. rep_at key orig) m)

pub record Adjusted : Type 0 where
  pub updates : Updates
  pub key_replication_map : StringMap KeyReplication
  pub messages : Inbox
  pub rid : ℕ

module _ (to_string : ℕ → Bytes) (response_address : Bytes) (target_of : Bytes → Bytes)
    (serialize : Bytes → KeyReplication → Bytes)
    (responsible_global : Bytes → ℕ → Tier → List ServerThread) (routing_ips : List Bytes) where
  unfoldable pub prepared : StringMap KeyReplication → StringMap KeyReplication → ℕ → Preparing
  prepared requests m rid =
      prepare_changes to_string response_address target_of serialize requests (record {
        key_replication_map = m;
        orig_key_replication_map_info = [];
        addr_request_map = [];
        rid = rid;
      })

  -- Behind the requests, with the keys that failed.
  unfoldable pub tell_and_restore :
      StringMap KeyReplication → Preparing → StringSet × Inbox → Adjusted
  tell_and_restore requests p (failed_keys, messages) =
      let orig = p.orig_key_replication_map_info in
      let (m, updates) =
        tell_keys to_string responsible_global routing_ips failed_keys orig requests
          (p.key_replication_map, []) in
      record {
        updates = updates;
        key_replication_map = restore failed_keys orig m;
        messages = messages;
        rid = p.rid;
      }

  unfoldable pub after_requests :
      StringMap KeyReplication → Preparing → Option (StringSet × Inbox) → Option Adjusted
  after_requests requests p none = none
  after_requests requests p (some answered) = some (tell_and_restore requests p answered)

  -- `none` while it waits for a response.
  unfoldable pub change_replication_factor :
      StringMap KeyReplication → StringMap KeyReplication → ℕ → Inbox → Option Adjusted
  change_replication_factor requests m rid messages =
      let p = prepared requests m rid in
      after_requests requests p (send_requests p.addr_request_map messages [])
