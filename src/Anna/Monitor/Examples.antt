-- ===== src/Anna/Monitor/Examples.antt =====
-- The monitor changes the factors of two keys: one request is answered, the other times out.
use testbed.Prelude.{ℕ, ◌≡◌, refl, some, none, [], ◌∷◌, Bytes, bytes_eq, if◌then◌else◌}
use testbed.Anna.Lattice.MapLattice.{StringMap, find, contains, at, update}
use testbed.Anna.Lattice.SetLattice.{elem, set_insert}
use testbed.Anna.Kvs.Store.{value_or}
use testbed.Anna.HashRing.Servers.{ServerThread}
use testbed.Anna.Metadata.{
  MetadataType, get_data_metadata_key, find_from, get_key_from_metadata, index_of,
}
use testbed.Anna.Cluster.{memory, disk}
use testbed.Anna.Cluster.Rings.{same_tier}
use testbed.Anna.Server.Maps.{set_erase}
use testbed.Anna.Server.Redistribute.{is_empty}
use testbed.Anna.Server.Requests.{RequestType}
use testbed.Anna.Server.Replication.{KeyReplication, replication_default, change_replication}
use testbed.Anna.Monitor.{change_replication_factor, prepared, tell_and_restore}
use testbed.Anna.Monitor.Prepare.{
  rep_at, prepare_changes, prepare_change, same_replication, same_factors, find_factor,
  prepare_metadata_put_request, prepare_metadata_request, prepare_put_tuple,
}
use testbed.Anna.Monitor.Sending.{
  Inbox, send_requests, fail_all, fail_rejected, failed_of, is_wrong_thread, make_request, receive,
}
use testbed.Anna.Monitor.Kept.{IsMap, asked, original}
use testbed.Anna.Monitor.Told.{AreSame, AreTrue, change_replication_factor-told}

abbrev one_byte : ℕ → Bytes
one_byte n = n ∷ []

abbrev factors : ℕ → KeyReplication
factors n = record {
  global_replication = (memory, n) ∷ (disk, 1) ∷ [];
  local_replication = (memory, 1) ∷ (disk, 1) ∷ [];
}

abbrev requests : StringMap KeyReplication
requests = (97 ∷ [], factors 3) ∷ (98 ∷ [], factors 2) ∷ []

abbrev known : StringMap KeyReplication
known = (97 ∷ [], factors 1) ∷ (98 ∷ [], factors 1) ∷ []

-- The request of the second key is sent first.
abbrev inbox : Inbox
inbox =
    none
    ∷ some (record { type' = RequestType.put; tuples = []; response_id = 114 ∷ 58 ∷ 7 ∷ [] })
    ∷ []

abbrev rep_key : Bytes
rep_key = get_data_metadata_key (97 ∷ []) MetadataType.replication

abbrev thread : ServerThread
thread = record { public_ip = 1 ∷ []; private_ip = 2 ∷ []; tid = 0; virtual_num = 0 }

-- Another address for each of the two metadata keys.
abbrev target_of : Bytes → Bytes
target_of key = if bytes_eq key rep_key then 1 ∷ [] else 2 ∷ []

requests_once : IsMap requests
unfolding find bytes_eq
requests_once = (refl, (refl, _))

second_fails :
    send_requests
      (prepared one_byte
        (114 ∷ [])
        target_of
        (λ key rep. [])
        (λ key n tier. thread ∷ [])
        ((9 ∷ []) ∷ [])
        requests
        known
        7).addr_request_map
      inbox
      []
    ≡ some ((98 ∷ []) ∷ [], [])
unfolding find bytes_eq send_requests prepared prepare_changes prepare_change same_replication
    same_factors find_factor rep_at value_or same_tier prepare_metadata_put_request is_empty
    get_data_metadata_key prepare_metadata_request contains at update elem set_insert find_from
    get_key_from_metadata index_of prepare_put_tuple fail_all fail_rejected failed_of
    is_wrong_thread make_request receive set_erase change_replication
second_fails = refl

change_replication_factor-told_example :
    (let p =
        prepared one_byte
          (114 ∷ [])
          target_of
          (λ key rep. [])
          (λ key n tier. thread ∷ [])
          ((9 ∷ []) ∷ [])
          requests
          known
          7 in
      let r =
        tell_and_restore one_byte
          (114 ∷ [])
          target_of
          (λ key rep. [])
          (λ key n tier. thread ∷ [])
          ((9 ∷ []) ∷ [])
          requests
          p
          ((98 ∷ []) ∷ [], []) in
      (change_replication_factor one_byte
          (114 ∷ [])
          target_of
          (λ key rep. [])
          (λ key n tier. thread ∷ [])
          ((9 ∷ []) ∷ [])
          requests
          known
          7
          inbox
        ≡ some r)
      × ((key : Bytes)
          → AreSame (rep_at key r.key_replication_map) (
              if elem key ((98 ∷ []) ∷ [])
              then original (find key requests) (rep_at key known) replication_default.bottom
              else asked (find key requests) (rep_at key known)))
      × ((address : Bytes)
          → AreTrue ((98 ∷ []) ∷ []) r.key_replication_map (value_or [] (find address r.updates))))
change_replication_factor-told_example =
    change_replication_factor-told one_byte (114 ∷ []) target_of (λ key rep. [])
      (λ key n tier. thread ∷ []) ((9 ∷ []) ∷ []) requests known 7 inbox [] ((98 ∷ []) ∷ [])
      requests_once second_fails
