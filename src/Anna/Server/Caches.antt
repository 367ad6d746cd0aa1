-- ===== src/Anna/Server/Caches.antt =====
-- What a server knows of the function nodes' caches: cache_ip_response_handler.cpp and
-- management_node_response_handler.cpp of src/dist/anna/src/kvs, with the keys of user metadata of
-- src/dist/anna/common/include/common.hpp. Parsing is a parameter: `lww_value` is the value in a payload,
-- `string_set` the strings in a value.
pub mod Mirror
use testbed.Prelude.{
  ℕ, suc, ◌+◌, ◌-◌, ◌%◌, Bool, true, false, List, [], ◌∷◌, ◌++◌, Bytes, bytes_eq, take, drop,
  if◌then◌else◌,
}
use testbed.Anna.Lattice.SetLattice.{StringSet, set_insert}
use testbed.Anna.Lattice.MapLattice.{StringMap}
use testbed.Anna.Kvs.{AnnaError}
use testbed.Anna.Metadata.{k_metadata_delimiter, k_metadata_identifier, find_from}
use testbed.Anna.Server.Maps.{
  set_erase, erase_keys, map_erase, change, set_at, each_value, insert_keys,
}

-- "cache_ip".
abbrev k_metadata_type_cache_ip : Bytes
k_metadata_type_cache_ip = 99 ∷ 97 ∷ 99 ∷ 104 ∷ 101 ∷ 95 ∷ 105 ∷ 112 ∷ []

-- The one UserMetadataType.
unfoldable pub get_user_metadata_key : Bytes → Bytes
get_user_metadata_key data_key =
    k_metadata_identifier
    ++ (k_metadata_delimiter ∷ (k_metadata_type_cache_ip ++ (k_metadata_delimiter ∷ data_key)))

unfoldable pub get_key_from_user_metadata : Bytes → Bytes
get_key_from_user_metadata metadata_key =
    let n_id = find_from k_metadata_delimiter metadata_key 0 in
    let first = (n_id + 1) % 18446744073709551616 in
    let n_type = find_from k_metadata_delimiter metadata_key first in
    let metadata_type = take (n_type - first) (drop first metadata_key) in
    if bytes_eq metadata_type k_metadata_type_cache_ip
    then drop ((n_type + 1) % 18446744073709551616) metadata_key
    else []

pub record CacheMaps : Type 0 where
  pub extant_caches : StringSet
  pub cache_ip_to_keys : StringMap StringSet
  pub key_to_cache_ips : StringMap StringSet

-- The loop over `deleted_keys`.
unfoldable pub drop_keys : Bytes → List Bytes → StringMap StringSet → StringMap StringSet
drop_keys cache_ip [] key_to_cache_ips = key_to_cache_ips
drop_keys cache_ip (key ∷ deleted_keys) key_to_cache_ips =
    drop_keys cache_ip deleted_keys (change key (set_erase cache_ip) key_to_cache_ips)

-- The last loop.
unfoldable pub add_keys : Bytes → List Bytes → CacheMaps → CacheMaps
add_keys cache_ip [] s = s
add_keys cache_ip (cache_key ∷ keys) s = add_keys cache_ip keys (record s {
  cache_ip_to_keys = change cache_ip (set_insert cache_key) s.cache_ip_to_keys;
  key_to_cache_ips = change cache_key (set_insert cache_ip) s.key_to_cache_ips;
})

-- What a tuple without error does, with the cache's address and its list of keys.
unfoldable pub update_cache : Bytes → List Bytes → CacheMaps → CacheMaps
update_cache cache_ip keys s =
    let remaining = change cache_ip (erase_keys keys) s.cache_ip_to_keys in
    let deleted_keys = set_at cache_ip remaining in
    let dropped = drop_keys cache_ip deleted_keys s.key_to_cache_ips in
    let cleared = change cache_ip (λ old. []) remaining in
    add_keys cache_ip keys (record s { cache_ip_to_keys = cleared; key_to_cache_ips = dropped })

pub record CacheTuple : Type 0 where
  pub key : Bytes
  pub error : AnnaError
  pub payload : Bytes

unfoldable pub is_no_error : AnnaError → Bool
is_no_error AnnaError.no_error = true
is_no_error AnnaError.key_dne = false
is_no_error AnnaError.wrong_thread = false
is_no_error AnnaError.timeout = false
is_no_error AnnaError.lattice_error = false
is_no_error AnnaError.no_servers = false

module _ (lww_value : Bytes → Bytes) (string_set : Bytes → List Bytes) where
  unfoldable pub cache_tuple : CacheTuple → CacheMaps → CacheMaps
  cache_tuple tuple s =
      if is_no_error tuple.error
      then update_cache (get_key_from_user_metadata tuple.key)
          (string_set (lww_value tuple.payload)) s
      else s

  unfoldable pub cache_ip_response_handler : List CacheTuple → CacheMaps → CacheMaps
  cache_ip_response_handler [] s = s
  cache_ip_response_handler (tuple ∷ tuples) s =
      cache_ip_response_handler tuples (cache_tuple tuple s)

-- The loop over `deleted_caches`.
unfoldable pub forget_caches : List Bytes → CacheMaps → CacheMaps
forget_caches [] s = s
forget_caches (cache_ip ∷ deleted_caches) s = forget_caches deleted_caches (record s {
  cache_ip_to_keys = map_erase cache_ip s.cache_ip_to_keys;
  key_to_cache_ips = each_value (set_erase cache_ip) s.key_to_cache_ips;
})

-- management_node_response_handler up to the requests that it then sends.
unfoldable pub track_caches : List Bytes → CacheMaps → CacheMaps
track_caches func_nodes s =
    forget_caches (erase_keys func_nodes s.extant_caches)
      (record s { extant_caches = insert_keys func_nodes [] })
