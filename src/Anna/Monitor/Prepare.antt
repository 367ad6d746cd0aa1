-- ===== src/Anna/Monitor/Prepare.antt =====
-- The first loop of change_replication_factor of src/dist/anna/src/monitor/replication_helpers.cpp, with
-- prepare_metadata_put_request of src/dist/anna/src/hash_ring/hash_ring.cpp and operator== of
-- src/dist/anna/include/metadata.hpp. The address that is drawn for a metadata key, empty without servers,
-- and the serialized value of a key's factors are parameters.
use testbed.Prelude.{
  ℕ, ◌+◌, ◌%◌, Bool, true, false, ◌&&◌, Option, some, none, [], ◌∷◌, ◌++◌, Bytes, if◌then◌else◌,
  ◌==◌,
}
use testbed.Anna.Lattice.Scalars.{u32_mod}
use testbed.Anna.Lattice.MapLattice.{StringMap, find, contains, update}
use testbed.Anna.Kvs.Store.{value_or}
use testbed.Anna.Metadata.{MetadataType, get_data_metadata_key}
use testbed.Anna.Cluster.{Tier, colon}
use testbed.Anna.Server.Redistribute.{is_empty}
use testbed.Anna.Server.Requests.{RequestType, KeyRequest, blank}
use testbed.Anna.Server.Replication.{
  Factors, KeyReplication, replication_default, change_replication,
}
use testbed.Anna.Cluster.Rings.{same_tier}

unfoldable pub find_factor : Tier → Factors → Option ℕ
find_factor tier [] = none
find_factor tier ((t, n) ∷ m) = if same_tier t tier then some n else find_factor tier m

-- A loop of operator==: the right side may have further tiers.
unfoldable pub same_factors : Factors → Factors → Bool
same_factors [] rhs = true
same_factors ((id, n) ∷ lhs) rhs = elim (find_factor id rhs) [
  | none ↦ false
  | some m ↦ (n == m) && same_factors lhs rhs
]

unfoldable pub same_replication : KeyReplication → KeyReplication → Bool
same_replication lhs rhs =
    same_factors lhs.global_replication rhs.global_replication
    && same_factors lhs.local_replication rhs.local_replication

-- What `key_replication_map[key]` reads.
unfoldable pub rep_at : Bytes → StringMap KeyReplication → KeyReplication
rep_at key m = value_or replication_default.bottom (find key m)

pub record Preparing : Type 0 where
  pub key_replication_map : StringMap KeyReplication
  pub orig_key_replication_map_info : StringMap KeyReplication
  pub addr_request_map : StringMap KeyRequest
  pub rid : ℕ

-- A request for the address is added if there is none.
unfoldable pub prepare_metadata_request :
    (ℕ → Bytes) → Bytes → Bytes → RequestType → Preparing → Preparing
prepare_metadata_request to_string response_address target_address type' p =
    if contains target_address p.addr_request_map then p else record p {
      addr_request_map =
          (
            target_address,
            record {
              type' = type';
              tuples = [];
              response_address = response_address;
              request_id = response_address ++ (colon ∷ to_string p.rid);
            },
          )
          ∷ p.addr_request_map;
      rid = (p.rid + 1) % u32_mod;
    }

-- `LatticeType::LWW` is numbered 1.
unfoldable pub prepare_put_tuple : Bytes → Bytes → KeyRequest → KeyRequest
prepare_put_tuple key payload request = record request {
  tuples = request.tuples ++ (record (blank key) { lattice_type = 1; payload = payload } ∷ []);
}

unfoldable pub prepare_metadata_put_request :
    (ℕ → Bytes) → Bytes → Bytes → Bytes → Bytes → Preparing → Preparing
prepare_metadata_put_request to_string response_address target_address key value p =
    if is_empty target_address
    then p
    else let p =
        prepare_metadata_request to_string response_address target_address RequestType.put p in
      record p {
        addr_request_map = update target_address (prepare_put_tuple key value) p.addr_request_map;
      }

module _ (to_string : ℕ → Bytes) (response_address : Bytes) (target_of : Bytes → Bytes)
    (serialize : Bytes → KeyReplication → Bytes) where
  unfoldable pub prepare_change : Bytes → KeyReplication → Preparing → Preparing
  prepare_change key new_rep p =
      let there = rep_at key p.key_replication_map in
      let orig = change_replication key (λ old. there) p.orig_key_replication_map_info in
      let rep_key = get_data_metadata_key key MetadataType.replication in
      let changed = record p {
        key_replication_map = change_replication key (λ old. new_rep) p.key_replication_map;
        orig_key_replication_map_info = orig;
      } in
      if same_replication new_rep there
      then record p {
        key_replication_map = change_replication key (λ old. old) p.key_replication_map;
        orig_key_replication_map_info = orig;
      }
      else prepare_metadata_put_request to_string response_address (target_of rep_key) rep_key
          (serialize key new_rep) changed

  -- The first loop over the requests.
  unfoldable pub prepare_changes : StringMap KeyReplication → Preparing → Preparing
  prepare_changes [] p = p
  prepare_changes ((key, new_rep) ∷ requests) p =
      prepare_changes requests (prepare_change key new_rep p)
