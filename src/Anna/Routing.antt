-- ===== src/Anna/Routing.antt =====
-- The routing tier: address_handler and replication_response_handler of src/dist/anna/src/route.
-- get_responsible_threads of one tier is a parameter: the threads, and whether it succeeded.
pub mod Addresses
pub mod Changes
mod Examples
use testbed.Prelude.{
  ℕ, ◌+◌, Bool, true, false, Option, some, none, List, [], ◌∷◌, ◌++◌, Bytes, length, if◌then◌else◌,
  ◌==◌,
}
use testbed.Anna.Lattice.MapLattice.{StringMap, find}
use testbed.Anna.Kvs.{AnnaError}
use testbed.Anna.HashRing.Servers.{ServerThread}
use testbed.Anna.Metadata.{get_key_from_metadata}
use testbed.Anna.Cluster.{Tier, connect_address}
use testbed.Anna.Cluster.Rings.{GlobalRingMap}
use testbed.Anna.Server.Maps.{map_erase}
use testbed.Anna.Server.Requests.{KeyTuple, push_at}
use testbed.Anna.Server.Replication.{
  KeyReplication, Factors, change_replication, learn_replication, init_replication,
}

-- kKeyRequestPort.
abbrev k_key_request_port : ℕ
k_key_request_port = 6200

pub record AddressRequest : Type 0 where
  pub response_address : Bytes
  pub request_id : Bytes
  pub keys : List Bytes

-- A key with the addresses to which requests of it are sent.
abbrev pub KeyAddress : Type 0
KeyAddress = Bytes × List Bytes

pub record AddressResponse : Type 0 where
  pub response_id : Bytes
  pub error : AnnaError
  pub addresses : List KeyAddress

-- A request that waits: where its response goes, and its number.
abbrev pub Waiting : Type 0
Waiting = StringMap (List (Bytes × Bytes))

-- Whether threads were found, and whether the key's replication factors are known.
abbrev pub Lookup : Type 0
Lookup = Tier → Bytes → List ServerThread × Bool

module _ (to_string : ℕ → Bytes) where
  unfoldable pub ips_of : List ServerThread → List Bytes
  ips_of [] = []
  ips_of (st ∷ threads) =
      connect_address to_string st.public_ip st.tid k_key_request_port ∷ ips_of threads

module _ (get_responsible_threads : Lookup) where
  -- The loop over the tiers: the first that has threads, or no result at a tier that fails.
  unfoldable pub first_tier : Bytes → List Tier → Option (List ServerThread)
  first_tier key [] = some []
  first_tier key (tier ∷ tiers) =
      let (threads, succeed) = get_responsible_threads tier key in
      let rest = first_tier key tiers in
      if length threads == 0 then (if succeed then rest else none) else some threads

  -- The empty key is answered without a look at the tiers.
  unfoldable pub threads_of : List Tier → Bytes → Option (List ServerThread)
  threads_of tiers [] = some []
  threads_of tiers (c ∷ key) = first_tier (c ∷ key) tiers

-- A look at one key: its entry, or the key that is put to wait when the handler returns.
pub data Looked : Type 0 where
  found : List KeyAddress → Looked
  unknown : Bytes → Looked

unfoldable pub and_found : KeyAddress → Looked → Looked
and_found entry (found entries) = found (entry ∷ entries)
and_found entry (unknown key) = unknown key

module _ (to_string : ℕ → Bytes) (get_responsible_threads : Lookup) (all_tiers : List Tier) where
  unfoldable pub look_up : Bytes → Option (List ServerThread) → Looked → Looked
  look_up key none rest = unknown key
  look_up key (some threads) rest = and_found (key, ips_of to_string threads) rest

  -- The loop over the keys.
  unfoldable pub look_up_keys : List Bytes → Looked
  look_up_keys [] = found []
  look_up_keys (key ∷ keys) =
      look_up key (threads_of get_responsible_threads all_tiers key) (look_up_keys keys)

  unfoldable pub blank_keys : List Bytes → List KeyAddress
  blank_keys [] = []
  blank_keys (key ∷ keys) = (key, []) ∷ blank_keys keys

  -- A response is sent if it has an entry.
  unfoldable pub respond_addresses :
      AddressRequest → Looked → Waiting → Option (Bytes × AddressResponse) × Waiting
  respond_addresses request (unknown key) waiting =
      (none, push_at key (request.response_address, request.request_id) waiting)
  respond_addresses request (found []) waiting = (none, waiting)
  respond_addresses request (found (entry ∷ entries)) waiting = (
    some (
      request.response_address,
      record {
        response_id = request.request_id;
        error = AnnaError.no_error;
        addresses = entry ∷ entries;
      },
    ),
    waiting,
  )

  -- With the number of servers on all rings. Without servers a response is always sent.
  unfoldable pub address_handler :
      ℕ → AddressRequest → Waiting → Option (Bytes × AddressResponse) × Waiting
  address_handler num_servers request waiting =
      if num_servers == 0
      then (
        some (
          request.response_address,
          record {
            response_id = request.request_id;
            error = AnnaError.no_servers;
            addresses = blank_keys request.keys;
          },
        ),
        waiting,
      )
      else respond_addresses request (look_up_keys request.keys) waiting

  -- One response of the key alone to each request that waits for it.
  unfoldable pub answer_waiting :
      Bytes → List Bytes → List (Bytes × Bytes) → List (Bytes × AddressResponse)
  answer_waiting key ips [] = []
  answer_waiting key ips ((address, request_id) ∷ requests) =
      (
        address,
        record {
          response_id = request_id;
          error = AnnaError.no_error;
          addresses = (key, ips) ∷ [];
        },
      )
      ∷ answer_waiting key ips requests

  -- At a tier that fails the handler returns, and the requests still wait.
  unfoldable pub serve_waiting :
      Bytes
      → Option (List ServerThread)
      → Option (List (Bytes × Bytes))
      → Waiting
      → List (Bytes × AddressResponse) × Waiting
  serve_waiting key threads none waiting = ([], waiting)
  serve_waiting key none (some requests) waiting = ([], waiting)
  serve_waiting key (some threads) (some requests) waiting =
      (answer_waiting key (ips_of to_string threads) requests, map_erase key waiting)

-- A routing thread's state; the keys whose factors are asked for again are listed.
pub record Routing : Type 0 where
  pub key_replication_map : StringMap KeyReplication
  pub waiting : Waiting
  pub issued : List Bytes

-- replication_response_handler, with the lookup over the factors as they then are.
module _ (to_string : ℕ → Bytes) (look : StringMap KeyReplication → Lookup) (all_tiers : List Tier)
    (parse : Bytes → Factors × Factors) (default_replication : Tier → ℕ)
    (k_default_local_replication : ℕ) where
  unfoldable pub learned :
      Bytes → StringMap KeyReplication → Routing → List (Bytes × AddressResponse) × Routing
  learned key m r =
      let (answers, waiting) =
        serve_waiting to_string (look m) all_tiers key (first_tier (look m) key all_tiers)
          (find key r.waiting) r.waiting in
      (answers, record r { key_replication_map = m; waiting = waiting })

  unfoldable pub route_replication :
      AnnaError → Bytes → Bytes → Routing → List (Bytes × AddressResponse) × Routing
  route_replication AnnaError.no_error key payload r =
      learned key (change_replication key (learn_replication (parse payload)) r.key_replication_map)
        r
  route_replication AnnaError.key_dne key payload r =
      learned key
        (init_replication default_replication k_default_local_replication r.key_replication_map key)
        r
  route_replication AnnaError.wrong_thread key payload r =
      ([], record r { issued = key ∷ r.issued })
  route_replication _ key payload r = ([], r)

  unfoldable pub route_replication_response_handler :
      KeyTuple → Routing → List (Bytes × AddressResponse) × Routing
  route_replication_response_handler tuple r =
      route_replication tuple.error (get_key_from_metadata tuple.key) tuple.payload r
