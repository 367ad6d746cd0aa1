-- ===== src/Anna/Server/Redistribute.antt =====
-- The redistribution of keys after a node has joined: the end of the loop of `run` in
-- src/dist/anna/src/kvs/server.cpp. The threshold is DATA_REDISTRIBUTE_THRESHOLD of server_utils.hpp.
pub mod Sent
pub mod Collect
pub mod Passes
use testbed.Prelude.{
  ℕ, zero, suc, Bool, true, false, Option, some, none, List, [], ◌∷◌, Bytes, length, leb,
  if◌then◌else◌,
}
use testbed.Anna.Lattice.SetLattice.{StringSet, set_insert}
use testbed.Anna.Lattice.MapLattice.{StringMap, find}
use testbed.Anna.Kvs.{Serializer, KeyProperty}
use testbed.Anna.Server.Maps.{erase_keys, map_erase, change}
use testbed.Anna.Server.Gossip.{PutTuple, send_gossip}

pub record Joins (S : Type 0) : Type 0 where
  pub join_gossip_map : StringMap StringSet
  pub join_remove_set : StringSet
  pub stored_key_map : StringMap KeyProperty
  pub store : S

-- The loop over the keys of an address, with the keys sent so far and `addr_keyset_map`.
unfoldable pub send_keys :
    ℕ → Bytes → List Bytes → StringSet → StringMap StringSet → StringSet × StringMap StringSet
send_keys threshold address [] sent_keys m = (sent_keys, m)
send_keys threshold address (key ∷ key_set) sent_keys m =
    let m = change address (set_insert key) m in
    let sent_keys = set_insert key sent_keys in
    let more = send_keys threshold address key_set sent_keys m in
    if leb threshold (length sent_keys) then (sent_keys, m) else more

unfoldable pub is_empty {ℓ} : {A : Type ℓ} → List A → Bool
is_empty [] = true
is_empty (x ∷ xs) = false

-- `key_set` is a copy of the map's set: what is sent is taken out of the copy alone.
unfoldable pub collect_one :
    ℕ → Bytes → StringSet → StringSet × StringMap StringSet → StringSet × StringMap StringSet
collect_one threshold address key_set (remove_address_set, m) =
    let (sent_keys, m) = send_keys threshold address key_set [] m in
    (
      if is_empty (erase_keys sent_keys key_set)
          then set_insert address remove_address_set
          else remove_address_set,
      m,
    )

-- The loop over `join_gossip_map`.
unfoldable pub collect :
    ℕ → StringMap StringSet → StringSet × StringMap StringSet → StringSet × StringMap StringSet
collect threshold [] acc = acc
collect threshold ((address, key_set) ∷ pairs) acc =
    collect threshold pairs (collect_one threshold address key_set acc)

unfoldable pub erase_addresses {ℓ} : {V : Type ℓ} → List Bytes → StringMap V → StringMap V
erase_addresses [] m = m
erase_addresses (a ∷ addresses) m = erase_addresses addresses (map_erase a m)

-- `stored_key_map[key].type_`; the default value of a key that is missing has the type numbered 0.
unfoldable pub type_of : Option KeyProperty → ℕ
type_of none = 0
type_of (some p) = p.type_

module _ {S : Type 0} (serializers : ℕ → Serializer S) where
  -- The loop over `join_remove_set`.
  unfoldable pub remove_keys : List Bytes → StringMap KeyProperty × S → StringMap KeyProperty × S
  remove_keys [] acc = acc
  remove_keys (key ∷ keys) (stored_key_map, s) =
      remove_keys keys (
        map_erase key stored_key_map,
        (serializers (type_of (find key stored_key_map))).remove key s,
      )

  unfoldable pub finish : Bool → Joins S → Joins S
  finish false j = j
  finish true j =
      let (stored_key_map, store) = remove_keys j.join_remove_set (j.stored_key_map, j.store) in
      record j { join_remove_set = []; stored_key_map = stored_key_map; store = store }

  -- A pass with an entry in `join_gossip_map`: the messages sent, and the state afterwards.
  unfoldable pub redistribute : ℕ → Joins S → StringMap (List PutTuple) × Joins S
  redistribute threshold j =
      let (remove_address_set, addr_keyset_map) = collect threshold j.join_gossip_map ([], []) in
      let left = erase_addresses remove_address_set j.join_gossip_map in
      let (messages, store) = send_gossip serializers addr_keyset_map j.stored_key_map j.store in
      (messages, finish (is_empty left) (record j { join_gossip_map = left; store = store }))

  -- The guard of a pass.
  unfoldable pub redistribute_pass : ℕ → Joins S → StringMap (List PutTuple) × Joins S
  redistribute_pass threshold j =
      if is_empty j.join_gossip_map then ([], j) else redistribute threshold j

  -- The messages of the first `n` passes, and the state after them.
  unfoldable pub redistribute_passes : ℕ → ℕ → Joins S → List (StringMap (List PutTuple)) × Joins S
  redistribute_passes zero threshold j = ([], j)
  redistribute_passes (suc n) threshold j =
      let (messages, j) = redistribute_pass threshold j in
      let (more, j) = redistribute_passes n threshold j in (messages ∷ more, j)
