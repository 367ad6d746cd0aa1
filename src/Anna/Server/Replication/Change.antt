-- ===== src/Anna/Server/Replication/Change.antt =====
-- replication_change_handler of src/dist/anna/src/kvs/replication_change_handler.cpp, with the part of
-- get_responsible_threads as in the parent. What it sends to the node's other threads is left out.
use testbed.Prelude.{
  ℕ, Bool, false, ◌&&◌, ◌||◌, not, Option, some, none, List, [], ◌∷◌, Bytes, bytes_eq, ltb,
  if◌then◌else◌,
}
use testbed.Anna.Lattice.SetLattice.{StringSet, set_insert}
use testbed.Anna.Lattice.MapLattice.{StringMap, find, contains}
use testbed.Anna.Kvs.{Serializer, KeyProperty}
use testbed.Anna.Kvs.Store.{value_or}
use testbed.Anna.HashRing.Servers.{ServerThread, id}
use testbed.Anna.HashRing.Walk.{has}
use testbed.Anna.Cluster.{Tier}
use testbed.Anna.Cluster.Rings.{same_tier}
use testbed.Anna.Cluster.Departing.{add_to_threads}
use testbed.Anna.Server.Maps.{map_erase, set_erase}
use testbed.Anna.Server.Gossip.{PutTuple, send_gossip}
use testbed.Anna.Server.Redistribute.{type_of, is_empty}
use testbed.Anna.Server.Replication.{
  Factors, KeyReplication, replication_default, change_replication, learn_replication, set_factor,
}

-- A key with the new factors of its tiers.
pub record ReplicationFactor : Type 0 where
  pub key : Bytes
  pub global : Factors
  pub local : Factors

pub record Change : Type 0 where
  pub key_replication_map : StringMap KeyReplication
  pub addr_keyset_map : StringMap StringSet
  pub remove_set : StringSet

-- `m[tier]`, 0 for a tier that is missing.
unfoldable pub factor_of : Tier → Factors → ℕ
factor_of tier [] = 0
factor_of tier ((t, n) ∷ m) = if same_tier t tier then n else factor_of tier m

-- Whether one of the new factors is below the one that it takes the place of.
unfoldable pub decrements : Factors → Factors → Bool
decrements [] old = false
decrements ((tier, n) ∷ new) old =
    ltb n (factor_of tier old) || decrements new (set_factor tier n old)

-- An update without factors inserts nothing.
unfoldable pub learn_change :
    ReplicationFactor → StringMap KeyReplication → StringMap KeyReplication
learn_change key_rep m =
    if is_empty key_rep.global && is_empty key_rep.local
    then m
    else change_replication key_rep.key (learn_replication (key_rep.global, key_rep.local)) m

unfoldable pub update_factors : ReplicationFactor → Change → Change
update_factors rep c = record c { key_replication_map = learn_change rep c.key_replication_map }

module _ (to_string : ℕ → Bytes) (is_self : ServerThread → ServerThread → Bool)
    (wt : ServerThread) where
  -- The threads that were not responsible before.
  unfoldable pub new_threads : List ServerThread → List ServerThread → List ServerThread
  new_threads orig [] = []
  new_threads orig (thread ∷ threads) =
      let rest = new_threads orig threads in if has is_self thread orig then rest else thread ∷ rest

  -- `orig_threads.begin()->id() == wt.id()`; the list has an element where the code relies on it.
  unfoldable pub is_first : List ServerThread → Bool
  is_first [] = false
  is_first (thread ∷ threads) = bytes_eq (id to_string thread) (id to_string wt)

  unfoldable pub leave_key : Bytes → List ServerThread → Change → Change
  leave_key key threads c = if has is_self wt threads then c else record c {
    remove_set = set_insert key c.remove_set;
    addr_keyset_map = add_to_threads to_string key threads c.addr_keyset_map;
  }

  unfoldable pub spread_key : Bool → Bytes → List ServerThread → List ServerThread → Change → Change
  spread_key decrement key orig threads c =
      if not decrement && is_first orig
      then record c {
        addr_keyset_map = add_to_threads to_string key (new_threads orig threads) c.addr_keyset_map;
      }
      else c

  unfoldable pub move_key :
      Bool → Bytes → List ServerThread → Option (List ServerThread) → Change → Change
  move_key decrement key orig none c = c
  move_key decrement key orig (some threads) c =
      spread_key decrement key orig threads (leave_key key threads c)

  module _
      (get_responsible_threads : StringMap KeyReplication
        → Bytes
        → Option (List ServerThread)) where
    -- A key that is stored, with its threads before the change.
    unfoldable pub change_stored : ReplicationFactor → Option (List ServerThread) → Change → Change
    change_stored rep none c = update_factors rep c
    change_stored rep (some orig) c =
        let old = value_or replication_default.bottom (find rep.key c.key_replication_map) in
        let decrement =
          decrements rep.global old.global_replication
          || decrements rep.local old.local_replication in
        let c = update_factors rep c in
        move_key decrement rep.key orig (get_responsible_threads c.key_replication_map rep.key) c

    unfoldable pub change_key : StringMap KeyProperty → ReplicationFactor → Change → Change
    change_key stored_key_map rep c =
        if contains rep.key stored_key_map
        then change_stored rep (get_responsible_threads c.key_replication_map rep.key) c
        else update_factors rep c

    -- The loop over the updates.
    unfoldable pub change_keys : StringMap KeyProperty → List ReplicationFactor → Change → Change
    change_keys stored_key_map [] c = c
    change_keys stored_key_map (rep ∷ updates) c =
        change_keys stored_key_map updates (change_key stored_key_map rep c)

pub record Changed (S : Type 0) : Type 0 where
  pub key_replication_map : StringMap KeyReplication
  pub messages : StringMap (List PutTuple)
  pub stored_key_map : StringMap KeyProperty
  pub local_changeset : StringSet
  pub store : S

module _ {S : Type 0} (serializers : ℕ → Serializer S) where
  -- The last loop.
  unfoldable pub drop_removed : List Bytes → Changed S → Changed S
  drop_removed [] r = r
  drop_removed (key ∷ keys) r = drop_removed keys (record r {
    store = (serializers (type_of (find key r.stored_key_map))).remove key r.store;
    stored_key_map = map_erase key r.stored_key_map;
    local_changeset = set_erase key r.local_changeset;
  })

  unfoldable pub replication_change_handler :
      (ℕ → Bytes)
      → (ServerThread → ServerThread → Bool)
      → ServerThread
      → (StringMap KeyReplication → Bytes → Option (List ServerThread))
      → List ReplicationFactor
      → StringMap KeyReplication
      → StringMap KeyProperty
      → StringSet
      → S
      → Changed S
  replication_change_handler to_string is_self wt get_responsible_threads updates
        key_replication_map stored_key_map local_changeset s =
      let c =
        change_keys to_string is_self wt get_responsible_threads stored_key_map updates (record {
          key_replication_map = key_replication_map;
          addr_keyset_map = [];
          remove_set = [];
        }) in
      let (messages, s) = send_gossip serializers c.addr_keyset_map stored_key_map s in
      drop_removed c.remove_set (record {
        key_replication_map = c.key_replication_map;
        messages = messages;
        stored_key_map = stored_key_map;
        local_changeset = local_changeset;
        store = s;
      })
