-- ===== src/Anna/Server/Replication/Changed.antt =====
-- The keys that a change of replication factors moves: the loop of
-- src/dist/anna/src/kvs/replication_change_handler.cpp.
use testbed.Prelude.{
  ℕ, ◌≡◌, ◌++◌, Bool, Option, none, List, [], ◌∷◌, Bytes, bytes_eq, if◌then◌else◌,
}
use testbed.Anna.Lattice.MapLattice.{StringMap}
use testbed.Anna.HashRing.Servers.{ServerThread}
use testbed.Anna.Server.Replication.{KeyReplication}
use testbed.Anna.Server.Replication.Change.{Change, ReplicationFactor, learn_change}
use testbed.Anna.Server.Replication.Handed.{IsHandedOver}

-- The factors after updates, one after the other.
unfoldable pub learned :
    List ReplicationFactor → StringMap KeyReplication → StringMap KeyReplication
learned [] m = m
learned (rep ∷ updates) m = learned updates (learn_change rep m)

-- An update of a list, with those before it and those after it.
pub record Taken (updates : List ReplicationFactor) : Type 0 where
  pub before : List ReplicationFactor
  pub rep : ReplicationFactor
  pub after : List ReplicationFactor
  pub whole : updates ≡ before ++ (rep ∷ after)

module _ (to_string : ℕ → Bytes) where
  module _ (is_self : ServerThread → ServerThread → Bool) (wt : ServerThread)
      (get_responsible_threads : StringMap KeyReplication → Bytes → Option (List ServerThread))
      (updates : List ReplicationFactor) (m : StringMap KeyReplication) where
    -- The threads of a key that are found behind an update of the key, under the factors of the updates up
    -- to it; none behind an update of another key.
    unfoldable pub by_update : Taken updates → Bytes → Option (List ServerThread)
    by_update t key =
        if bytes_eq t.rep.key key
        then get_responsible_threads (learned (t.before ++ (t.rep ∷ [])) m) key
        else none

    abbrev IsChanged : Change → Type 0
    IsChanged c = IsHandedOver to_string is_self wt by_update c.remove_set c.addr_keyset_map
