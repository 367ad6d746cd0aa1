-- ===== src/Anna/Routing/Examples.antt =====
-- The theorems about the routing tier at a concrete request and a concrete update.
use testbed.Prelude.{ℕ, ◌≡◌, refl, true, false, List, [], ◌∷◌, Bytes, bytes_eq, if◌then◌else◌}
use testbed.Anna.Lattice.MapLattice.{StringMap, find}
use testbed.Anna.Kvs.Store.{value_or}
use testbed.Anna.HashRing.Servers.{ServerThread}
use testbed.Anna.Cluster.{Tier, memory, disk}
use testbed.Anna.Routing.{AddressRequest, Waiting, Lookup}
use testbed.Anna.Cluster.Rings.{same_tier}
use testbed.Anna.Server.Replication.{KeyReplication}
use testbed.Anna.Server.Replication.Change.{ReplicationFactor, factor_of}
use testbed.Anna.Monitor.Prepare.{rep_at}
use testbed.Anna.Routing.Changes.{route_replication_change_handler}
use testbed.Anna.Routing.Changes.Learned.{
  AreUpdatesOf, names_global, names_local, route_replication_change_handler-factor_of,
}

abbrev thread : ServerThread
thread = record { public_ip = 65 ∷ []; private_ip = 66 ∷ []; tid = 0; virtual_num = 0 }

abbrev one_byte : ℕ → Bytes
one_byte n = n ∷ []

-- The key "a" is known, and no other.
abbrev only_a : Lookup
only_a tier key = if bytes_eq key (97 ∷ []) then (thread ∷ [], true) else ([], false)

abbrev tiers : List Tier
tiers = memory ∷ disk ∷ []

abbrev request : AddressRequest
request = record {
  response_address = 49 ∷ [];
  request_id = 50 ∷ [];
  keys = (97 ∷ []) ∷ (98 ∷ []) ∷ (97 ∷ []) ∷ [];
}

abbrev no_requests : Waiting
no_requests = []

abbrev more_of_a : List ReplicationFactor
more_of_a = record { key = 97 ∷ []; global = (memory, 3) ∷ []; local = (disk, 1) ∷ [] } ∷ []

abbrev of_monitor : StringMap KeyReplication
of_monitor =
    (
      97 ∷ [],
      record {
        global_replication = (memory, 3) ∷ (disk, 1) ∷ [];
        local_replication = (memory, 1) ∷ (disk, 1) ∷ [];
      },
    )
    ∷ []

more-AreUpdatesOf : AreUpdatesOf more_of_a of_monitor
unfolding rep_at find value_or factor_of same_tier bytes_eq
more-AreUpdatesOf = (((refl, _), (refl, _)), _)

route_replication_change_handler-factor_of_example :
    (let m' = (route_replication_change_handler one_byte 2 [] more_of_a 0 (52 ∷ []) []).1 in
      (factor_of memory (rep_at (97 ∷ []) m').global_replication ≡ (
        if names_global (97 ∷ []) memory more_of_a
        then factor_of memory (rep_at (97 ∷ []) of_monitor).global_replication
        else factor_of memory (rep_at (97 ∷ []) []).global_replication))
      × (factor_of memory (rep_at (97 ∷ []) m').local_replication ≡ (
          if names_local (97 ∷ []) memory more_of_a
          then factor_of memory (rep_at (97 ∷ []) of_monitor).local_replication
          else factor_of memory (rep_at (97 ∷ []) []).local_replication)))
route_replication_change_handler-factor_of_example =
    route_replication_change_handler-factor_of one_byte 2 [] more_of_a 0 (52 ∷ []) [] of_monitor
      more-AreUpdatesOf (97 ∷ []) memory
