-- ===== src/Anna/Routing/Changes.antt =====
-- replication_change_handler of src/dist/anna/src/route/replication_change_handler.cpp, by which a router
-- learns of new replication factors.
pub mod Learned
use testbed.Prelude.{ℕ, ◌-◌, List, [], ◌∷◌, Bytes, if◌then◌else◌, ◌==◌}
use testbed.Anna.Lattice.MapLattice.{StringMap}
use testbed.Anna.Cluster.Departing.{Sent, to_workers}
use testbed.Anna.Server.Replication.{KeyReplication}
use testbed.Anna.Server.Replication.Change.{ReplicationFactor, learn_change}

abbrev k_routing_replication_change_port : ℕ
k_routing_replication_change_port = 6550

-- The loop over the updates.
unfoldable pub learn_changes :
    List ReplicationFactor → StringMap KeyReplication → StringMap KeyReplication
learn_changes [] m = m
learn_changes (key_rep ∷ updates) m = learn_changes updates (learn_change key_rep m)

-- With the message as it came in, which the first thread passes on to the other threads.
unfoldable pub route_replication_change_handler :
    (ℕ → Bytes)
    → ℕ
    → Bytes
    → List ReplicationFactor
    → ℕ
    → Bytes
    → StringMap KeyReplication
    → List Sent × StringMap KeyReplication
route_replication_change_handler to_string k_routing_thread_count serialized updates thread_id ip
      m =
    (
      if thread_id == 0
          then to_workers to_string k_routing_replication_change_port ip serialized
              (k_routing_thread_count - 1)
          else [],
      learn_changes updates m,
    )
