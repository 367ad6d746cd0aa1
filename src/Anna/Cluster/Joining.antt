-- ===== src/Anna/Cluster/Joining.antt =====
-- A server node hears of a node that joins or leaves: node_join_handler and node_depart_handler of
-- src/dist/anna/src/kvs. Tier_Parse and `stoi` are parameters, with no result where they fail, and so is
-- get_responsible_threads.
pub mod Repeated
use testbed.Prelude.{
  ℕ, zero, suc, ◌+◌, ◌-◌, Bool, true, false, ◌&&◌, not, Option, some, none, List, [], ◌∷◌, ◌++◌,
  Bytes, bytes_eq, ltb, if◌then◌else◌, ◌==◌,
}
use testbed.Anna.Lattice.SetLattice.{StringSet, set_insert}
use testbed.Anna.Lattice.MapLattice.{StringMap}
use testbed.Anna.Kvs.{KeyProperty}
use testbed.Anna.HashRing.Servers.{ServerThread, HashRing, join, remove}
use testbed.Anna.HashRing.Walk.{has}
use testbed.Anna.Metadata.{split}
use testbed.Anna.Server.Maps.{change}
use testbed.Anna.Cluster.{
  Tier, tier_name, colon, connect_address, parted, k_node_join_port, k_node_depart_port,
  k_gossip_port, Handled, returned, thrown, overrun,
}
use testbed.Anna.Cluster.Rings.{GlobalRingMap, same_tier, ring_at, set_ring}
use testbed.Anna.Cluster.Departing.{Sent, to_workers, add_responsible, add_to_threads}

pub record NodeState : Type 0 where
  pub global_hash_rings : GlobalRingMap
  pub join_gossip_map : StringMap StringSet
  pub join_remove_set : StringSet

-- The settings of a node's thread.
pub record Node : Type 0 where
  pub thread_id : ℕ
  pub public_ip : Bytes
  pub private_ip : Bytes
  pub self_tier : Tier
  pub self_join_count : ℕ
  pub thread_num : ℕ
  pub wt : ServerThread

-- A node's message about a node: its tier, its addresses and how often it has joined.
unfoldable pub join_message : (ℕ → Bytes) → Tier → Bytes → Bytes → ℕ → Bytes
join_message to_string tier public_ip private_ip count =
    parted colon (tier_name tier) (public_ip ∷ private_ip ∷ to_string count ∷ [])

module _ (to_string : ℕ → Bytes) where
  -- To the servers that are neither this one nor the one that joined.
  unfoldable pub pass_join : Bytes → Bytes → Bytes → List ServerThread → List Sent
  pass_join msg private_ip new_private_ip [] = []
  pass_join msg private_ip new_private_ip (st ∷ servers) =
      let rest = pass_join msg private_ip new_private_ip servers in
      if not (bytes_eq st.private_ip private_ip) && not (bytes_eq st.private_ip new_private_ip)
      then (connect_address to_string st.private_ip st.tid k_node_join_port, msg) ∷ rest
      else rest

  unfoldable pub pass_join_rings : Bytes → Bytes → Bytes → GlobalRingMap → List Sent
  pass_join_rings msg private_ip new_private_ip [] = []
  pass_join_rings msg private_ip new_private_ip ((tier, r) ∷ rings) =
      pass_join msg private_ip new_private_ip r.unique_servers
      ++ pass_join_rings msg private_ip new_private_ip rings

  -- What the first thread sends.
  unfoldable pub announce_join : Node → Bytes → Bytes → GlobalRingMap → List Sent
  announce_join node new_private_ip serialized rings =
      (
        connect_address to_string new_private_ip 0 k_node_join_port,
        join_message to_string node.self_tier node.public_ip node.private_ip node.self_join_count,
      )
      ∷ (pass_join_rings serialized node.private_ip new_private_ip rings
          ++ to_workers to_string k_node_join_port node.private_ip serialized (node.thread_num - 1))

  -- The threads of the node that joined again.
  unfoldable pub add_rejoined :
      Bytes → Bytes → List ServerThread → StringMap StringSet → StringMap StringSet
  add_rejoined key new_private_ip [] m = m
  add_rejoined key new_private_ip (thread ∷ threads) m = add_rejoined key new_private_ip threads (
      if bytes_eq thread.private_ip new_private_ip
      then change (connect_address to_string thread.private_ip thread.tid k_gossip_port)
          (set_insert key) m
      else m)

  module _ (is_self : ServerThread → ServerThread → Bool) where
    -- A stored key whose threads are known.
    unfoldable pub hand_over :
        ServerThread → ℕ → Bytes → Bytes → Option (List ServerThread) → NodeState → NodeState
    hand_over wt join_count new_private_ip key none s = s
    hand_over wt join_count new_private_ip key (some threads) s =
        if ltb 0 join_count
        then record s {
          join_gossip_map = add_rejoined key new_private_ip threads s.join_gossip_map;
        }
        else if has is_self wt threads
        then s
        else record s {
          join_remove_set = set_insert key s.join_remove_set;
          join_gossip_map = add_to_threads to_string key threads s.join_gossip_map;
        }

    unfoldable pub hand_over_keys :
        ServerThread
        → ℕ
        → Bytes
        → (Bytes → Option (List ServerThread))
        → StringMap KeyProperty
        → NodeState
        → NodeState
    hand_over_keys wt join_count new_private_ip responsible [] s = s
    hand_over_keys wt join_count new_private_ip responsible ((key, p) ∷ stored_key_map) s =
        hand_over_keys wt join_count new_private_ip responsible stored_key_map
          (hand_over wt join_count new_private_ip key (responsible key) s)

    module _ (hasher : ServerThread → ℕ) (k_virtual_thread_num : ℕ)
        (get_responsible_threads : GlobalRingMap → Bytes → Option (List ServerThread)) where
      -- Once the node is on the ring of its tier.
      unfoldable pub joined :
          Node
          → Tier
          → Bytes
          → ℕ
          → Bytes
          → StringMap KeyProperty
          → NodeState
          → List Sent × NodeState
      joined node tier new_private_ip join_count serialized stored_key_map s = (
        if node.thread_id == 0
            then announce_join node new_private_ip serialized s.global_hash_rings
            else [],
        if same_tier tier node.self_tier
            then hand_over_keys node.wt join_count new_private_ip
                (get_responsible_threads s.global_hash_rings) stored_key_map s
            else s,
      )

      unfoldable pub take_join :
          Node
          → Tier
          → Bytes
          → Bytes
          → ℕ
          → Bytes
          → StringMap KeyProperty
          → NodeState
          → List Sent × NodeState
      take_join node tier new_public_ip new_private_ip join_count serialized stored_key_map s =
          let (inserted, r) =
            join to_string hasher k_virtual_thread_num new_public_ip new_private_ip join_count 0
              (ring_at tier s.global_hash_rings) in
          let s = record s { global_hash_rings = set_ring tier r s.global_hash_rings } in
          if inserted
          then joined node tier new_private_ip join_count serialized stored_key_map s
          else ([], s)

      unfoldable pub take_parsed :
          Node
          → Option Tier
          → Bytes
          → Bytes
          → Option ℕ
          → Bytes
          → StringMap KeyProperty
          → NodeState
          → Handled (List Sent × NodeState)
      take_parsed node none new_public_ip new_private_ip count serialized stored_key_map s = overrun
      take_parsed node (some tier) new_public_ip new_private_ip none serialized stored_key_map s =
          thrown
      take_parsed node (some tier) new_public_ip new_private_ip (some count) serialized
            stored_key_map s =
          returned
            (take_join node tier new_public_ip new_private_ip count serialized stored_key_map s)

      module _ (tier_parse : Bytes → Option Tier) (stoi : Bytes → Option ℕ) where
        unfoldable pub join_tokens :
            Node
            → List Bytes
            → Bytes
            → StringMap KeyProperty
            → NodeState
            → Handled (List Sent × NodeState)
        join_tokens node (tier ∷ public_ip ∷ private_ip ∷ count ∷ rest) serialized stored_key_map
              s =
            take_parsed node (tier_parse tier) public_ip private_ip (stoi count) serialized
              stored_key_map s
        join_tokens node _ serialized stored_key_map s = overrun

        unfoldable pub node_join_handler :
            Node → Bytes → StringMap KeyProperty → NodeState → Handled (List Sent × NodeState)
        node_join_handler node serialized stored_key_map s =
            join_tokens node (split serialized colon []) serialized stored_key_map s

      -- node_depart_handler, without its log.
      unfoldable pub take_depart :
          Node → Tier → Bytes → Bytes → Bytes → NodeState → List Sent × NodeState
      take_depart node tier public_ip private_ip serialized s = (
        if node.thread_id == 0
            then to_workers to_string k_node_depart_port node.private_ip serialized
                (node.thread_num - 1)
            else [],
        record s {
          global_hash_rings =
              set_ring tier
                (remove to_string hasher k_virtual_thread_num public_ip private_ip 0
                  (ring_at tier s.global_hash_rings))
                s.global_hash_rings;
        },
      )

      unfoldable pub depart_tokens :
          (Bytes → Option Tier)
          → Node
          → List Bytes
          → Bytes
          → NodeState
          → Handled (List Sent × NodeState)
      depart_tokens tier_parse node (tier ∷ public_ip ∷ private_ip ∷ rest) serialized s =
          elim (tier_parse tier) [
            | none ↦ overrun
            | some t ↦ returned (take_depart node t public_ip private_ip serialized s)
          ]
      depart_tokens tier_parse node _ serialized s = overrun

      unfoldable pub node_depart_handler :
          (Bytes → Option Tier) → Node → Bytes → NodeState → Handled (List Sent × NodeState)
      node_depart_handler tier_parse node serialized s =
          depart_tokens tier_parse node (split serialized colon []) serialized s
