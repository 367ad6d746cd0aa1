-- ===== src/Anna/Cluster/Departing.antt =====
-- A server node leaves: self_depart_handler of src/dist/anna/src/kvs, remove_node of elasticity.cpp and
-- depart_done_handler.cpp of src/dist/anna/src/monitor. `std::to_string` and `stoi` are parameters, the
-- latter with no number where it throws, and so is get_responsible_threads, with no threads where it fails.
pub mod Acks
use testbed.Prelude.{
  ℕ, zero, suc, ◌+◌, ◌-◌, ◌%◌, Bool, true, false, Option, some, none, List, [], ◌∷◌, ◌++◌, Bytes,
  map, if◌then◌else◌, ◌==◌,
}
use testbed.Anna.Lattice.Scalars.{u32_mod}
use testbed.Anna.Lattice.SetLattice.{StringSet, set_insert}
use testbed.Anna.Lattice.MapLattice.{StringMap, find, contains, update}
use testbed.Anna.Kvs.{Serializer, KeyProperty}
use testbed.Anna.HashRing.Servers.{ServerThread, HashRing, remove}
use testbed.Anna.Metadata.{split}
use testbed.Anna.Server.Maps.{change, map_erase}
use testbed.Anna.Server.Gossip.{PutTuple, send_gossip}
use testbed.Anna.Cluster.{
  Tier, tier_name, memory, colon, underscore, connect_address, parted, k_node_depart_port,
  k_self_depart_port, k_gossip_port, k_routing_notify_port, k_monitoring_notify_port,
  k_depart_done_port, Handled, returned, thrown, overrun,
}
use testbed.Anna.Cluster.Rings.{GlobalRingMap, ring_at, set_ring}

-- A message and the address that it is sent to.
abbrev pub Sent : Type 0
Sent = Bytes × Bytes

-- "depart" and "remove".
abbrev depart_word : Bytes
depart_word = 100 ∷ 101 ∷ 112 ∷ 97 ∷ 114 ∷ 116 ∷ []

abbrev remove_word : Bytes
remove_word = 114 ∷ 101 ∷ 109 ∷ 111 ∷ 118 ∷ 101 ∷ []

-- "memory" and "ebs".
abbrev pub memory_word : Bytes
memory_word = 109 ∷ 101 ∷ 109 ∷ 111 ∷ 114 ∷ 121 ∷ []

abbrev pub ebs_word : Bytes
ebs_word = 101 ∷ 98 ∷ 115 ∷ []

module _ (to_string : ℕ → Bytes) where
  unfoldable pub to_servers : Bytes → List ServerThread → List Sent
  to_servers msg [] = []
  to_servers msg (st ∷ servers) =
      (connect_address to_string st.private_ip st.tid k_node_depart_port, msg)
      ∷ to_servers msg servers

  unfoldable pub to_rings : Bytes → GlobalRingMap → List Sent
  to_rings msg [] = []
  to_rings msg ((tier, r) ∷ rings) = to_servers msg r.unique_servers ++ to_rings msg rings

  -- One message to the first thread of each address.
  unfoldable pub to_each : ℕ → Bytes → List Bytes → List Sent
  to_each port msg [] = []
  to_each port msg (ip ∷ ips) = (connect_address to_string ip 0 port, msg) ∷ to_each port msg ips

  -- The node's own threads other than the first, `n` of them.
  unfoldable pub to_workers : ℕ → Bytes → Bytes → ℕ → List Sent
  to_workers port private_ip msg zero = []
  to_workers port private_ip msg (suc n) =
      to_workers port private_ip msg n
      ++ ((connect_address to_string private_ip (suc n) port, msg) ∷ [])

  -- What the first thread tells the others.
  unfoldable pub announce_depart :
      Tier → Bytes → Bytes → ℕ → GlobalRingMap → List Bytes → List Bytes → Bytes → List Sent
  announce_depart self_tier public_ip private_ip thread_num rings routing_ips monitoring_ips
        serialized =
      let msg = parted colon (tier_name self_tier) (public_ip ∷ private_ip ∷ []) in
      let depart = depart_word ++ (colon ∷ msg) in
      to_rings msg rings
      ++ (to_each k_routing_notify_port depart routing_ips
          ++ (to_each k_monitoring_notify_port depart monitoring_ips
              ++ to_workers k_self_depart_port private_ip serialized (thread_num - 1)))

  unfoldable pub add_to_threads :
      Bytes → List ServerThread → StringMap StringSet → StringMap StringSet
  add_to_threads key [] m = m
  add_to_threads key (thread ∷ threads) m = add_to_threads key threads (
      change (connect_address to_string thread.private_ip thread.tid k_gossip_port) (set_insert key)
        m)

  unfoldable pub add_responsible :
      Bytes → Option (List ServerThread) → StringMap StringSet → StringMap StringSet
  add_responsible key none m = m
  add_responsible key (some threads) m = add_to_threads key threads m

  -- The loop over the stored keys.
  unfoldable pub depart_keysets :
      (Bytes → Option (List ServerThread))
      → StringMap KeyProperty
      → StringMap StringSet
      → StringMap StringSet
  depart_keysets responsible [] m = m
  depart_keysets responsible ((key, p) ∷ stored_key_map) m =
      depart_keysets responsible stored_key_map (add_responsible key (responsible key) m)

-- The acknowledgement, for the address that the request to depart names.
unfoldable pub depart_ack : Tier → Bytes → Bytes → Bytes
depart_ack self_tier public_ip private_ip =
    parted underscore public_ip (private_ip ∷ tier_name self_tier ∷ [])

pub record Departed (S : Type 0) : Type 0 where
  pub rings : GlobalRingMap
  pub announced : List Sent
  pub gossip : StringMap (List PutTuple)
  pub ack : Sent
  pub store : S

module _ {S : Type 0} (to_string : ℕ → Bytes) (hasher : ServerThread → ℕ) (k_virtual_thread_num : ℕ)
    (serializers : ℕ → Serializer S)
    (get_responsible_threads : GlobalRingMap → Bytes → Option (List ServerThread)) where
  unfoldable pub self_depart_handler :
      ℕ
      → Tier
      → ℕ
      → Bytes
      → Bytes
      → GlobalRingMap
      → StringMap KeyProperty
      → List Bytes
      → List Bytes
      → Bytes
      → S
      → Departed S
  self_depart_handler thread_id self_tier thread_num public_ip private_ip rings stored_key_map
        routing_ips monitoring_ips serialized s =
      let rings =
        set_ring self_tier
          (remove to_string hasher k_virtual_thread_num public_ip private_ip 0
            (ring_at self_tier rings))
          rings in
      let (gossip, s) =
        send_gossip serializers
          (depart_keysets to_string (get_responsible_threads rings) stored_key_map [])
          stored_key_map s in
      record {
        rings = rings;
        announced =
            if thread_id == 0
            then announce_depart to_string self_tier public_ip private_ip thread_num rings
                routing_ips monitoring_ips serialized
            else [];
        gossip = gossip;
        ack = (serialized, depart_ack self_tier public_ip private_ip);
        store = s;
      }

-- The monitor's view of the nodes that are leaving, and what it has sent to the management node.
pub record Departures : Type 0 where
  pub departing_node_map : StringMap ℕ
  pub removing_memory_node : Bool
  pub removing_ebs_node : Bool
  pub grace_start : ℕ
  pub removals : List Bytes

-- remove_node, with the thread number of the memory tier, called for that tier's flag.
unfoldable pub expect_departure : Bytes → ℕ → StringMap ℕ → StringMap ℕ
expect_departure private_ip thread_number m =
    if contains private_ip m
    then update private_ip (λ old. thread_number) m
    else (private_ip, thread_number) ∷ m

-- The flag that the callers pass: `removing_memory_node` for the memory tier.
unfoldable pub set_removing : Tier → Departures → Departures
set_removing memory d = record d { removing_memory_node = true }
set_removing _ d = record d { removing_ebs_node = true }

unfoldable pub remove_node :
    (ℕ → Bytes) → Tier → ServerThread → ℕ → Bytes → Departures → Sent × Departures
remove_node to_string tier node memory_thread_number monitoring_ip d = (
  (
    connect_address to_string node.private_ip node.tid k_self_depart_port,
    connect_address to_string monitoring_ip 0 k_depart_done_port,
  ),
  set_removing tier (record d {
    departing_node_map = expect_departure node.private_ip memory_thread_number d.departing_node_map;
  }),
)

-- The counter at 0: the flag of the tier is cleared, and the management node told.
unfoldable pub departed : ℕ → ℕ → Bytes → Departures → Departures
departed now tier_id private_ip d =
    let map = map_erase private_ip d.departing_node_map in
    if tier_id == 1
    then record d {
      departing_node_map = map;
      removing_memory_node = false;
      grace_start = now;
      removals = d.removals ++ (parted colon remove_word (private_ip ∷ memory_word ∷ []) ∷ []);
    }
    else record d {
      departing_node_map = map;
      removing_ebs_node = false;
      grace_start = now;
      removals = d.removals ++ (parted colon remove_word (private_ip ∷ ebs_word ∷ []) ∷ []);
    }

-- The acknowledgement of a node with the count that is kept for it; without one it is logged.
unfoldable pub count_ack : ℕ → ℕ → Bytes → Option ℕ → Departures → Departures
count_ack now tier_id private_ip none d = d
count_ack now tier_id private_ip (some n) d =
    let left = (n + u32_mod - 1) % u32_mod in
    let d = record d {
      departing_node_map = update private_ip (λ old. left) d.departing_node_map;
    } in
    if left == 0 then departed now tier_id private_ip d else d

unfoldable pub take_ack : ℕ → Option ℕ → Bytes → Departures → Handled Departures
take_ack now none private_ip d = thrown
take_ack now (some tier_id) private_ip d =
    returned (count_ack now tier_id private_ip (find private_ip d.departing_node_map) d)

unfoldable pub ack_tokens : (Bytes → Option ℕ) → ℕ → List Bytes → Departures → Handled Departures
ack_tokens stoi now (public_ip ∷ private_ip ∷ tier ∷ rest) d = take_ack now (stoi tier) private_ip d
ack_tokens stoi now _ d = overrun

unfoldable pub depart_done_handler :
    (Bytes → Option ℕ) → ℕ → Bytes → Departures → Handled Departures
depart_done_handler stoi now serialized d = ack_tokens stoi now (split serialized underscore []) d
