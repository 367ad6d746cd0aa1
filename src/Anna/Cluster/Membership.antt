-- ===== src/Anna/Cluster/Membership.antt =====
-- The routing tier and the monitor hear of nodes that join and leave: membership_handler of
-- src/dist/anna/src/route/membership_handler.cpp and of src/dist/anna/src/monitor/membership_handler.cpp,
-- and seed_handler of src/dist/anna/src/route/seed_handler.cpp.
pub mod Stale
use testbed.Prelude.{
  ℕ, zero, suc, ◌+◌, ◌-◌, Bool, true, false, ◌&&◌, Option, some, none, List, [], ◌∷◌, ◌++◌, Bytes,
  bytes_eq, if◌then◌else◌, ◌==◌,
}
use testbed.Anna.Lattice.MapLattice.{StringMap}
use testbed.Anna.HashRing.Servers.{ServerThread, HashRing, join, remove}
use testbed.Anna.Metadata.{split}
use testbed.Anna.Server.Maps.{map_erase}
use testbed.Anna.Cluster.{
  Tier, tier_unspecified, memory, disk, routing, colon, connect_address, parted, k_node_join_port,
  k_routing_notify_port, Handled, returned, thrown, overrun,
}
use testbed.Anna.Cluster.Rings.{GlobalRingMap, ring_at, set_ring}
use testbed.Anna.Cluster.Departing.{Sent, to_workers}

-- "join" and "depart".
abbrev pub join_word : Bytes
join_word = 106 ∷ 111 ∷ 105 ∷ 110 ∷ []

abbrev pub depart_word : Bytes
depart_word = 100 ∷ 101 ∷ 112 ∷ 97 ∷ 114 ∷ 116 ∷ []

module _ (to_string : ℕ → Bytes) (hasher : ServerThread → ℕ) (k_virtual_thread_num : ℕ) where
  unfoldable pub ring_remove : Tier → Bytes → Bytes → GlobalRingMap → GlobalRingMap
  ring_remove tier public_ip private_ip rings =
      set_ring tier
        (remove to_string hasher k_virtual_thread_num public_ip private_ip 0 (ring_at tier rings))
        rings

  unfoldable pub ring_join : Tier → Bytes → Bytes → ℕ → GlobalRingMap → Bool × GlobalRingMap
  ring_join tier public_ip private_ip count rings =
      let (inserted, r) =
        join to_string hasher k_virtual_thread_num public_ip private_ip count 0
          (ring_at tier rings) in
      (inserted, set_ring tier r rings)

  -- The routing tier's first thread tells every server but the one that joined.
  unfoldable pub tell_servers : Bytes → Bytes → List ServerThread → List Sent
  tell_servers msg new_private_ip [] = []
  tell_servers msg new_private_ip (st ∷ servers) =
      let rest = tell_servers msg new_private_ip servers in
      if bytes_eq st.private_ip new_private_ip
      then rest
      else (connect_address to_string st.private_ip st.tid k_node_join_port, msg) ∷ rest

  unfoldable pub tell_rings : Bytes → Bytes → GlobalRingMap → List Sent
  tell_rings msg new_private_ip [] = []
  tell_rings msg new_private_ip ((tier, r) ∷ rings) =
      tell_servers msg new_private_ip r.unique_servers ++ tell_rings msg new_private_ip rings

  -- With the texts behind "join", from the tier's on.
  unfoldable pub route_joined :
      ℕ → ℕ → Bytes → Bytes → Bytes → Bytes → Bool × GlobalRingMap → List Sent × GlobalRingMap
  route_joined thread_id thread_count ip msg new_private_ip serialized (inserted, rings) = (
    if inserted && (thread_id == 0)
        then tell_rings msg new_private_ip rings
          ++ to_workers to_string k_routing_notify_port ip serialized (thread_count - 1)
        else [],
    rings,
  )

  unfoldable pub route_departed : ℕ → ℕ → Bytes → Bytes → GlobalRingMap → List Sent × GlobalRingMap
  route_departed thread_id thread_count ip serialized rings = (
    if thread_id == 0
        then to_workers to_string k_routing_notify_port ip serialized (thread_count - 1)
        else [],
    rings,
  )

  module _ (tier_parse : Bytes → Option Tier) (stoi : Bytes → Option ℕ) where
    -- The count behind the addresses, which is read of a join alone.
    unfoldable pub route_join :
        ℕ
        → ℕ
        → Bytes
        → Tier
        → Bytes
        → Bytes
        → Bytes
        → List Bytes
        → Bytes
        → GlobalRingMap
        → Handled (List Sent × GlobalRingMap)
    route_join thread_id thread_count ip tier tier_text public_ip private_ip [] serialized rings =
        overrun
    route_join thread_id thread_count ip tier tier_text public_ip private_ip (count ∷ rest)
          serialized rings =
        elim (stoi count) [
          | none ↦ thrown
          | some n ↦ returned (
              route_joined thread_id thread_count ip
                (parted colon tier_text (public_ip ∷ private_ip ∷ count ∷ [])) private_ip serialized
                (ring_join tier public_ip private_ip n rings))
        ]

    unfoldable pub route_type :
        ℕ
        → ℕ
        → Bytes
        → Bytes
        → Tier
        → Bytes
        → Bytes
        → Bytes
        → List Bytes
        → Bytes
        → GlobalRingMap
        → Handled (List Sent × GlobalRingMap)
    route_type thread_id thread_count ip type' tier tier_text public_ip private_ip rest serialized
          rings =
        if bytes_eq type' join_word
        then route_join thread_id thread_count ip tier tier_text public_ip private_ip rest
            serialized rings
        else if bytes_eq type' depart_word
        then returned (
            route_departed thread_id thread_count ip serialized
              (ring_remove tier public_ip private_ip rings))
        else returned ([], rings)

    unfoldable pub route_tokens :
        ℕ → ℕ → Bytes → List Bytes → Bytes → GlobalRingMap → Handled (List Sent × GlobalRingMap)
    route_tokens thread_id thread_count ip (type' ∷ tier ∷ public_ip ∷ private_ip ∷ rest) serialized
          rings =
        elim (tier_parse tier) [
          | none ↦ overrun
          | some t ↦
              route_type thread_id thread_count ip type' t tier public_ip private_ip rest serialized
                rings
        ]
    route_tokens thread_id thread_count ip _ serialized rings = overrun

    unfoldable pub route_membership_handler :
        ℕ → ℕ → Bytes → Bytes → GlobalRingMap → Handled (List Sent × GlobalRingMap)
    route_membership_handler thread_id thread_count ip serialized rings =
        route_tokens thread_id thread_count ip (split serialized colon []) serialized rings

-- What the monitor knows; the storage and the occupancy of a server are of types of their own.
pub record Monitor (A B : Type 0) : Type 0 where
  pub global_hash_rings : GlobalRingMap
  pub new_memory_count : ℕ
  pub new_ebs_count : ℕ
  pub grace_start : ℕ
  pub routing_ips : List Bytes
  pub memory_storage : StringMap A
  pub ebs_storage : StringMap A
  pub memory_occupancy : StringMap B
  pub ebs_occupancy : StringMap B
  pub key_access_frequency : StringMap (StringMap ℕ)

-- The addresses of the first `n` threads.
unfoldable pub erase_threads : (ℕ → Bytes) → Bytes → ℕ → StringMap ℕ → StringMap ℕ
erase_threads to_string private_ip zero m = m
erase_threads to_string private_ip (suc n) m =
    map_erase (private_ip ++ (colon ∷ to_string n)) (erase_threads to_string private_ip n m)

unfoldable pub erase_accesses :
    (ℕ → Bytes) → Bytes → ℕ → StringMap (StringMap ℕ) → StringMap (StringMap ℕ)
erase_accesses to_string private_ip n [] = []
erase_accesses to_string private_ip n ((key, accesses) ∷ m) =
    (key, erase_threads to_string private_ip n accesses) ∷ erase_accesses to_string private_ip n m

module _ {A B : Type 0} (to_string : ℕ → Bytes) (hasher : ServerThread → ℕ)
    (k_virtual_thread_num : ℕ) (now k_memory_thread_count k_ebs_thread_count : ℕ) where
  unfoldable pub monitor_join : Tier → Bytes → Bytes → Monitor A B → Monitor A B
  monitor_join memory public_ip private_ip m = record m {
    global_hash_rings =
        (ring_join to_string hasher k_virtual_thread_num memory public_ip private_ip 0
          m.global_hash_rings).1;
    new_memory_count = m.new_memory_count - 1;
    grace_start = now;
  }
  monitor_join disk public_ip private_ip m = record m {
    global_hash_rings =
        (ring_join to_string hasher k_virtual_thread_num disk public_ip private_ip 0
          m.global_hash_rings).1;
    new_ebs_count = m.new_ebs_count - 1;
    grace_start = now;
  }
  monitor_join routing public_ip private_ip m = record m {
    routing_ips = m.routing_ips ++ (public_ip ∷ []);
  }
  monitor_join tier_unspecified public_ip private_ip m = m

  -- What is erased goes by the private address.
  unfoldable pub monitor_forget : Tier → Bytes → Monitor A B → Monitor A B
  monitor_forget memory private_ip m = record m {
    memory_storage = map_erase private_ip m.memory_storage;
    memory_occupancy = map_erase private_ip m.memory_occupancy;
    key_access_frequency =
        erase_accesses to_string private_ip k_memory_thread_count m.key_access_frequency;
  }
  monitor_forget disk private_ip m = record m {
    ebs_storage = map_erase private_ip m.ebs_storage;
    ebs_occupancy = map_erase private_ip m.ebs_occupancy;
    key_access_frequency =
        erase_accesses to_string private_ip k_ebs_thread_count m.key_access_frequency;
  }
  monitor_forget routing private_ip m = m
  monitor_forget tier_unspecified private_ip m = m

  unfoldable pub monitor_type : Bytes → Tier → Bytes → Bytes → Monitor A B → Monitor A B
  monitor_type type' tier public_ip private_ip m =
      if bytes_eq type' join_word
      then monitor_join tier public_ip private_ip m
      else if bytes_eq type' depart_word
      then monitor_forget tier private_ip (record m {
        global_hash_rings =
            ring_remove to_string hasher k_virtual_thread_num tier public_ip private_ip
              m.global_hash_rings;
      })
      else m

  unfoldable pub monitor_parsed :
      Bytes → Option Tier → Bytes → Bytes → Monitor A B → Handled (Monitor A B)
  monitor_parsed type' none public_ip private_ip m = overrun
  monitor_parsed type' (some t) public_ip private_ip m =
      returned (monitor_type type' t public_ip private_ip m)

  unfoldable pub monitor_tokens :
      (Bytes → Option Tier) → List Bytes → Monitor A B → Handled (Monitor A B)
  monitor_tokens tier_parse (type' ∷ tier ∷ public_ip ∷ private_ip ∷ rest) m =
      monitor_parsed type' (tier_parse tier) public_ip private_ip m
  monitor_tokens tier_parse _ m = overrun

  unfoldable pub monitor_membership_handler :
      (Bytes → Option Tier) → Bytes → Monitor A B → Handled (Monitor A B)
  monitor_membership_handler tier_parse serialized m =
      monitor_tokens tier_parse (split serialized colon []) m

-- The answer to a request for the members: every tier with its servers' addresses.
unfoldable pub server_addresses : List ServerThread → List (Bytes × Bytes)
server_addresses [] = []
server_addresses (st ∷ servers) = (st.private_ip, st.public_ip) ∷ server_addresses servers

unfoldable pub seed_handler : GlobalRingMap → List (Tier × List (Bytes × Bytes))
seed_handler [] = []
seed_handler ((tier, r) ∷ rings) = (tier, server_addresses r.unique_servers) ∷ seed_handler rings

-- The name under which the statistics of a server are kept: `tokens[2] + "/" + tokens[3]` of
-- src/dist/anna/src/monitor/stats_helpers.cpp.
unfoldable pub ip_pair : Bytes → Bytes → Bytes
ip_pair public_ip private_ip = public_ip ++ (47 ∷ private_ip)
