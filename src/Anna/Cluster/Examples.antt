-- ===== src/Anna/Cluster/Examples.antt =====
-- The theorems about members of the cluster at concrete messages.
use testbed.Prelude.{
  ℕ, zero, suc, ◌+◌, ◌≡◌, refl, Bool, true, false, Option, some, none, List, [], ◌∷◌, Bytes,
  bytes_eq, length, replicate, length-replicate, if◌then◌else◌, ltb, ◌==◌, arith, le→ltb,
}
use testbed.Anna.Lattice.MapLattice.{find}
use testbed.Anna.Kvs.{Serializer}
use testbed.Anna.HashRing.Servers.{ServerThread, same_thread}
use testbed.Anna.HashRing.Servers.Placed.{virtual, ArePlaced}
use testbed.Anna.HashRing.Walk.{has}
use testbed.Anna.Metadata.{split}
use testbed.Anna.Cluster.{
  Tier, tier_unspecified, memory, disk, routing, tier_name, colon, underscore, parted, returned,
  thrown,
}
use testbed.Anna.Cluster.Fields.{IsFree}
use testbed.Anna.Cluster.Rings.{GlobalRingMap, ring_at}
use testbed.Anna.Cluster.Departing.{Departures, Sent, depart_done_handler, self_depart_handler}
use testbed.Anna.Cluster.Departing.Acks.{
  self_depart-thrown, RefusesCapitals, take_acks, IsCounted, IsRemoved, depart_countdown,
}
use testbed.Anna.Cluster.Joining.{Node, NodeState, join_message, node_join_handler}
use testbed.Anna.Cluster.Joining.Repeated.{Reads, node_join_handler-repeated}
use testbed.Anna.Cluster.Membership.{
  Monitor, depart_word, monitor_membership_handler, ip_pair, ring_remove,
}
use testbed.Anna.Cluster.Membership.Stale.{monitor_membership-stale}

-- Numbers in strokes: one more than the number.
abbrev strokes : ℕ → Bytes
strokes n = 49 ∷ replicate n 49

abbrev count_strokes : Bytes → Option ℕ
count_strokes [] = none
count_strokes (c ∷ rest) = if ltb c 65 then some (length rest) else none

abbrev by_letter : Bytes → Option Tier
by_letter [] = none
by_letter (c ∷ rest) =
    if c == 77
    then some memory
    else if c == 68
    then some disk
    else if c == 82
    then some routing
    else some tier_unspecified

letters_refused : RefusesCapitals count_strokes
letters_refused c rest low high = rw (le→ltb c 65 low) refl

tiers_read : (t : Tier) → by_letter (tier_name t) ≡ some t
unfolding tier_name
tiers_read tier_unspecified = refl
tiers_read memory = refl
tiers_read disk = refl
tiers_read routing = refl

strokes-IsFree : (n : ℕ) → IsFree colon (replicate n 49)
strokes-IsFree zero = tt
strokes-IsFree (suc n) = (refl, strokes-IsFree n)

strokes_read : (n : ℕ) → count_strokes (strokes n) ≡ some n
strokes_read n = rw (length-replicate {A = ℕ} n 49) refl

reads : Reads strokes count_strokes by_letter
reads = record {
  stoi-to_string = λ n small. strokes_read n;
  tier_parse-tier_name = tiers_read;
  to_string-IsFree = λ n. (refl, strokes-IsFree n);
  to_string-filled = λ n e. cc;
}

abbrev hash_tid : ServerThread → ℕ
hash_tid st = st.virtual_num

abbrev no_owners : GlobalRingMap → Bytes → Option (List ServerThread)
no_owners rings key = none

abbrev nothing_stored : ℕ → Serializer (Unit {0})
nothing_stored t = record {
  get = λ key error s. (([], error), s);
  put = λ key v s. (0, s);
  remove = λ key s. s;
}

abbrev departing : Departures
departing = record {
  departing_node_map = (66 ∷ [], 2) ∷ [];
  removing_memory_node = true;
  removing_ebs_node = false;
  grace_start = 0;
  removals = [];
}

self_depart-thrown_example :
    depart_done_handler count_strokes 9
      (self_depart_handler strokes hash_tid 2 nothing_stored no_owners 0 memory 1
        (65 ∷ [])
        (66 ∷ [])
        []
        []
        []
        ((67 ∷ []) ∷ [])
        (68 ∷ [])
        tt).ack.1
      departing
    ≡ thrown
self_depart-thrown_example =
    self_depart-thrown strokes hash_tid 2 nothing_stored no_owners count_strokes 0 memory 1
      (65 ∷ []) (66 ∷ []) [] [] [] ((67 ∷ []) ∷ []) (68 ∷ []) tt 9 departing letters_refused
      (λ e. cc) (refl, tt) (refl, tt)

-- "A_B_1".
abbrev numbered_ack : Bytes
numbered_ack = 65 ∷ 95 ∷ 66 ∷ 95 ∷ 49 ∷ 49 ∷ []

ack_split : split numbered_ack underscore [] ≡ (65 ∷ []) ∷ (66 ∷ []) ∷ (49 ∷ 49 ∷ []) ∷ []
unfolding split
ack_split = refl

two_expected : find (66 ∷ []) departing.departing_node_map ≡ some 2
unfolding find bytes_eq
two_expected = refl

depart_countdown_example :
    ((acks left : ℕ)
      → acks + left ≡ 1
      → (d' : Departures) × (take_acks count_strokes 9 numbered_ack acks departing ≡ returned d')
        × IsCounted (66 ∷ []) (suc left) departing d')
    × ((d' : Departures) × (take_acks count_strokes 9 numbered_ack 2 departing ≡ returned d')
        × IsRemoved (66 ∷ []) 1 departing d')
depart_countdown_example =
    depart_countdown count_strokes 9 numbered_ack (65 ∷ []) (66 ∷ []) (49 ∷ 49 ∷ []) 1 1 departing
      ack_split refl (omega arith) two_expected

abbrev node : Node
node = record {
  thread_id = 0;
  public_ip = 70 ∷ [];
  private_ip = 71 ∷ [];
  self_tier = memory;
  self_join_count = 0;
  thread_num = 2;
  wt = record { public_ip = 70 ∷ []; private_ip = 71 ∷ []; tid = 0; virtual_num = 0 };
}

abbrev alone : NodeState
alone = record { global_hash_rings = []; join_gossip_map = []; join_remove_set = [] }

abbrev never_self : ServerThread → ServerThread → Bool
never_self s t = false

not_there :
    has
        (same_thread strokes)
        (virtual (65 ∷ []) (66 ∷ []) 0)
        (ring_at memory alone.global_hash_rings).unique_servers
      ≡ true
    → ArePlaced hash_tid 2 (65 ∷ []) (66 ∷ []) (ring_at memory alone.global_hash_rings).nodes
unfolding ring_at has
not_there h = absurd (cc)

node_join_handler-repeated_example :
    (sent : List Sent) × (s1 : NodeState) × (node_join_handler strokes never_self hash_tid 2
        no_owners by_letter count_strokes node
        (join_message strokes memory (65 ∷ []) (66 ∷ []) 0)
        []
        alone
      ≡ returned (sent, s1))
    × (has
          (same_thread strokes)
          (record { public_ip = 65 ∷ []; private_ip = 66 ∷ []; tid = 0; virtual_num = 0 })
          (ring_at memory s1.global_hash_rings).unique_servers
        ≡ true)
    × ArePlaced hash_tid 2 (65 ∷ []) (66 ∷ []) (ring_at memory s1.global_hash_rings).nodes
    × (node_join_handler strokes never_self hash_tid 2 no_owners by_letter count_strokes node
          (join_message strokes memory (65 ∷ []) (66 ∷ []) 0)
          []
          s1
        ≡ returned ([], s1))
node_join_handler-repeated_example =
    node_join_handler-repeated strokes never_self hash_tid 2 no_owners count_strokes by_letter node
      memory (65 ∷ []) (66 ∷ []) 0 [] [] alone reads (omega arith) not_there (refl, tt) (refl, tt)

abbrev watching : Monitor ℕ ℕ
watching = record {
  global_hash_rings = [];
  new_memory_count = 0;
  new_ebs_count = 0;
  grace_start = 0;
  routing_ips = [];
  memory_storage = (65 ∷ 47 ∷ 66 ∷ [], 3) ∷ [];
  ebs_storage = [];
  memory_occupancy = [];
  ebs_occupancy = [];
  key_access_frequency = [];
}

monitor_membership-stale_example :
    (m' : Monitor ℕ ℕ) × (monitor_membership_handler strokes hash_tid 2 9 1 1 by_letter
        (parted colon depart_word (tier_name memory ∷ (65 ∷ []) ∷ (66 ∷ []) ∷ []))
        watching
      ≡ returned m')
    × (m'.global_hash_rings ≡ ring_remove strokes hash_tid 2 memory (65 ∷ []) (66 ∷ []) [])
    × (find (ip_pair (65 ∷ []) (66 ∷ [])) m'.memory_storage
        ≡ find (ip_pair (65 ∷ []) (66 ∷ [])) watching.memory_storage)
    × (find (ip_pair (65 ∷ []) (66 ∷ [])) m'.ebs_storage
        ≡ find (ip_pair (65 ∷ []) (66 ∷ [])) watching.ebs_storage)
    × (find (ip_pair (65 ∷ []) (66 ∷ [])) m'.memory_occupancy
        ≡ find (ip_pair (65 ∷ []) (66 ∷ [])) watching.memory_occupancy)
    × (find (ip_pair (65 ∷ []) (66 ∷ [])) m'.ebs_occupancy
        ≡ find (ip_pair (65 ∷ []) (66 ∷ [])) watching.ebs_occupancy)
monitor_membership-stale_example =
    monitor_membership-stale strokes hash_tid 2 9 1 1 by_letter memory (65 ∷ []) (66 ∷ []) watching
      tiers_read (refl, tt) (refl, tt) (λ e. cc)
