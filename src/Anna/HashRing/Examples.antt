-- ===== src/Anna/HashRing/Examples.antt =====
-- The theorems about the hash ring at a ring of three nodes, each its own hash.
use testbed.Prelude.{
  ℕ, Bool, true, ◌==◌, ◌++◌, Bytes, bytes_eq, List, length, take, ◌≡◌, ◌⊎◌, refl, some, [], ◌∷◌,
  arith,
}
use testbed.Anna.HashRing.{
  Nodes, lower_bound, ring_begin, ring_find, ring_empty, ring_insert, ring_erase,
}
use testbed.Anna.HashRing.Owners.{ring_find-ring_insert, ring_find-ring_erase}
use testbed.Anna.HashRing.Walk.{seek, start, has, add_thread, responsible_global}
use testbed.Anna.HashRing.Walk.Distinct.{threads_of, distinct}
use testbed.Anna.HashRing.Walk.Rounds.{responsible_global-AreDifferent}
use testbed.Anna.HashRing.Walk.Distinct.{AreDifferent}
use testbed.Anna.HashRing.Servers.{ServerThread, HashRing, join}
use testbed.Anna.HashRing.Servers.{same_thread, id}
use testbed.Anna.HashRing.Responsible.{has_upper_tier_replica, is_local, is_at, is_primary_replica}
use testbed.Anna.HashRing.Responsible.Primary.{is_primary_replica-first}

abbrev equal : ℕ → ℕ → Bool
equal a b = a == b

abbrev one_byte : ℕ → Bytes
one_byte n = n ∷ []

abbrev by_number : ServerThread → ℕ
by_number st = st.virtual_num

abbrev ring : Nodes ℕ
ring = (10, 10) ∷ (20, 20) ∷ (30, 30) ∷ []

found_20 : ring_find 15 ring ≡ some (20, 20)
unfolding ring_find ring_empty lower_bound
found_20 = refl

-- A hash above all wraps around.
wrapped : ring_find 35 ring ≡ some (10, 10)
unfolding ring_find ring_empty lower_bound ring_begin
wrapped = refl

ring_find-ring_insert_example :
    (ring_find 15 (ring_insert (λ n. n) 17 ring) ≡ ring_find 15 ring)
    ⊎ (ring_find 15 (ring_insert (λ n. n) 17 ring) ≡ some (17, 17))
ring_find-ring_insert_example = ring_find-ring_insert (λ n. n) 15 17 ring

ring_find-ring_erase_example : ring_find 15 (ring_erase (λ n. n) 30 ring) ≡ some (20, 20)
ring_find-ring_erase_example = ring_find-ring_erase (λ n. n) 15 20 30 20 ring (omega arith) found_20

-- Two nodes on the way from hash 15 on.
three_met : length (distinct equal [] (threads_of (start 15 ring) ++ threads_of ring)) ≡ 3
unfolding distinct start seek add_thread has
three_met = refl

responsible_global-AreDifferent_example :
    (found : List ℕ) × (responsible_global equal 20 15 2 ring ≡ some found)
    × (length found ≡ 2)
    × AreDifferent equal found
    × (found ≡ take 2 (distinct equal [] (threads_of (start 15 ring) ++ threads_of ring)))
responsible_global-AreDifferent_example =
    responsible_global-AreDifferent equal 20 15 2 ring (omega arith) (omega (arith, three_met))
      (omega arith)

abbrev no_servers : HashRing
no_servers = record { nodes = []; unique_servers = []; server_join_count = [] }

abbrev joined : HashRing
joined = (join one_byte by_number 3 (65 ∷ []) (66 ∷ []) 1 0 no_servers).1

abbrev server_66 : ServerThread
server_66 = record { public_ip = 65 ∷ []; private_ip = 66 ∷ []; tid = 0; virtual_num = 0 }

abbrev servers : Nodes ServerThread
servers = (10, server_66) ∷ []

one_server :
    length (distinct (same_thread one_byte) [] (threads_of (start 5 servers) ++ threads_of servers))
    ≡ 1
unfolding distinct start seek add_thread has same_thread id bytes_eq
one_server = refl

server_66_primary :
    is_primary_replica 1 1 (1 ∷ 2 ∷ []) (λ tier. 1) 5 5 servers servers server_66 ≡ true
unfolding is_primary_replica has_upper_tier_replica is_at is_local ring_find ring_empty lower_bound
    bytes_eq
server_66_primary = refl

is_primary_replica-first_example :
    (node : ServerThread) × (rest : List ServerThread) × (responsible_global
        (same_thread one_byte)
        10
        5
        1
        servers
      ≡ some (node ∷ rest))
    × (bytes_eq (66 ∷ []) node.private_ip ≡ true)
is_primary_replica-first_example =
    is_primary_replica-first one_byte 10 1 1 (1 ∷ 2 ∷ []) (λ tier. 1) 5 5 servers servers server_66
      (omega arith) (omega (arith, one_server)) (omega arith) server_66_primary
