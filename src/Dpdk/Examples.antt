-- ===== src/Dpdk/Examples.antt =====
-- The theorems about the packet distributor at concrete ports and packets.
use testbed.Prelude.{
  ℕ, ◌+◌, ◌-◌, ◌<◌, ◌≡◌, ◌⊎◌, inl, refl, ap, some, List, [], ◌∷◌, ◌++◌, Bytes, length, arith,
}
use testbed.Dpdk.Ports.{done, PortInfo, entries}
use testbed.Dpdk.Args.{
  Args, accepted, parse_portmask, parse_option, parse_options, parse_num_clients, store_clients,
  read_number, check_args, parse_app_args,
}
use testbed.Dpdk.Args.Masks.{requested, parse_portmask-requested}
use testbed.Dpdk.Args.Accepted.{IsPresent, IsParsed, IsServing, parse_app_args-IsServing}
use testbed.Dpdk.Server.{Rings, Server, flush_rx_queue, process_packets}
use testbed.Dpdk.Server.Rounds.{dealt, process_packets-dealt}
use testbed.Dpdk.Server.Flushes.{seen}
use testbed.Dpdk.Server.Drops.{AllOrNone, flush_rx_queue-inverted}
use testbed.Dpdk.Client.Pairs.{IsTable}

abbrev no_ports : PortInfo
no_ports = record {
  num_ports = 0;
  id = λ j. 0;
  rx_stats = record { rx = λ j. 0 };
  tx_stats = λ c. record { tx = λ j. 0; tx_drop = λ j. 0 };
}

abbrev no_args : Args
no_args = record { ports = no_ports; num_clients = 0 }

-- A reader of one digit.
abbrev read_digit : Bytes → ℕ → ℕ × Bytes
read_digit text base = elim text [ [] ↦ (0, []) | b ∷ bs ↦ (b - 48, bs) ]

two_requested : requested 255 3 64 0 ≡ 0 ∷ 1 ∷ []
unfolding requested
two_requested = refl

two_length : length (requested 255 3 64 0) ≡ 2
two_length = ap (λ (xs : List ℕ). length xs) two_requested

reads_3 : read_digit (51 ∷ []) 16 ≡ (3, [])
reads_3 = refl

-- The mask "3" with room for 32 ports.
parse_portmask-requested_example :
    (a' : Args) × (parse_portmask 32 read_digit 255 (some (51 ∷ [])) no_args ≡ done (accepted a'))
    × (a'.num_clients ≡ 0)
    × (entries a'.ports.num_ports a'.ports.id ≡ entries 0 (λ j. 0) ++ requested 255 3 64 0)
parse_portmask-requested_example =
    parse_portmask-requested 32 (omega arith) read_digit 255 3 51 [] reads_3 (omega arith)
      (omega arith) no_args (omega (arith, two_length))

-- The ports 0 and 1 and one client.
abbrev two_ports : PortInfo
two_ports = record {
  num_ports = 2;
  id = λ j. j;
  rx_stats = record { rx = λ j. 0 };
  tx_stats = λ c. record { tx = λ j. 0; tx_drop = λ j. 0 };
}

abbrev two_args : Args
two_args = record { ports = two_ports; num_clients = 0 }

abbrev served : Args
served = record { ports = two_ports; num_clients = 1 }

two_args-IsParsed : IsParsed 2 two_args
unfolding IsParsed IsPresent
two_args-IsParsed = (λ j lt. lt, omega arith)

served-accepted :
    parse_app_args 32 read_digit 2 ((110, some (49 ∷ [])) ∷ []) two_args ≡ done (accepted served)
unfolding parse_app_args parse_options parse_option parse_num_clients store_clients read_number
    check_args
served-accepted = refl

parse_app_args-IsServing_example : IsServing 2 served
parse_app_args-IsServing_example =
    parse_app_args-IsServing 32 2 read_digit ((110, some (49 ∷ [])) ∷ []) two_args served
      two_args-IsParsed served-accepted

-- Rings that take every burst.
abbrev taking : Rings ℕ (List ℕ)
taking = record { rte_ring_enqueue_bulk = λ client buf r. (length buf, r ++ buf) }

abbrev idle : Server ℕ (List ℕ)
idle = record {
  stats = λ c. record { rx = 0; rx_drop = 0 };
  cl_rx_buf = λ c. [];
  rings = [];
  freed = [];
}

idle_seen : seen (record { rx = 0; rx_drop = 0 }) ≡ 0
unfolding seen
idle_seen = refl

abbrev burst : List ℕ
burst = 7 ∷ 8 ∷ 9 ∷ []

process_packets-dealt_example :
    (s' : Server ℕ (List ℕ)) × (process_packets taking 2 burst idle ≡ done s')
    × ((c : ℕ)
        → c < 2
        → (s'.cl_rx_buf c ≡ [])
          × (seen (s'.stats c)
              ≡ seen (record { rx = 0; rx_drop = 0 }) + length (dealt 2 c 0 burst)))
process_packets-dealt_example =
    process_packets-dealt taking 2 burst idle (omega arith) (omega arith) (omega arith) (λ c. refl)
      (λ c. omega (arith, idle_seen))

taking-AllOrNone : AllOrNone taking (λ c r. r)
unfolding AllOrNone
taking-AllOrNone client buf r = inl (refl, refl)

abbrev one_burst : Server ℕ (List ℕ)
one_burst = record idle { cl_rx_buf = λ c. 7 ∷ 8 ∷ [] }

flush_rx_queue-inverted_example :
    (((flush_rx_queue taking 0 one_burst).rings ≡ 7 ∷ 8 ∷ [])
      × ((flush_rx_queue taking 0 one_burst).freed ≡ 7 ∷ 8 ∷ [])
      × (((flush_rx_queue taking 0 one_burst).stats 0).rx ≡ 0))
    ⊎ (((flush_rx_queue taking 0 one_burst).rings ≡ [])
        × ((flush_rx_queue taking 0 one_burst).freed ≡ [])
        × (((flush_rx_queue taking 0 one_burst).stats 0).rx_drop ≡ 0))
flush_rx_queue-inverted_example =
    flush_rx_queue-inverted taking (λ c r. r) 0 one_burst taking-AllOrNone (omega arith)

two_ports-IsTable : IsTable 32 two_ports
unfolding IsTable
two_ports-IsTable = (λ i j lt lt' e. omega (arith, lt, e), λ j lt. omega (arith, lt))
