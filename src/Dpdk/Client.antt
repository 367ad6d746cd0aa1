-- ===== src/Dpdk/Client.antt =====
-- A client process, src/dpdk/dpdk_client.cpp, compiled for DPDK_VERSION 20. The driver is a parameter, its
-- state `T` holding the ring and the buffers of packets to send; so is RTE_MAX_ETHPORTS.
pub mod Pairs
use testbed.Prelude.{
  ℕ, zero, suc, ◌+◌, ◌/◌, ◌%◌, Bool, true, false, ◌&&◌, Option, some, none, List, [], ◌∷◌, Bytes,
  if◌then◌else◌, ltb, leb, ◌==◌,
}
use testbed.Dpdk.Ports.{Outcome, done, fault, out_of_fuel, after, put, TxStats, PortInfo}
use testbed.Dpdk.Server.{u64_mod}

-- How many packets a call sent, and the driver after it. `port` is the port that a packet came in on.
pub record Driver {ℓ} (P T : Type ℓ) : Type ℓ where
  pub port : P → ℕ
  pub rte_ring_dequeue_burst : T → List P × T
  pub rte_eth_tx_buffer : ℕ → ℕ → P → T → ℕ × T
  pub rte_eth_tx_buffer_flush : ℕ → ℕ → T → ℕ × T

-- `none` stands for the result -1. `strtoul` yields the number and the text left.
unfoldable pub parse_client_num : (Bytes → ℕ → ℕ × Bytes) → Option Bytes → Option ℕ
parse_client_num strtoul none = none
parse_client_num strtoul (some []) = none
parse_client_num strtoul (some (b ∷ bs)) =
    let (temp, end) = strtoul (b ∷ bs) 10 in elim end [ [] ↦ some (temp % 256) | _ ∷ _ ↦ none ]

-- The options of the client, of which 'n' is 110.
unfoldable pub parse_app_args : (Bytes → ℕ → ℕ × Bytes) → List (ℕ × Option Bytes) → ℕ → Option ℕ
parse_app_args strtoul [] client_id = some client_id
parse_app_args strtoul ((opt, optarg) ∷ opts) client_id =
    let client_num = parse_client_num strtoul optarg in
    if opt == 110
    then elim client_num [ none ↦ none | some n ↦ parse_app_args strtoul opts n ]
    else none

-- The loop over the pairs of ports from place `i` on; `done none` where `rte_exit` ends the process, since a
-- port's buffer cannot be set up.
unfoldable pub pair_ports : ℕ → (ℕ → Bool) → PortInfo → ℕ → ℕ → (ℕ → ℕ) → Outcome (Option (ℕ → ℕ))
pair_ports rte_max_ethports configure_tx_buffer ports zero i output_ports = out_of_fuel
pair_ports rte_max_ethports configure_tx_buffer ports (suc fuel) i output_ports =
    let p1 = ports.id i in
    let p2 = ports.id (i + 1) in
    let rest =
      pair_ports rte_max_ethports configure_tx_buffer ports fuel (i + 2)
        (put p2 p1 (put p1 p2 output_ports)) in
    if ltb (i + 1) ports.num_ports
    then (if ltb p1 rte_max_ethports && ltb p2 rte_max_ethports
        then (if configure_tx_buffer p1 && configure_tx_buffer p2 then rest else done none)
        else fault)
    else done (some output_ports)

-- `num_ports` is below 256.
unfoldable pub configure_output_ports :
    ℕ → (ℕ → Bool) → PortInfo → (ℕ → ℕ) → Outcome (Option (ℕ → ℕ))
configure_output_ports rte_max_ethports configure_tx_buffer ports output_ports =
    if ltb rte_max_ethports ports.num_ports
    then done none
    else pair_ports rte_max_ethports configure_tx_buffer ports 129 0 output_ports

-- `need_flush` is whether packets may be left unsent.
pub record Client {ℓ} (T : Type ℓ) : Type ℓ where
  pub client_id : ℕ
  pub output_ports : ℕ → ℕ
  pub tx_stats : TxStats
  pub need_flush : Bool
  pub driver : T

module _ {ℓ} {P T : Type ℓ} (d : Driver P T) where
  -- The packets left unsent are counted; that they are given back to the pool is the driver's.
  unfoldable pub flush_tx_error_callback : ℕ → ℕ → Client T → Client T
  flush_tx_error_callback port_id count c = record c {
    tx_stats = record (c.tx_stats) {
      tx_drop = put port_id ((c.tx_stats.tx_drop port_id + count) % u64_mod) c.tx_stats.tx_drop;
    };
  }

  abbrev count_sent : ℕ → ℕ → TxStats → TxStats
  count_sent port sent st = record st { tx = put port ((st.tx port + sent) % u64_mod) st.tx }

  unfoldable pub handle_packet : P → Client T → Client T
  handle_packet buf c =
      let out_port = c.output_ports (d.port buf) in
      let (sent, driver') = d.rte_eth_tx_buffer out_port c.client_id buf c.driver in
      record c {
        driver = driver';
        tx_stats = if sent == 0 then c.tx_stats else count_sent out_port sent c.tx_stats;
      }

  unfoldable pub handle_packets : List P → Client T → Client T
  handle_packets [] c = c
  handle_packets (p ∷ ps) c = handle_packets ps (handle_packet p c)

  -- The first `n` ports in use, one after the other.
  unfoldable pub flush_ports : PortInfo → ℕ → Client T → Client T
  flush_ports ports zero c = c
  flush_ports ports (suc n) c =
      let c' = flush_ports ports n c in
      let port = ports.id n in
      let (sent, driver') = d.rte_eth_tx_buffer_flush port c'.client_id c'.driver in
      record c' { driver = driver'; tx_stats = count_sent port sent c'.tx_stats }

  -- One pass of the loop of `main`.
  unfoldable pub client_pass : PortInfo → Client T → Client T
  client_pass ports c = go (d.rte_ring_dequeue_burst c.driver)
    where
      go : List P × T → Client T
      go ([], driver') =
          let c' = record c { driver = driver' } in
          if c.need_flush
          then record (flush_ports ports ports.num_ports c') { need_flush = false }
          else record c' { need_flush = true }
      go (p ∷ ps, driver') = record (handle_packets (p ∷ ps) (record c { driver = driver' })) {
        need_flush = true;
      }
