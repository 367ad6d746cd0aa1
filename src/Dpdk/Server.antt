-- ===== src/Dpdk/Server.antt =====
-- The server's forwarding of packets, src/dpdk/dpdk_server.c. The packets of a burst and the clients' rings
-- are the driver's: `Rings` is a parameter, and so is the type of packets.
pub mod Flushes
pub mod Rounds
pub mod Drops
use testbed.Prelude.{
  ℕ, zero, suc, ◌+◌, ◌%◌, Bool, true, false, not, List, [], ◌∷◌, ◌++◌, length, if◌then◌else◌, ltb,
  leb, ◌==◌,
}
use testbed.Dpdk.Ports.{Outcome, done, fault, after, put, PortInfo, RxStats}

abbrev pub u64_mod : ℕ
u64_mod = 18446744073709551616

abbrev pub packet_read_size : ℕ
packet_read_size = 32

-- `rte_ring_enqueue_bulk` on the ring of a client: what it returns, and the rings after it.
pub record Rings {ℓ} (P R : Type ℓ) : Type ℓ where
  pub rte_ring_enqueue_bulk : ℕ → List P → R → ℕ × R

-- What a client is counted to receive and to lose.
pub record ClientStats : Type 0 where
  pub rx : ℕ
  pub rx_drop : ℕ

-- A client's buffer is the list of its `count` packets. `freed` holds the packets given back to the pool.
pub record Server {ℓ} (P R : Type ℓ) : Type ℓ where
  pub stats : ℕ → ClientStats
  pub cl_rx_buf : ℕ → List P
  pub rings : R
  pub freed : List P

-- `if (++client == num_clients) client = 0;`, in 8 bits.
unfoldable pub next_client : ℕ → ℕ → ℕ
next_client num_clients client = if (client + 1) % 256 == num_clients then 0 else (client + 1) % 256

pub record Forwarding {ℓ} (P R : Type ℓ) : Type ℓ where
  pub server : Server P R
  pub ports : PortInfo
  pub port_num : ℕ

module _ {ℓ} {P R : Type ℓ} where
  unfoldable pub clear_stats : ℕ → Server P R → Server P R
  clear_stats zero s = s
  clear_stats (suc n) s =
      let s' = clear_stats n s in
      record s' { stats = put n (record { rx = 0; rx_drop = 0 }) s'.stats }

  -- The branch on what the ring returned.
  unfoldable pub count_burst : ℕ → ℕ → Server P R → Server P R
  count_burst client ret s =
      let buf = s.cl_rx_buf client in
      let st = s.stats client in
      if not (ret == 0)
      then record s {
        freed = s.freed ++ buf;
        stats = put client (record st { rx_drop = (st.rx_drop + length buf) % u64_mod }) s.stats;
      }
      else record s {
        stats = put client (record st { rx = (st.rx + length buf) % u64_mod }) s.stats;
      }

  -- The burst of a buffer that is not empty.
  unfoldable pub send_burst : Rings P R → ℕ → Server P R → Server P R
  send_burst ring client s =
      let (ret, rings') = ring.rte_ring_enqueue_bulk client (s.cl_rx_buf client) s.rings in
      let s' = count_burst client ret (record s { rings = rings' }) in
      record s' { cl_rx_buf = put client [] s'.cl_rx_buf }

  unfoldable pub flush_rx_queue : Rings P R → ℕ → Server P R → Server P R
  flush_rx_queue ring client s =
      if length (s.cl_rx_buf client) == 0 then s else send_burst ring client s

  -- There are `num_clients` buffers of 32 places.
  unfoldable pub enqueue_rx_packet : ℕ → ℕ → P → Server P R → Outcome (Server P R)
  enqueue_rx_packet num_clients client buf s =
      if leb num_clients client
      then fault
      else if leb packet_read_size (length (s.cl_rx_buf client))
      then fault
      else done (record s { cl_rx_buf = put client (s.cl_rx_buf client ++ (buf ∷ [])) s.cl_rx_buf })

  unfoldable pub enqueue_packets : ℕ → ℕ → List P → Server P R → Outcome (Server P R)
  enqueue_packets num_clients client [] s = done s
  enqueue_packets num_clients client (p ∷ ps) s =
      after (enqueue_rx_packet num_clients client p s)
        (enqueue_packets num_clients (next_client num_clients client) ps)

  unfoldable pub flush_clients : Rings P R → ℕ → Server P R → Server P R
  flush_clients ring zero s = s
  flush_clients ring (suc n) s = flush_rx_queue ring n (flush_clients ring n s)

  unfoldable pub process_packets : Rings P R → ℕ → List P → Server P R → Outcome (Server P R)
  process_packets ring num_clients pkts s =
      after (enqueue_packets num_clients 0 pkts s) (λ s'. done (flush_clients ring num_clients s'))

  -- One pass of `do_packet_forwarding`, with the packets that `rte_eth_rx_burst` yields for the port.
  unfoldable pub forward_burst : Rings P R → ℕ → List P → Forwarding P R → Outcome (Forwarding P R)
  forward_burst ring num_clients buf f =
      let rx_count = length buf in
      let counted = f.ports.rx_stats.rx f.port_num + rx_count in
      let rx' = put f.port_num (counted % u64_mod) f.ports.rx_stats.rx in
      let ports' = record (f.ports) { rx_stats = record { rx = rx' } } in
      let port_num' = if f.port_num + 1 == f.ports.num_ports then 0 else f.port_num + 1 in
      after
        (if ltb 0 rx_count then process_packets ring num_clients buf f.server else done f.server)
        (λ s. done (record { server = s; ports = ports'; port_num = port_num' }))
