-- ===== src/Dpdk/Server/Drops.antt =====
-- What becomes of the packets of a burst in `flush_rx_queue` of src/dpdk/dpdk_server.c, compiled for the
-- `rte_ring_enqueue_bulk` of four arguments, which returns how many packets it put into the ring: all or
-- none.
use testbed.Prelude.{ℕ, ◌<◌, ◌≡◌, refl, ◌⊎◌, inl, inr, true, false, List, ◌++◌, length, ◌==◌, arith}
use testbed.Dpdk.Server.{Rings, Server, count_burst, send_burst, flush_rx_queue}

module _ {ℓ} {P R : Type ℓ} (ring : Rings P R) (held : ℕ → R → List P) where
  -- The documented answers of the ring of a client, `held` being the packets in it.
  unfoldable pub AllOrNone : Type ℓ
  AllOrNone =
      (client : ℕ) (buf : List P) (r : R)
      → (let (ret, r') = ring.rte_ring_enqueue_bulk client buf r in
          ((ret ≡ length buf) × (held client r' ≡ held client r ++ buf))
          ⊎ ((ret ≡ 0) × (held client r' ≡ held client r)))

  send_burst-inverted :
      (client : ℕ) (s : Server P R)
      → AllOrNone
      → 0 < length (s.cl_rx_buf client)
      → (let s' = send_burst ring client s in
          ((held client s'.rings ≡ held client s.rings ++ s.cl_rx_buf client)
            × (s'.freed ≡ s.freed ++ s.cl_rx_buf client)
            × ((s'.stats client).rx ≡ (s.stats client).rx))
          ⊎ ((held client s'.rings ≡ held client s.rings)
              × (s'.freed ≡ s.freed)
              × ((s'.stats client).rx_drop ≡ (s.stats client).rx_drop)))
  unfolding AllOrNone send_burst count_burst
  send_burst-inverted client s doc some =
      let yes : (client == client) ≡ true = ground arith in
      elim (doc client (s.cl_rx_buf client) s.rings) [
        | inl (ret, in_ring) ↦
            let other : ((ring.rte_ring_enqueue_bulk client (s.cl_rx_buf client) s.rings).0 == 0)
                ≡ false =
              ground (arith, ret, some) in
            inl (rw other in_ring, rw other refl, rw (other, yes) refl)
        | inr (ret, not_in_ring) ↦
            let this : ((ring.rte_ring_enqueue_bulk client (s.cl_rx_buf client) s.rings).0 == 0)
                ≡ true =
              ground (arith, ret) in
            inr (rw this not_in_ring, rw this refl, rw (this, yes) refl)
      ]

  -- The test of the answer is inverted. A burst that the ring takes is given back to the pool while the
  -- client's ring holds it, and not counted as received; one that the ring refuses is neither in the ring
  -- nor given back, and not counted as dropped. The buffer holds packets, and the ring answers as documented.
  pub flush_rx_queue-inverted :
      (client : ℕ) (s : Server P R)
      → AllOrNone
      → 0 < length (s.cl_rx_buf client)
      → (let s' = flush_rx_queue ring client s in
          ((held client s'.rings ≡ held client s.rings ++ s.cl_rx_buf client)
            × (s'.freed ≡ s.freed ++ s.cl_rx_buf client)
            × ((s'.stats client).rx ≡ (s.stats client).rx))
          ⊎ ((held client s'.rings ≡ held client s.rings)
              × (s'.freed ≡ s.freed)
              × ((s'.stats client).rx_drop ≡ (s.stats client).rx_drop)))
  unfolding flush_rx_queue
  flush_rx_queue-inverted client s doc some =
      let full : (length (s.cl_rx_buf client) == 0) ≡ false = ground (arith, some) in
      rw full (send_burst-inverted client s doc some)
