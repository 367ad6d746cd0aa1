-- ===== src/Dpdk/Server/Flushes.antt =====
-- What flush_rx_queue of src/dpdk/dpdk_server.c counts and leaves.
use testbed.Prelude.{
  ℕ, zero, suc, ◌+◌, ◌≤◌, ◌<◌, ◌≡◌, refl, sym, ap, ◌∙◌, true, false, List, [], ◌∷◌, length, ◌==◌,
  arith, Bool-cases, inl, inr,
}
use testbed.Dpdk.Server.{
  u64_mod, Rings, ClientStats, Server, count_burst, send_burst, flush_rx_queue, flush_clients,
}

-- The packets that a client is counted to have been sent or to have lost.
unfoldable pub seen : ClientStats → ℕ
seen st = st.rx + st.rx_drop

module _ {ℓ} {P R : Type ℓ} where
  count_burst-cl_rx_buf :
      (client ret : ℕ) (s : Server P R) → (count_burst client ret s).cl_rx_buf ≡ s.cl_rx_buf
  unfolding count_burst
  count_burst-cl_rx_buf client ret s = elim (Bool-cases (ret == 0)) [
    | inl sent ↦ rw sent refl
    | inr lost ↦ rw lost refl
  ]

  count_burst-other :
      (client ret c : ℕ) (s : Server P R)
      → ¬ (c ≡ client)
      → (count_burst client ret s).stats c ≡ s.stats c
  unfolding count_burst
  count_burst-other client ret c s other =
      let no : (c == client) ≡ false = ground (arith, other) in
      elim (Bool-cases (ret == 0)) [ inl sent ↦ rw (sent, no) refl | inr lost ↦ rw (lost, no) refl ]

  count_burst-seen :
      (client ret : ℕ) (s : Server P R)
      → seen (s.stats client) + length (s.cl_rx_buf client) < u64_mod
      → seen ((count_burst client ret s).stats client)
        ≡ seen (s.stats client) + length (s.cl_rx_buf client)
  unfolding count_burst seen
  count_burst-seen client ret s fits =
      let yes : (client == client) ≡ true = ground arith in
      elim (Bool-cases (ret == 0)) [
        | inl sent ↦ rw (sent, yes) (omega (arith, fits))
        | inr lost ↦ rw (lost, yes) (omega (arith, fits))
      ]

  send_burst-other :
      (ring : Rings P R) (client c : ℕ) (s : Server P R)
      → ¬ (c ≡ client)
      → ((send_burst ring client s).cl_rx_buf c ≡ s.cl_rx_buf c)
        × ((send_burst ring client s).stats c ≡ s.stats c)
  unfolding send_burst
  send_burst-other ring client c s other =
      let (ret, rings') = ring.rte_ring_enqueue_bulk client (s.cl_rx_buf client) s.rings in
      let no : (c == client) ≡ false = ground (arith, other) in
      (
        rw no (
            ap (λ (f : ℕ → List P). f c)
              (count_burst-cl_rx_buf client ret (record s { rings = rings' }))),
        count_burst-other client ret c (record s { rings = rings' }) other,
      )

  send_burst-own :
      (ring : Rings P R) (client : ℕ) (s : Server P R)
      → seen (s.stats client) + length (s.cl_rx_buf client) < u64_mod
      → ((send_burst ring client s).cl_rx_buf client ≡ [])
        × (seen ((send_burst ring client s).stats client)
            ≡ seen (s.stats client) + length (s.cl_rx_buf client))
  unfolding send_burst
  send_burst-own ring client s fits =
      let (ret, rings') = ring.rte_ring_enqueue_bulk client (s.cl_rx_buf client) s.rings in
      let yes : (client == client) ≡ true = ground arith in
      (rw yes refl, count_burst-seen client ret (record s { rings = rings' }) fits)

  flush_rx_queue-other :
      (ring : Rings P R) (client c : ℕ) (s : Server P R)
      → ¬ (c ≡ client)
      → ((flush_rx_queue ring client s).cl_rx_buf c ≡ s.cl_rx_buf c)
        × ((flush_rx_queue ring client s).stats c ≡ s.stats c)
  unfolding flush_rx_queue
  flush_rx_queue-other ring client c s other =
      elim (Bool-cases (length (s.cl_rx_buf client) == 0)) [
        | inl none_there ↦ rw none_there (refl, refl)
        | inr some_there ↦ rw some_there (send_burst-other ring client c s other)
      ]

  flush_rx_queue-own :
      (ring : Rings P R) (client : ℕ) (s : Server P R)
      → seen (s.stats client) + length (s.cl_rx_buf client) < u64_mod
      → ((flush_rx_queue ring client s).cl_rx_buf client ≡ [])
        × (seen ((flush_rx_queue ring client s).stats client)
            ≡ seen (s.stats client) + length (s.cl_rx_buf client))
  unfolding flush_rx_queue
  flush_rx_queue-own ring client s fits = elim (Bool-cases (length (s.cl_rx_buf client) == 0)) [
    | inl none_there ↦
        let z : length (s.cl_rx_buf client) ≡ 0 = ground (arith, none_there) in
        rw none_there (empty (s.cl_rx_buf client) z, omega (arith, z))
    | inr some_there ↦ rw some_there (send_burst-own ring client s fits)
  ]
    where
      empty : (xs : List P) → length xs ≡ 0 → xs ≡ []
      empty [] z = refl
      empty (x ∷ xs) z = absurd (omega arith)

  flush_clients-other :
      (ring : Rings P R) (n c : ℕ) (s : Server P R)
      → n ≤ c
      → ((flush_clients ring n s).cl_rx_buf c ≡ s.cl_rx_buf c)
        × ((flush_clients ring n s).stats c ≡ s.stats c)
  unfolding flush_clients
  flush_clients-other ring zero c s le = (refl, refl)
  flush_clients-other ring (suc n) c s le =
      let (b, t) = flush_clients-other ring n c s (omega arith) in
      let (b', t') =
        flush_rx_queue-other ring n c (flush_clients ring n s) (λ e. omega (arith, e)) in
      (b' ∙ b, t' ∙ t)

  flush_clients-last :
      (ring : Rings P R) (n : ℕ) (s : Server P R)
      → seen (s.stats n) + length (s.cl_rx_buf n) < u64_mod
      → ((flush_rx_queue ring n (flush_clients ring n s)).cl_rx_buf n ≡ [])
        × (seen ((flush_rx_queue ring n (flush_clients ring n s)).stats n)
            ≡ seen (s.stats n) + length (s.cl_rx_buf n))
  flush_clients-last ring n s fits =
      let (b, t) = flush_clients-other ring n n s (omega arith) in
      let total : seen ((flush_clients ring n s).stats n)
            + length ((flush_clients ring n s).cl_rx_buf n)
          ≡ seen (s.stats n) + length (s.cl_rx_buf n) =
        rw (b, t) refl in
      let (b', t') = flush_rx_queue-own ring n (flush_clients ring n s) (rw total fits) in
      (b', t' ∙ total)

  pub flush_clients-own :
      (ring : Rings P R) (n c : ℕ) (s : Server P R)
      → c < n
      → seen (s.stats c) + length (s.cl_rx_buf c) < u64_mod
      → ((flush_clients ring n s).cl_rx_buf c ≡ [])
        × (seen ((flush_clients ring n s).stats c) ≡ seen (s.stats c) + length (s.cl_rx_buf c))
  unfolding flush_clients
  flush_clients-own ring zero c s lt fits = absurd (omega arith)
  flush_clients-own ring (suc n) c s lt fits = elim (Bool-cases (c == n)) [
    | inl last ↦
        let same : c ≡ n = ground (arith, last) in
        rw same (flush_clients-last ring n s (rw (sym same) fits))
    | inr before ↦
        let (b, t) = flush_clients-own ring n c s (ground (arith, before)) fits in
        let (b', t') =
          flush_rx_queue-other ring n c (flush_clients ring n s) (ground (arith, before)) in
        (b' ∙ b, ap seen t' ∙ t)
  ]
