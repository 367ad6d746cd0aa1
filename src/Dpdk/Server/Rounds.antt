-- ===== src/Dpdk/Server/Rounds.antt =====
-- How src/dpdk/dpdk_server.c deals the packets of a burst out to the clients.
use native.Mathlib.Nat.{mod-lt, mod-eq_of_lt, mod_self, mod-add-mod, zero-mod}
use testbed.Prelude.{
  ℕ, suc, ◌+◌, ◌%◌, ◌≤◌, ◌<◌, ◌≡◌, refl, sym, ap, subst, ◌∙◌, List, [], ◌∷◌, ◌++◌, append-nil,
  append_assoc, length, length-append, if◌then◌else◌, ◌==◌, arith, Bool-cases, inl, inr,
}
use testbed.Dpdk.Ports.{Outcome, done, after, put}
use testbed.Dpdk.Server.{
  u64_mod, packet_read_size, Rings, ClientStats, Server, enqueue_rx_packet, next_client,
  enqueue_packets, flush_clients, process_packets,
}
use testbed.Dpdk.Server.Flushes.{seen, flush_clients-own}

-- The packets of client `c` when the packets of a burst, of which the first has number `i`, are dealt out
-- one by one.
unfoldable pub dealt {ℓ} : {P : Type ℓ} → ℕ → ℕ → ℕ → List P → List P
dealt num_clients c i [] = []
dealt num_clients c i (p ∷ ps) =
    let rest = dealt num_clients c (suc i) ps in if i % num_clients == c then p ∷ rest else rest

pub next_client-mod : (n i : ℕ) → 0 < n → n < 256 → next_client n (i % n) ≡ suc i % n
unfolding next_client
next_client-mod n i some few =
    let lt : i % n < n = mod-lt i some in
    let next : (i % n + 1) % n ≡ suc i % n =
      mod-add-mod i n 1 ∙ ap (λ (k : ℕ). k % n) (omega arith) in
    elim (Bool-cases (i % n + 1 == n)) [
      | inl last ↦
          let at_end : i % n + 1 ≡ n = ground (arith, last) in
          let start : suc i % n ≡ 0 = sym next ∙ ap (λ (k : ℕ). k % n) at_end ∙ mod_self n in
          ground (arith, start, at_end)
      | inr more ↦
          let below : i % n + 1 < n = ground (arith, more) in
          let here : suc i % n ≡ i % n + 1 = sym next ∙ mod-eq_of_lt below in
          ground (arith, here, below)
    ]

module _ {ℓ} {P : Type ℓ} where
  length-dealt : (n c i : ℕ) (ps : List P) → length (dealt n c i ps) ≤ length ps
  unfolding dealt
  length-dealt n c i [] = omega arith
  length-dealt n c i (p ∷ ps) = ground (arith, length-dealt n c (suc i) ps)

  put-dealt :
      (n c i : ℕ) (p : P) (ps : List P) (buf : ℕ → List P)
      → put (i % n) (buf (i % n) ++ (p ∷ [])) buf c ++ dealt n c (suc i) ps
        ≡ buf c ++ dealt n c i (p ∷ ps)
  unfolding dealt
  put-dealt n c i p ps buf = elim (Bool-cases (i % n == c)) [
    | inl mine ↦
        let same : i % n ≡ c = ground (arith, mine) in
        let here : put (i % n) (buf (i % n) ++ (p ∷ [])) buf c ≡ buf c ++ (p ∷ []) =
          ground (arith, same) in
        rw (here, mine) (append_assoc (buf c) (p ∷ []) (dealt n c (suc i) ps))
    | inr other ↦
        let there : put (i % n) (buf (i % n) ++ (p ∷ [])) buf c ≡ buf c = ground (arith, other) in
        rw (there, other) refl
  ]

module _ {ℓ} {P R : Type ℓ} where
  enqueue_rx_packet-room :
      (n client : ℕ) (p : P) (s : Server P R)
      → client < n
      → length (s.cl_rx_buf client) < packet_read_size
      → enqueue_rx_packet n client p s
        ≡ done (record s { cl_rx_buf = put client (s.cl_rx_buf client ++ (p ∷ [])) s.cl_rx_buf })
  unfolding enqueue_rx_packet
  enqueue_rx_packet-room n client p s lt room = ground (arith, lt, room)

  enqueue_packets-dealt :
      (n i : ℕ) (ps : List P) (s : Server P R)
      → 0 < n
      → n < 256
      → ((c : ℕ) → length (s.cl_rx_buf c) + length ps ≤ packet_read_size)
      → (s' : Server P R) × (enqueue_packets n (i % n) ps s ≡ done s')
        × ((c : ℕ) → s'.cl_rx_buf c ≡ s.cl_rx_buf c ++ dealt n c i ps)
        × (s'.stats ≡ s.stats)
  unfolding enqueue_packets dealt
  enqueue_packets-dealt n i [] s some few room =
      (s, refl, λ c. sym (append-nil (s.cl_rx_buf c)), refl)
  enqueue_packets-dealt n i (p ∷ ps) s some few room =
      let client = i % n in
      let s1 = record s { cl_rx_buf = put client (s.cl_rx_buf client ++ (p ∷ [])) s.cl_rx_buf } in
      let first : enqueue_rx_packet n client p s ≡ done s1 =
        enqueue_rx_packet-room n client p s (mod-lt i some) (omega (arith, room client)) in
      let (s', e, l, st) = enqueue_packets-dealt n (suc i) ps s1 some few (λ c. room_after c) in
      (
        s',
        ap (λ (o : Outcome (Server P R)). after o (enqueue_packets n (next_client n client) ps))
              first
            ∙ ap (λ (k : ℕ). enqueue_packets n k ps s1) (next_client-mod n i some few)
            ∙ e,
        λ c. l c ∙ put-dealt n c i p ps s.cl_rx_buf,
        st,
      )
    where
      room_after :
          (c : ℕ)
          → length (put (i % n) (s.cl_rx_buf (i % n) ++ (p ∷ [])) s.cl_rx_buf c) + length ps
            ≤ packet_read_size
      room_after c = elim (Bool-cases (c == i % n)) [
        | inl mine ↦
            rw mine (omega (arith, length-append (s.cl_rx_buf (i % n)) (p ∷ []), room (i % n)))
        | inr other ↦ rw other (omega (arith, room c))
      ]

  -- A burst is dealt out to the clients in turn: afterwards every client's buffer is empty again, and the
  -- packets counted for the client, as received or as dropped, have grown by those whose place in the burst
  -- leaves the client's number when divided by the number of clients. There are 1 to 255 clients, at most 32
  -- packets, the buffers were empty, and no counter overflows.
  pub process_packets-dealt :
      (ring : Rings P R) (num_clients : ℕ) (pkts : List P) (s : Server P R)
      → 0 < num_clients
      → num_clients < 256
      → length pkts ≤ packet_read_size
      → ((c : ℕ) → s.cl_rx_buf c ≡ [])
      → ((c : ℕ) → seen (s.stats c) + packet_read_size < u64_mod)
      → (s' : Server P R) × (process_packets ring num_clients pkts s ≡ done s')
        × ((c : ℕ)
            → c < num_clients
            → (s'.cl_rx_buf c ≡ [])
              × (seen (s'.stats c) ≡ seen (s.stats c) + length (dealt num_clients c 0 pkts)))
  unfolding process_packets
  process_packets-dealt ring n pkts s some few short idle fits =
      let room : (c : ℕ) → length (s.cl_rx_buf c) + length pkts ≤ packet_read_size =
        λ c. rw (idle c) (omega (arith, short)) in
      let (s1, e, l, st) = enqueue_packets-dealt n 0 pkts s some few room in
      let from_zero : enqueue_packets n 0 pkts s ≡ done s1 =
        subst (λ (k : ℕ). enqueue_packets n k pkts s ≡ done s1) (zero-mod n) e in
      let filled : (c : ℕ) → s1.cl_rx_buf c ≡ dealt n c 0 pkts =
        λ c. l c ∙ ap (λ (b : List P). b ++ dealt n c 0 pkts) (idle c) in
      let same : (c : ℕ) → s1.stats c ≡ s.stats c = λ c. ap (λ (f : ℕ → ClientStats). f c) st in
      (
        flush_clients ring n s1,
        ap (λ (o : Outcome (Server P R)). after o (λ s'. done (flush_clients ring n s'))) from_zero,
        λ c lt.
            let (b, t) =
              flush_clients-own ring n c s1 lt
                (rw (filled c, same c) (omega (arith, fits c, length-dealt n c 0 pkts, short))) in
            (b, rw (sym (filled c), sym (same c)) t),
      )
