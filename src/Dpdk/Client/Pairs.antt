-- ===== src/Dpdk/Client/Pairs.antt =====
-- The pairing of ports by `configure_output_ports` of src/dpdk/dpdk_client.cpp.
use testbed.Prelude.{
  ℕ, zero, suc, ◌+◌, ◌-◌, ◌*◌, ◌%◌, ◌≤◌, ◌<◌, ◌≡◌, refl, sym, ap, ◌∙◌, Bool, true, false, some,
  if◌then◌else◌, ltb, ◌==◌, arith, Bool-cases, inl, inr,
}
use testbed.Dpdk.Ports.{done, put, PortInfo}
use testbed.Dpdk.Client.{pair_ports, configure_output_ports}

-- The place of the other port of a pair.
abbrev partner : ℕ → ℕ
partner j = if j % 2 == 0 then j + 1 else j - 1

-- No two places hold the same port, and every port is in the tables.
unfoldable pub IsTable : ℕ → PortInfo → Type 0
IsTable lim ports =
    ((i j : ℕ) → i < j → j < ports.num_ports → ¬ (ports.id i ≡ ports.id j))
    × ((j : ℕ) → j < ports.num_ports → ports.id j < lim)

module _ (lim : ℕ) (configure_tx_buffer : ℕ → Bool) (ports : PortInfo)
    (buffers : (p : ℕ) → configure_tx_buffer p ≡ true)
    (apart : (i j : ℕ) → i < j → j < ports.num_ports → ¬ (ports.id i ≡ ports.id j))
    (within : (j : ℕ) → j < ports.num_ports → ports.id j < lim) where
  pair_ports_end :
      (fuel i : ℕ) (out : ℕ → ℕ)
      → ports.num_ports ≤ i + 1
      → pair_ports lim configure_tx_buffer ports (suc fuel) i out ≡ done (some out)
  unfolding pair_ports
  pair_ports_end fuel i out le = ground (arith, le)

  pair_ports_next :
      (fuel i : ℕ) (out : ℕ → ℕ)
      → i + 1 < ports.num_ports
      → pair_ports lim configure_tx_buffer ports (suc fuel) i out
        ≡ pair_ports lim configure_tx_buffer ports fuel
            (i + 2)
            (put (ports.id (i + 1)) (ports.id i) (put (ports.id i) (ports.id (i + 1)) out))
  unfolding pair_ports
  pair_ports_next fuel i out lt = ground (
    arith,
    lt,
    within i (omega arith),
    within (i + 1) lt,
    buffers (ports.id i),
    buffers (ports.id (i + 1)),
  )

  put-paired :
      (i j : ℕ) (out : ℕ → ℕ)
      → i % 2 ≡ 0
      → i + 1 < ports.num_ports
      → j < i + 2
      → (j < i → out (ports.id j) ≡ ports.id (partner j))
      → put (ports.id (i + 1)) (ports.id i) (put (ports.id i) (ports.id (i + 1)) out) (ports.id j)
        ≡ ports.id (partner j)
  put-paired i j out even lt below before = elim (Bool-cases (ltb j i)) [
    | inl old ↦
        let lt_old : j < i = ground (arith, old) in
        let no1 : (ports.id j == ports.id (i + 1)) ≡ false =
          ground (arith, apart j (i + 1) (omega arith) lt) in
        let no2 : (ports.id j == ports.id i) ≡ false =
          ground (arith, apart j i lt_old (omega arith)) in
        rw (no1, no2) (before lt_old)
    | inr new ↦ elim (Bool-cases (j == i)) [
      | inl first ↦
          let same : j ≡ i = ground (arith, first) in
          let no : (ports.id i == ports.id (i + 1)) ≡ false =
            ground (arith, apart i (i + 1) (omega arith) lt) in
          let yes : (ports.id i == ports.id i) ≡ true = ground arith in
          let ev : (i % 2 == 0) ≡ true = ground (arith, even) in rw (same, no, yes, ev) refl
      | inr other ↦
          let same : j ≡ i + 1 = ground (arith, other, new, below) in
          let yes : (ports.id (i + 1) == ports.id (i + 1)) ≡ true = ground arith in
          let odd : ((i + 1) % 2 == 0) ≡ false = ground (arith, even) in
          let back : i + 1 - 1 ≡ i = omega arith in rw (same, yes, odd, back) refl
    ]
  ]

  pair_ports-partner :
      (fuel i : ℕ) (out : ℕ → ℕ)
      → i % 2 ≡ 0
      → ports.num_ports % 2 ≡ 0
      → i ≤ ports.num_ports
      → ports.num_ports < i + 2 * fuel
      → ((j : ℕ) → j < i → j < ports.num_ports → out (ports.id j) ≡ ports.id (partner j))
      → (out' : ℕ → ℕ) × (pair_ports lim configure_tx_buffer ports fuel i out ≡ done (some out'))
        × ((j : ℕ) → j < ports.num_ports → out' (ports.id j) ≡ ports.id (partner j))
  pair_ports-partner zero i out even evens le_all enough before = absurd (omega arith)
  pair_ports-partner (suc fuel) i out even evens le_all enough before =
      elim (Bool-cases (ltb (i + 1) ports.num_ports)) [
        | inl more ↦
            let lt : i + 1 < ports.num_ports = ground (arith, more) in
            let out1 =
              put (ports.id (i + 1)) (ports.id i) (put (ports.id i) (ports.id (i + 1)) out) in
            let (out', e, l) =
              pair_ports-partner fuel (i + 2) out1 (omega (arith, even)) evens (omega arith)
                (omega arith)
                (λ j below lt'. put-paired i j out even lt below (λ old. before j old lt')) in
            (out', pair_ports_next fuel i out lt ∙ e, l)
        | inr none_left ↦
            let le : ports.num_ports ≤ i + 1 = ground (arith, none_left) in
            (
              out,
              pair_ports_end fuel i out le,
              λ j lt. before j (omega (arith, even, evens, le, lt)) lt,
            )
      ]

-- With an even number of ports, all different and all in the tables, the start of a client pairs them up:
-- the output port of each is another, the other of its pair, whose output port is the first again. Every
-- port's buffer can be set up, and the table has at most 255 places.
pub configure_output_ports-involution :
    (lim : ℕ) (configure_tx_buffer : ℕ → Bool) (ports : PortInfo) (output_ports : ℕ → ℕ)
    → ((p : ℕ) → configure_tx_buffer p ≡ true)
    → IsTable lim ports
    → ports.num_ports % 2 ≡ 0
    → ports.num_ports ≤ lim
    → lim ≤ 255
    → (out : ℕ → ℕ) × (configure_output_ports lim configure_tx_buffer ports output_ports
        ≡ done (some out))
      × ((j : ℕ)
          → j < ports.num_ports
          → (out (out (ports.id j)) ≡ ports.id j) × ¬ (out (ports.id j) ≡ ports.id j))
unfolding configure_output_ports IsTable
configure_output_ports-involution lim buffer ports output_ports buffers (apart, within) evens le
      small =
    let fits : ltb lim ports.num_ports ≡ false = ground arith in
    let (out, e, l) =
      pair_ports-partner lim buffer ports buffers apart within 129 0 output_ports (omega arith)
        evens (omega arith) (omega arith) (λ j lt. absurd (omega arith)) in
    (
      out,
      rw fits e,
      λ j lt. elim (Bool-cases (j % 2 == 0)) [
        | inl even ↦
            let here : out (ports.id j) ≡ ports.id (j + 1) = l j lt ∙ rw even refl in
            let lt' : j + 1 < ports.num_ports = ground (arith, even, evens, lt) in
            let odd : ((j + 1) % 2 == 0) ≡ false = ground (arith, even) in
            let back : j + 1 - 1 ≡ j = omega arith in
            (
              ap out here ∙ l (j + 1) lt' ∙ rw (odd, back) refl,
              λ e'. apart j (j + 1) (omega arith) lt' (sym e' ∙ here),
            )
        | inr odd ↦
            let here : out (ports.id j) ≡ ports.id (j - 1) = l j lt ∙ rw odd refl in
            let lt' : j - 1 < j = ground (arith, odd) in
            let even : ((j - 1) % 2 == 0) ≡ true = ground (arith, odd) in
            let up : j - 1 + 1 ≡ j = omega arith in
            (
              ap out here ∙ l (j - 1) (omega arith) ∙ rw (even, up) refl,
              λ e'. apart (j - 1) j lt' lt (sym here ∙ e'),
            )
      ],
    )
