-- ===== src/Dpdk/Args/Masks.antt =====
-- The ports that `parse_portmask` of src/dpdk/args.c takes from a mask.
use native.Mathlib.Nat.{div-div-eq-div-mul, pow-suc, pow-zero, zero-div, div-lt_iff_lt-mul, div-one}
use testbed.Prelude.{
  ℕ, zero, suc, ◌+◌, ◌/◌, ◌%◌, ◌^◌, ◌≤◌, ◌<◌, ◌≡◌, refl, sym, ap, ◌∙◌, Bool, true, false, ◌&&◌, not,
  Option, some, List, [], ◌∷◌, ◌++◌, append_assoc, append-nil, Bytes, length, if◌then◌else◌, leb,
  ◌==◌, arith, Bool-cases, inl, inr,
}
use testbed.Dpdk.Ports.{
  Outcome, done, fault, after, after-same, put, PortInfo, entries, entries-put,
}
use testbed.Dpdk.Args.{
  Args, accepted, read_number, parse_portmask, store_mask, add_port, mark_port, mark_ports,
}

-- The ports from `c` on, `w` of them looked at, below `max_ports`, whose bit is set in the mask.
unfoldable pub requested : ℕ → ℕ → ℕ → ℕ → List ℕ
requested max_ports pm zero c = []
requested max_ports pm (suc w) c =
    let rest = requested max_ports pm w (suc c) in
    if (pm / 2 ^ c % 2 == 1) && not (leb max_ports c) then c ∷ rest else rest

unfoldable pub add_ports : ℕ → List ℕ → PortInfo → Outcome PortInfo
add_ports rte_max_ethports [] ports = done ports
add_ports rte_max_ethports (x ∷ xs) ports =
    after (add_port rte_max_ethports x ports) (add_ports rte_max_ethports xs)

half : (pm c : ℕ) → pm / 2 ^ suc c ≡ pm / 2 ^ c / 2
half pm c = ap (λ (k : ℕ). pm / k) (pow-suc 2 c) ∙ sym (div-div-eq-div-mul pm (2 ^ c) 2)

module _ (lim max_ports : ℕ) where
  add_ports-none : (xs : List ℕ) (ports : PortInfo) → xs ≡ [] → add_ports lim xs ports ≡ done ports
  unfolding add_ports
  add_ports-none xs ports e = rw e refl

  mark_ports_zero :
      (fuel c cur : ℕ) (ports : PortInfo)
      → cur ≡ 0
      → mark_ports lim max_ports (suc fuel) cur c ports ≡ done ports
  unfolding mark_ports
  mark_ports_zero fuel c cur ports z = ground (arith, z)

  mark_ports_next :
      (fuel c cur : ℕ) (ports : PortInfo)
      → ¬ (cur ≡ 0)
      → mark_ports lim max_ports (suc fuel) cur c ports
        ≡ after
            (mark_port lim max_ports cur c ports)
            (mark_ports lim max_ports fuel (cur / 2) ((c + 1) % 256))
  unfolding mark_ports
  mark_ports_next fuel c cur ports nz = ground (arith, nz)

  requested_zero : (pm w c : ℕ) → pm / 2 ^ c ≡ 0 → requested max_ports pm w c ≡ []
  unfolding requested
  requested_zero pm zero c z = refl
  requested_zero pm (suc w) c z =
      let next = requested_zero pm w (suc c) (half pm c ∙ ap (λ (k : ℕ). k / 2) z ∙ zero-div 2) in
      rw (z, next) refl

  -- One bit of the mask, in the loop and in the list of ports.
  mark_port-requested :
      (pm w c : ℕ) (ports : PortInfo)
      → after
          (mark_port lim max_ports (pm / 2 ^ c) c ports)
          (add_ports lim (requested max_ports pm w (suc c)))
        ≡ add_ports lim (requested max_ports pm (suc w) c) ports
  unfolding mark_port requested add_ports
  mark_port-requested pm w c ports = go (pm / 2 ^ c % 2 == 1) refl (leb max_ports c) refl
    where
      go :
          (b : Bool)
          → (pm / 2 ^ c % 2 == 1) ≡ b
          → (d : Bool) → leb max_ports c ≡ d
          → after
              (mark_port lim max_ports (pm / 2 ^ c) c ports)
              (add_ports lim (requested max_ports pm w (suc c)))
            ≡ add_ports lim (requested max_ports pm (suc w) c) ports
      go true e true e' = rw (e, e') refl
      go true e false e' = rw (e, e') refl
      go false e d e' = rw e refl

  mark_ports-add :
      (pm w fuel c : ℕ) (ports : PortInfo)
      → pm / 2 ^ c < 2 ^ w
      → w < fuel
      → c + w ≤ 64
      → mark_ports lim max_ports fuel (pm / 2 ^ c) c ports
        ≡ add_ports lim (requested max_ports pm w c) ports
  mark_ports-add pm w zero c ports small enough fits = absurd (omega arith)
  mark_ports-add pm zero (suc fuel) c ports small enough fits =
      let zero_left : pm / 2 ^ c ≡ 0 = omega (arith, small, pow-zero 2) in
      mark_ports_zero fuel c (pm / 2 ^ c) ports zero_left
      ∙ sym (add_ports-none (requested max_ports pm 0 c) ports (requested_zero pm 0 c zero_left))
  mark_ports-add pm (suc w) (suc fuel) c ports small enough fits =
      elim (Bool-cases (pm / 2 ^ c == 0)) [
        | inl z ↦
            let zero_left : pm / 2 ^ c ≡ 0 = ground (arith, z) in
            mark_ports_zero fuel c (pm / 2 ^ c) ports zero_left
            ∙ sym (
                add_ports-none (requested max_ports pm (suc w) c) ports
                  (requested_zero pm (suc w) c zero_left))
        | inr nz ↦
            let next : (c + 1) % 256 ≡ suc c = omega arith in
            let smaller : pm / 2 ^ suc c < 2 ^ w =
              rw (half pm c) ((div-lt_iff_lt-mul (omega arith)).1 (rw (sym (pow-suc 2 w)) small)) in
            mark_ports_next fuel c (pm / 2 ^ c) ports (ground (arith, nz))
            ∙ after-same (mark_port lim max_ports (pm / 2 ^ c) c ports)
                (mark_ports lim max_ports fuel (pm / 2 ^ c / 2) ((c + 1) % 256))
                (add_ports lim (requested max_ports pm w (suc c)))
                (λ ports'.
                  rw (sym (half pm c), next)
                    (mark_ports-add pm w fuel (suc c) ports' smaller (omega arith) (omega arith)))
            ∙ mark_port-requested pm w c ports
      ]

module _ (lim : ℕ) (small : lim ≤ 255) where
  add_port-room :
      (x : ℕ) (ports : PortInfo)
      → ports.num_ports < lim
      → (ports' : PortInfo) × (add_port lim x ports ≡ done ports')
        × (ports'.num_ports ≡ ports.num_ports + 1)
        × (entries ports'.num_ports ports'.id ≡ entries ports.num_ports ports.id ++ (x ∷ []))
  unfolding add_port
  add_port-room x ports room =
      let count : (ports.num_ports + 1) % 256 ≡ suc ports.num_ports = omega arith in
      let grown = record ports {
        id = put ports.num_ports x ports.id;
        num_ports = (ports.num_ports + 1) % 256;
      } in
      (grown, ground arith, omega arith, rw count (entries-put ports.num_ports x ports.id))

  add_port-full : (x : ℕ) (ports : PortInfo) → lim ≤ ports.num_ports → add_port lim x ports ≡ fault
  unfolding add_port
  add_port-full x ports full = ground arith

  add_ports-room :
      (xs : List ℕ) (ports : PortInfo)
      → ports.num_ports + length xs ≤ lim
      → (ports' : PortInfo) × (add_ports lim xs ports ≡ done ports')
        × (entries ports'.num_ports ports'.id ≡ entries ports.num_ports ports.id ++ xs)
  unfolding add_ports
  add_ports-room [] ports room = (ports, refl, sym (append-nil _))
  add_ports-room (x ∷ xs) ports room =
      let (p, e, n, l) = add_port-room x ports (omega arith) in
      let (p', e', l') = add_ports-room xs p (omega (arith, n)) in
      (
        p',
        ap (λ (o : Outcome PortInfo). after o (add_ports lim xs)) e ∙ e',
        l'
            ∙ ap (λ (q : List ℕ). q ++ xs) l
            ∙ append_assoc (entries ports.num_ports ports.id) (x ∷ []) xs,
      )

  add_ports-full :
      (xs : List ℕ) (ports : PortInfo)
      → ports.num_ports ≤ lim
      → lim < ports.num_ports + length xs
      → add_ports lim xs ports ≡ fault
  unfolding add_ports
  add_ports-full [] ports fits over = absurd (omega arith)
  add_ports-full (x ∷ xs) ports fits over = elim (Bool-cases (leb lim ports.num_ports)) [
    | inl full ↦ rw (add_port-full x ports (ground (arith, full))) refl
    | inr room ↦
        let (p, e, n, l) = add_port-room x ports (ground (arith, room)) in
        rw e (add_ports-full xs p (ground (arith, n, room)) (omega (arith, n)))
  ]

  module _ (strtoul : Bytes → ℕ → ℕ × Bytes) (max_ports pm b : ℕ) (bs : Bytes)
      (reads : strtoul (b ∷ bs) 16 ≡ (pm, [])) (set : 0 < pm) (narrow : pm < 2 ^ 64) where
    read_number-whole : read_number strtoul 16 (some (b ∷ bs)) ≡ some pm
    unfolding read_number
    read_number-whole = ground (arith, reads, set)

    parse_portmask-add :
        (a : Args)
        → parse_portmask lim strtoul max_ports (some (b ∷ bs)) a
          ≡ after
              (add_ports lim (requested max_ports pm 64 0) a.ports)
              (λ ports. done (accepted (record a { ports = ports })))
    unfolding parse_portmask store_mask
    parse_portmask-add a =
        let whole : pm / 2 ^ 0 ≡ pm = ap (λ (k : ℕ). pm / k) (pow-zero 2) ∙ div-one pm in
        let loop : mark_ports lim max_ports 65 pm 0 a.ports
            ≡ add_ports lim (requested max_ports pm 64 0) a.ports =
          ap (λ (k : ℕ). mark_ports lim max_ports 65 k 0 a.ports) (sym whole)
          ∙ mark_ports-add lim max_ports pm 64 65 0 a.ports (rw whole narrow) (omega arith)
              (omega arith) in
        ap (λ (r : Option ℕ). store_mask lim max_ports r a) read_number-whole
        ∙ ap
            (λ (o : Outcome PortInfo).
              after o (λ ports. done (accepted (record a { ports = ports }))))
            loop

    -- A mask whose ports have room in the table is accepted, and the table then lists, after what it listed,
    -- the ports below `max_ports` whose bit is set, in rising order. The mask is not empty and not 0, has 64
    -- bits, and is read to its end; the table has at most 255 places.
    pub parse_portmask-requested :
        (a : Args)
        → a.ports.num_ports + length (requested max_ports pm 64 0) ≤ lim
        → (a' : Args) × (parse_portmask lim strtoul max_ports (some (b ∷ bs)) a
            ≡ done (accepted a'))
          × (a'.num_clients ≡ a.num_clients)
          × (entries a'.ports.num_ports a'.ports.id
              ≡ entries a.ports.num_ports a.ports.id ++ requested max_ports pm 64 0)
    parse_portmask-requested a room =
        let (ports, e, l) = add_ports-room (requested max_ports pm 64 0) a.ports room in
        (record a { ports = ports }, parse_portmask-add a ∙ rw e refl, refl, l)

    -- A mask that asks for more ports than the table has room for makes the loop write past its end. The
    -- mask is not empty and not 0, has 64 bits, and is read to its end; the table has at most 255 places.
    pub parse_portmask-fault :
        (a : Args)
        → a.ports.num_ports ≤ lim
        → lim < a.ports.num_ports + length (requested max_ports pm 64 0)
        → parse_portmask lim strtoul max_ports (some (b ∷ bs)) a ≡ fault
    parse_portmask-fault a fits over =
        parse_portmask-add a
        ∙ rw (add_ports-full (requested max_ports pm 64 0) a.ports fits over) refl
