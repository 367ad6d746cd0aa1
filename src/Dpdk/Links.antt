-- ===== src/Dpdk/Links.antt =====
-- The server's wait for the links of its ports, `check_all_ports_link_status` of src/dpdk/init.c. The state
-- of the links is a parameter: `link_status t port` after `t` delays of 100 ms.
use testbed.Prelude.{
  ℕ, zero, suc, ◌+◌, ◌-◌, ◌/◌, ◌%◌, ◌^◌, ◌≤◌, ◌<◌, ◌≡◌, refl, ap, ◌∙◌, Bool, true, false, ◌||◌, not,
  Option, some, none, if◌then◌else◌, ltb, ◌==◌, arith, Bool-cases, inl, inr,
}
use testbed.Dpdk.Ports.{PortInfo}

abbrev max_check_time : ℕ
max_check_time = 90

-- Whether the loop over the ports leaves `all_ports_up` set: the first `n` ports, those in the mask.
unfoldable pub all_ports_up : (ℕ → Bool) → PortInfo → ℕ → ℕ → Bool
all_ports_up link ports port_mask zero = true
all_ports_up link ports port_mask (suc n) =
    if not (all_ports_up link ports port_mask n)
    then false
    else if port_mask / 2 ^ ports.id n % 2 == 0
    then true
    else link (ports.id n)

-- The loop on `count`; the result is the number of delays, and whether the loop ended by the `break` that
-- follows the printing of every link's state. With the flag set, a link that is down is printed and leaves
-- `all_ports_up` set. `none` where the fuel is out.
unfoldable pub check_links :
    (ℕ → ℕ → Bool) → PortInfo → ℕ → ℕ → ℕ → ℕ → Bool → ℕ → Option (ℕ × Bool)
check_links link_status ports port_num port_mask zero count print_flag delays = none
check_links link_status ports port_num port_mask (suc fuel) count print_flag delays =
    let up = all_ports_up (link_status delays) ports port_mask port_num in
    let delays' = if up then delays else delays + 1 in
    let print' = up || (count == max_check_time - 1) in
    let rest = check_links link_status ports port_num port_mask fuel (count + 1) print' delays' in
    if ltb max_check_time count
    then some (delays, false)
    else if print_flag
    then some (delays, true)
    else rest

unfoldable pub check_all_ports_link_status : (ℕ → ℕ → Bool) → PortInfo → ℕ → ℕ → Option (ℕ × Bool)
check_all_ports_link_status link_status ports port_num port_mask =
    check_links link_status ports port_num port_mask 92 0 false 0

-- The first of `n` times, from `t` on, at which a test holds; how many are waited for it.
unfoldable pub waited : (ℕ → Bool) → ℕ → ℕ → ℕ
waited test zero t = 0
waited test (suc n) t = let rest = waited test n (t + 1) in if test t then 0 else suc rest

module _ (link_status : ℕ → ℕ → Bool) (ports : PortInfo) (port_num port_mask : ℕ) where
  abbrev pub up_at : ℕ → Bool
  up_at t = all_ports_up (link_status t) ports port_mask port_num

  check_links-printed :
      (fuel count delays : ℕ)
      → count ≤ max_check_time
      → check_links link_status ports port_num port_mask (suc fuel) count true delays
        ≡ some (delays, true)
  unfolding check_links
  check_links-printed fuel count delays le = ground (arith, le)

  check_links-up :
      (fuel count delays : ℕ)
      → count ≤ max_check_time
      → up_at delays ≡ true
      → check_links link_status ports port_num port_mask (suc fuel) count false delays
        ≡ check_links link_status ports port_num port_mask fuel (count + 1) true delays
  unfolding check_links
  check_links-up fuel count delays le up = rw (le_max count le, up) refl
    where
      le_max : (k : ℕ) → k ≤ max_check_time → ltb max_check_time k ≡ false
      le_max k h = ground (arith, h)

  check_links-down :
      (fuel count delays : ℕ)
      → count ≤ max_check_time
      → up_at delays ≡ false
      → check_links link_status ports port_num port_mask (suc fuel) count false delays
        ≡ check_links link_status ports port_num port_mask fuel
            (count + 1)
            (count == max_check_time - 1)
            (delays + 1)
  unfolding check_links
  check_links-down fuel count delays le down = rw (le_max count le, down) refl
    where
      le_max : (k : ℕ) → k ≤ max_check_time → ltb max_check_time k ≡ false
      le_max k h = ground (arith, h)

  waited-up : (n t : ℕ) → up_at t ≡ true → waited up_at (suc n) t ≡ 0
  unfolding waited
  waited-up n t up = rw up refl

  waited-down : (n t : ℕ) → up_at t ≡ false → waited up_at (suc n) t ≡ suc (waited up_at n (t + 1))
  unfolding waited
  waited-down n t down = rw down refl

  waited-none : (t : ℕ) → waited up_at 0 t ≡ 0
  unfolding waited
  waited-none t = refl

  ended : (a b : ℕ) → a ≡ b → ◌≡◌ {A = Option (ℕ × Bool)} (some (a, true)) (some (b, true))
  ended a b e = ap (λ (k : ℕ). some (k, true)) e

  check_links-found :
      (n fuel count : ℕ)
      → count < max_check_time
      → up_at count ≡ true
      → check_links link_status ports port_num port_mask (suc (suc fuel)) count false count
        ≡ some (count + waited up_at (suc n) count, true)
  check_links-found n fuel count lt up =
      check_links-up (suc fuel) count count (omega arith) up
      ∙ check_links-printed fuel (count + 1) count (omega arith)
      ∙ ended count (count + waited up_at (suc n) count) (omega (arith, waited-up n count up))

  check_links-waited :
      (n fuel count : ℕ)
      → count + suc n ≡ max_check_time
      → suc n < fuel
      → check_links link_status ports port_num port_mask fuel count false count
        ≡ some (count + waited up_at (suc n) count, true)
  check_links-waited n zero count sum enough = absurd (omega arith)
  check_links-waited n (suc zero) count sum enough = absurd (omega arith)
  check_links-waited zero (suc (suc fuel)) count sum enough = elim (Bool-cases (up_at count)) [
    | inl up ↦ check_links-found 0 fuel count (omega arith) up
    | inr down ↦
        let last : (count == max_check_time - 1) ≡ true = ground (arith, sum) in
        check_links-down (suc fuel) count count (omega arith) down
        ∙ ap
            (λ b.
              check_links link_status ports port_num port_mask (suc fuel) (count + 1) b (count + 1))
            last
        ∙ check_links-printed fuel (count + 1) (count + 1) (omega arith)
        ∙ ended (count + 1) (count + waited up_at 1 count)
            (omega (arith, waited-down 0 count down, waited-none (count + 1)))
  ]
  check_links-waited (suc m) (suc (suc fuel)) count sum enough = elim (Bool-cases (up_at count)) [
    | inl up ↦ check_links-found (suc m) fuel count (omega arith) up
    | inr down ↦
        let more : (count == max_check_time - 1) ≡ false = ground (arith, sum) in
        check_links-down (suc fuel) count count (omega arith) down
        ∙ ap
            (λ b.
              check_links link_status ports port_num port_mask (suc fuel) (count + 1) b (count + 1))
            more
        ∙ check_links-waited m (suc fuel) (count + 1) (omega arith) (omega arith)
        ∙ ended (count + 1 + waited up_at (suc m) (count + 1))
            (count + waited up_at (suc (suc m)) count)
            (omega (arith, waited-down (suc m) count down))
  ]

  -- The wait ends, by printing every link's state, after as many delays as it takes until all ports in the
  -- mask are up at once, but no more than 90.
  pub check_all_ports_link_status-waited :
      check_all_ports_link_status link_status ports port_num port_mask
      ≡ some (waited up_at 90 0, true)
  unfolding check_all_ports_link_status
  check_all_ports_link_status-waited =
      check_links-waited 89 92 0 (omega arith) (omega arith)
      ∙ ended (0 + waited up_at 90 0) (waited up_at 90 0) (omega arith)
