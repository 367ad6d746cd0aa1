-- ===== src/Dpdk/Args/Accepted.antt =====
-- What the server's start can rely on when src/dpdk/args.c accepts a command line.
use native.Mathlib.Nat.{mod-lt}
use testbed.Prelude.{
  ◌||◌, not, ℕ, zero, suc, ◌+◌, ◌/◌, ◌%◌, ◌<◌, ◌≡◌, refl, subst, Bool, true, false, Option, some,
  none, List, [], ◌∷◌, Bytes, if◌then◌else◌, leb, ◌==◌, arith, Bool-cases, inl, inr,
}
use testbed.Dpdk.Ports.{Outcome, done, fault, out_of_fuel, after, put, PortInfo}
use testbed.Dpdk.Args.{
  Args, Parsed, accepted, refused, unless_refused, add_port, mark_port, mark_ports, read_number,
  store_mask, parse_portmask, store_clients, parse_num_clients, parse_option, parse_options,
  check_args, parse_app_args,
}

-- Every port in use is one of the `max_ports` there are.
unfoldable pub IsPresent : ℕ → PortInfo → Type 0
IsPresent max_ports ports = (j : ℕ) → j < ports.num_ports → ports.id j < max_ports

-- What the parsing of options keeps.
unfoldable pub IsParsed : ℕ → Args → Type 0
IsParsed max_ports a = IsPresent max_ports a.ports × (a.num_clients < 256)

-- What an outcome holds, if there is one.
unfoldable pub Holds {ℓ} : {A : Type ℓ} → (A → Type 0) → Outcome A → Type 0
Holds P (done a) = P a
Holds P fault = Unit
Holds P out_of_fuel = Unit

Holds-after {ℓ ℓ'} :
    {A : Type ℓ} {B : Type ℓ'} (P : A → Type 0) (Q : B → Type 0) (o : Outcome A) (f : A → Outcome B)
    → Holds P o
    → ((a : A) → P a → Holds Q (f a))
    → Holds Q (after o f)
unfolding Holds
Holds-after P Q (done a) f h next = next a h
Holds-after P Q fault f h next = tt
Holds-after P Q out_of_fuel f h next = tt

-- What a parser's answer holds, if it is not a refusal.
unfoldable WhenAccepted : (Args → Type 0) → Parsed → Type 0
WhenAccepted P (accepted a) = P a
WhenAccepted P (refused a) = Unit

WhenAccepted-unless_refused :
    (P Q : Args → Type 0) (p : Parsed) (f : Args → Outcome Parsed)
    → WhenAccepted P p
    → ((a : Args) → P a → Holds (WhenAccepted Q) (f a))
    → Holds (WhenAccepted Q) (unless_refused p f)
unfolding Holds WhenAccepted
WhenAccepted-unless_refused P Q (accepted a) f h next = next a h
WhenAccepted-unless_refused P Q (refused a) f h next = tt

module _ (lim max_ports : ℕ) where
  put-IsPresent :
      (x : ℕ) (ports : PortInfo)
      → x < max_ports
      → IsPresent max_ports ports
      → IsPresent max_ports (record ports {
        id = put ports.num_ports x ports.id;
        num_ports = (ports.num_ports + 1) % 256;
      })
  unfolding IsPresent
  put-IsPresent x ports lt h j below = elim (Bool-cases (j == ports.num_ports)) [
    | inl new ↦ ground (arith, new)
    | inr old ↦
        let within : j < ports.num_ports = ground (arith, old, below) in
        let kept : put ports.num_ports x ports.id j ≡ ports.id j = ground (arith, old) in
        rw kept (h j within)
  ]

  add_port-IsPresent :
      (x : ℕ) (ports : PortInfo)
      → x < max_ports
      → IsPresent max_ports ports
      → Holds (IsPresent max_ports) (add_port lim x ports)
  unfolding add_port Holds
  add_port-IsPresent x ports lt h = elim (Bool-cases (leb lim ports.num_ports)) [
    | inl full ↦ rw full tt
    | inr room ↦ rw room (put-IsPresent x ports lt h)
  ]

  mark_port-IsPresent :
      (pm c : ℕ) (ports : PortInfo)
      → IsPresent max_ports ports
      → Holds (IsPresent max_ports) (mark_port lim max_ports pm c ports)
  unfolding mark_port Holds
  mark_port-IsPresent pm c ports h = go (pm % 2 == 1) (leb max_ports c) refl
    where
      go :
          (b d : Bool)
          → leb max_ports c ≡ d
          → Holds
              (IsPresent max_ports)
              (if b then (if d then done ports else add_port lim c ports) else done ports)
      go false d e = h
      go true true e = h
      go true false e = add_port-IsPresent c ports (ground (arith, e)) h

  mark_ports-IsPresent :
      (fuel pm c : ℕ) (ports : PortInfo)
      → IsPresent max_ports ports
      → Holds (IsPresent max_ports) (mark_ports lim max_ports fuel pm c ports)
  unfolding mark_ports Holds
  mark_ports-IsPresent zero pm c ports h = tt
  mark_ports-IsPresent (suc fuel) pm c ports h = elim (Bool-cases (pm == 0)) [
    | inl none_left ↦ rw none_left h
    | inr more ↦ rw more (
        Holds-after (IsPresent max_ports) (IsPresent max_ports) (mark_port lim max_ports pm c ports)
          _ (mark_port-IsPresent pm c ports h)
          (λ ports' h'. mark_ports-IsPresent fuel (pm / 2) ((c + 1) % 256) ports' h'))
  ]

  store_mask-IsParsed :
      (n : Option ℕ) (a : Args)
      → IsParsed max_ports a
      → Holds (WhenAccepted (IsParsed max_ports)) (store_mask lim max_ports n a)
  unfolding store_mask Holds WhenAccepted IsParsed
  store_mask-IsParsed none a h = tt
  store_mask-IsParsed (some pm) a (h, few) =
      Holds-after (IsPresent max_ports) (WhenAccepted (IsParsed max_ports))
        (mark_ports lim max_ports 65 pm 0 a.ports) _ (mark_ports-IsPresent 65 pm 0 a.ports h)
        (λ ports h'. (h', few))

  store_clients-IsParsed :
      (n : Option ℕ) (a : Args)
      → IsParsed max_ports a
      → WhenAccepted (IsParsed max_ports) (store_clients n a)
  unfolding store_clients WhenAccepted IsParsed
  store_clients-IsParsed none a h = tt
  store_clients-IsParsed (some temp) a (h, few) = (h, mod-lt temp (omega arith))

  parse_option-IsParsed :
      (strtoul : Bytes → ℕ → ℕ × Bytes) (opt : ℕ) (optarg : Option Bytes) (a : Args)
      → IsParsed max_ports a
      → Holds (WhenAccepted (IsParsed max_ports)) (parse_option lim strtoul max_ports opt optarg a)
  unfolding parse_option parse_portmask parse_num_clients Holds WhenAccepted
  parse_option-IsParsed strtoul opt optarg a h = go (opt == 112) (opt == 110)
    where
      go :
          (p n : Bool)
          → Holds (WhenAccepted (IsParsed max_ports)) (
              if p
              then store_mask lim max_ports (read_number strtoul 16 optarg) a
              else if n
              then done (store_clients (read_number strtoul 10 optarg) a)
              else done (refused a))
      go true n = store_mask-IsParsed (read_number strtoul 16 optarg) a h
      go false true = store_clients-IsParsed (read_number strtoul 10 optarg) a h
      go false false = tt

  parse_options-IsParsed :
      (strtoul : Bytes → ℕ → ℕ × Bytes) (opts : List (ℕ × Option Bytes)) (a : Args)
      → IsParsed max_ports a
      → Holds (WhenAccepted (IsParsed max_ports)) (parse_options lim strtoul max_ports opts a)
  unfolding parse_options Holds WhenAccepted
  parse_options-IsParsed strtoul [] a h = h
  parse_options-IsParsed strtoul ((opt, optarg) ∷ opts) a h =
      Holds-after (WhenAccepted (IsParsed max_ports)) (WhenAccepted (IsParsed max_ports))
        (parse_option lim strtoul max_ports opt optarg a) _
        (parse_option-IsParsed strtoul opt optarg a h)
        (λ p h'.
          WhenAccepted-unless_refused (IsParsed max_ports) (IsParsed max_ports) p _ h'
            (λ a' h''. parse_options-IsParsed strtoul opts a' h''))

-- What the server starts on: an even number of ports, at least two, all of them present, and between 1 and
-- 255 clients.
unfoldable pub IsServing : ℕ → Args → Type 0
IsServing max_ports a =
    IsPresent max_ports a.ports
    × (a.ports.num_ports % 2 ≡ 0)
    × (0 < a.ports.num_ports)
    × (0 < a.num_clients)
    × (a.num_clients < 256)

module _ (lim max_ports : ℕ) where
  check_args-IsServing :
      (a : Args) → IsParsed max_ports a → WhenAccepted (IsServing max_ports) (check_args a)
  unfolding check_args WhenAccepted IsServing IsParsed
  check_args-IsServing a (h, few) =
      go (a.ports.num_ports == 0) refl (a.num_clients == 0) refl (a.ports.num_ports % 2 == 0) refl
    where
      go :
          (p : Bool)
          → (a.ports.num_ports == 0) ≡ p
          → (n : Bool) → (a.num_clients == 0) ≡ n
          → (even : Bool) → (a.ports.num_ports % 2 == 0) ≡ even
          → WhenAccepted
              (IsServing max_ports)
              (if p || n then refused a else if not even then refused a else accepted a)
      go true e n e' even e'' = tt
      go false e true e' even e'' = tt
      go false e false e' false e'' = tt
      go false e false e' true e'' =
          (h, ground (arith, e''), ground (arith, e), ground (arith, e'), few)

  parse_app_args-Holds :
      (strtoul : Bytes → ℕ → ℕ × Bytes) (opts : List (ℕ × Option Bytes)) (a : Args)
      → IsParsed max_ports a
      → Holds (WhenAccepted (IsServing max_ports)) (parse_app_args lim strtoul max_ports opts a)
  unfolding parse_app_args Holds
  parse_app_args-Holds strtoul opts a h =
      Holds-after (WhenAccepted (IsParsed max_ports)) (WhenAccepted (IsServing max_ports))
        (parse_options lim strtoul max_ports opts a) _
        (parse_options-IsParsed lim max_ports strtoul opts a h)
        (λ p h'.
          WhenAccepted-unless_refused (IsParsed max_ports) (IsServing max_ports) p _ h'
            (λ a' h''. check a' h''))
    where
      check :
          (a' : Args)
          → IsParsed max_ports a'
          → Holds (WhenAccepted (IsServing max_ports)) (done (check_args a'))
      check a' h' = check_args-IsServing a' h'

  -- A command line that the server accepts leaves an even number of ports, at least two, every one of them
  -- below `max_ports`, and from 1 to 255 clients, whatever the options and in whatever order. What the
  -- parser starts on has only ports below `max_ports`, and fewer than 256 clients.
  pub parse_app_args-IsServing :
      (strtoul : Bytes → ℕ → ℕ × Bytes) (opts : List (ℕ × Option Bytes)) (a a' : Args)
      → IsParsed max_ports a
      → parse_app_args lim strtoul max_ports opts a ≡ done (accepted a')
      → IsServing max_ports a'
  unfolding Holds WhenAccepted
  parse_app_args-IsServing strtoul opts a a' h e =
      subst (Holds (WhenAccepted (IsServing max_ports))) e (parse_app_args-Holds strtoul opts a h)
