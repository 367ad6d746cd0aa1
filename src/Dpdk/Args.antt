-- ===== src/Dpdk/Args.antt =====
-- The server's command line, src/dpdk/args.c. `strtoul` is a parameter: the number that it reads and the
-- text that it leaves. So are the options that `getopt_long` yields, and RTE_MAX_ETHPORTS.
pub mod Masks
pub mod Accepted
use testbed.Prelude.{
  ℕ, zero, suc, ◌+◌, ◌*◌, ◌/◌, ◌%◌, Bool, true, false, ◌||◌, not, Option, some, none, List, [], ◌∷◌,
  Bytes, if◌then◌else◌, leb, ◌==◌,
}
use testbed.Dpdk.Ports.{Outcome, done, fault, out_of_fuel, after, put, PortInfo}

-- What the command line sets.
pub record Args : Type 0 where
  pub ports : PortInfo
  pub num_clients : ℕ

-- Where the C functions return -1 or 0, `refused` stands for the -1.
pub data Parsed : Type 0 where
  accepted : Args → Parsed
  refused : Args → Parsed

-- `if (... != 0) { usage(); return -1; }`.
abbrev pub unless_refused : Parsed → (Args → Outcome Parsed) → Outcome Parsed
unless_refused (accepted a) f = f a
unless_refused (refused a) f = done (refused a)

-- `ports->id[ports->num_ports++] = count`.
unfoldable pub add_port : ℕ → ℕ → PortInfo → Outcome PortInfo
add_port rte_max_ethports count ports =
    if leb rte_max_ethports ports.num_ports
    then fault
    else done (record ports {
      id = put ports.num_ports count ports.id;
      num_ports = (ports.num_ports + 1) % 256;
    })

-- The body of the `while` of `parse_portmask`, but for the shift.
unfoldable pub mark_port : ℕ → ℕ → ℕ → ℕ → PortInfo → Outcome PortInfo
mark_port rte_max_ethports max_ports pm count ports =
    if pm % 2 == 1
    then (if leb max_ports count then done ports else add_port rte_max_ethports count ports)
    else done ports

unfoldable pub mark_ports : ℕ → ℕ → ℕ → ℕ → ℕ → PortInfo → Outcome PortInfo
mark_ports rte_max_ethports max_ports zero pm count ports = out_of_fuel
mark_ports rte_max_ethports max_ports (suc fuel) pm count ports =
    if pm == 0
    then done ports
    else after (mark_port rte_max_ethports max_ports pm count ports)
        (mark_ports rte_max_ethports max_ports fuel (pm / 2) ((count + 1) % 256))

-- The guards of the two parsers of numbers: the text is there and all of it is a number other than 0.
unfoldable pub read_number : (Bytes → ℕ → ℕ × Bytes) → ℕ → Option Bytes → Option ℕ
read_number strtoul base none = none
read_number strtoul base (some []) = none
read_number strtoul base (some (b ∷ bs)) =
    let (n, end) = strtoul (b ∷ bs) base in
    elim end [ [] ↦ if n == 0 then none else some n | _ ∷ _ ↦ none ]

-- The mask has 64 bits.
unfoldable pub store_mask : ℕ → ℕ → Option ℕ → Args → Outcome Parsed
store_mask rte_max_ethports max_ports none a = done (refused a)
store_mask rte_max_ethports max_ports (some pm) a =
    after (mark_ports rte_max_ethports max_ports 65 pm 0 a.ports)
      (λ ports. done (accepted (record a { ports = ports })))

unfoldable pub parse_portmask :
    ℕ → (Bytes → ℕ → ℕ × Bytes) → ℕ → Option Bytes → Args → Outcome Parsed
parse_portmask rte_max_ethports strtoul max_ports portmask a =
    store_mask rte_max_ethports max_ports (read_number strtoul 16 portmask) a

unfoldable pub store_clients : Option ℕ → Args → Parsed
store_clients none a = refused a
store_clients (some temp) a = accepted (record a { num_clients = temp % 256 })

unfoldable pub parse_num_clients : (Bytes → ℕ → ℕ × Bytes) → Option Bytes → Args → Parsed
parse_num_clients strtoul clients a = store_clients (read_number strtoul 10 clients) a

-- One option: 'p' is 112, 'n' is 110.
unfoldable pub parse_option :
    ℕ → (Bytes → ℕ → ℕ × Bytes) → ℕ → ℕ → Option Bytes → Args → Outcome Parsed
parse_option rte_max_ethports strtoul max_ports opt optarg a =
    if opt == 112
    then parse_portmask rte_max_ethports strtoul max_ports optarg a
    else if opt == 110
    then done (parse_num_clients strtoul optarg a)
    else done (refused a)

unfoldable pub parse_options :
    ℕ → (Bytes → ℕ → ℕ × Bytes) → ℕ → List (ℕ × Option Bytes) → Args → Outcome Parsed
parse_options rte_max_ethports strtoul max_ports [] a = done (accepted a)
parse_options rte_max_ethports strtoul max_ports ((opt, optarg) ∷ opts) a =
    after (parse_option rte_max_ethports strtoul max_ports opt optarg a)
      (λ p. unless_refused p (parse_options rte_max_ethports strtoul max_ports opts))

-- The tests after the options.
unfoldable pub check_args : Args → Parsed
check_args a =
    if (a.ports.num_ports == 0) || (a.num_clients == 0)
    then refused a
    else if not (a.ports.num_ports % 2 == 0)
    then refused a
    else accepted a

unfoldable pub parse_app_args :
    ℕ → (Bytes → ℕ → ℕ × Bytes) → ℕ → List (ℕ × Option Bytes) → Args → Outcome Parsed
parse_app_args rte_max_ethports strtoul max_ports opts a =
    after (parse_options rte_max_ethports strtoul max_ports opts a)
      (λ p. unless_refused p (λ a'. done (check_args a')))
