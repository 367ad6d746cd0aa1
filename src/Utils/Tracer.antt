-- ===== src/Utils/Tracer.antt =====
-- The YCSB part of src/utils/tracer.h: supersplit, YCSBLoader::load and YCSBFixedLengthLoader::load. The
-- lines of the file are a list of strings of bytes. A result `none` is an index or a `substr` out of
-- range, where the code's behaviour is undefined or it throws.
pub mod Split
pub mod Loading
use testbed.Prelude.{
  ℕ, zero, suc, ◌+◌, Bool, true, false, Option, some, none, List, [], ◌∷◌, ◌++◌, Bytes, bytes_eq,
  length, drop, if◌then◌else◌, ◌==◌, ltb,
}

abbrev pub space : ℕ
space = 32

-- What is before and what is after the first `c`.
unfoldable pub break_on : ℕ → Bytes → Option (Bytes × Bytes)
break_on c [] = none
break_on c (b ∷ s) =
    let rest = break_on c s in
    if b == c
    then some ([], s)
    else elim rest [ none ↦ none | some (before, after) ↦ some (b ∷ before, after) ]

-- The statement after the loop.
unfoldable pub last_field : Bytes → List Bytes
last_field [] = []
last_field (b ∷ rest) = (b ∷ rest) ∷ []

-- The loop, where `rest` is the string from `pos1` on. The separator has one character, as in both
-- calls. Each round consumes a character, so that fuel above the length is enough.
unfoldable pub split_loop : ℕ → ℕ → ℕ → ℕ → Bytes → List Bytes
split_loop zero c n found rest = []
split_loop (suc fuel) c n found rest = elim (break_on c rest) [
  | none ↦ last_field rest
  | some (field, after) ↦
      let fields = split_loop fuel c n (suc found) after in
      if found == n then rest ∷ last_field rest else field ∷ fields
]

unfoldable pub supersplit : Bytes → ℕ → ℕ → List Bytes
supersplit s c n = split_loop (suc (length s)) c n 0 s

pub data YcsbOperator : Type 0 where
  lookup : YcsbOperator
  insert : YcsbOperator
  erase : YcsbOperator
  update : YcsbOperator
  scan : YcsbOperator

unfoldable pub ycsb_command : YcsbOperator → Bytes
ycsb_command lookup = 82 ∷ 69 ∷ 65 ∷ 68 ∷ []
ycsb_command insert = 73 ∷ 78 ∷ 83 ∷ 69 ∷ 82 ∷ 84 ∷ []
ycsb_command erase = 68 ∷ 69 ∷ 76 ∷ 69 ∷ 84 ∷ 69 ∷ []
ycsb_command update = 85 ∷ 80 ∷ 68 ∷ 65 ∷ 84 ∷ 69 ∷ []
ycsb_command scan = 83 ∷ 67 ∷ 65 ∷ 78 ∷ []

-- `i % 2 == 0`.
unfoldable pub is_even : YcsbOperator → Bool
is_even lookup = true
is_even insert = false
is_even erase = true
is_even update = false
is_even scan = true

-- `strdup(s.c_str())`: the string ends at the first zero byte.
unfoldable pub c_str : Bytes → Bytes
c_str [] = []
c_str (zero ∷ s) = []
c_str (suc b ∷ s) = suc b ∷ c_str s

pub record YcsbRequest (K : Type 0) : Type 0 where
  pub op : YcsbOperator
  pub key : K
  pub ks : ℕ
  pub val : Option Bytes
  pub vs : ℕ

-- `fields[i]`.
unfoldable pub field_at : ℕ → List Bytes → Option Bytes
field_at i [] = none
field_at zero (f ∷ fields) = some f
field_at (suc i) (f ∷ fields) = field_at i fields

-- `fields[2].substr(4)`, which throws when the field is shorter.
unfoldable pub substr : ℕ → Bytes → Option Bytes
substr i s = if ltb (length s) i then none else some (drop i s)

-- The two `new` expressions of `load`, with what the loader makes of the key's characters.
unfoldable pub new_request :
    {K : Type 0} → (Bytes → K) → YcsbOperator → List Bytes → Option (YcsbRequest K)
new_request to_key op fields = elim (field_at 2 fields) [
  | none ↦ none
  | some f2 ↦ elim (substr 4 f2) [
    | none ↦ none
    | some k ↦
        if is_even op
        then some (record { op = op; key = to_key (c_str k); ks = length f2; val = none; vs = 0 })
        else elim (field_at 3 fields) [
          | none ↦ none
          | some f3 ↦ some (record {
            op = op;
            key = to_key (c_str k);
            ks = length f2;
            val = some (c_str f3);
            vs = length f3;
          })
        ]
  ]
]

-- Where a loop of `load` stands: the requests so far, `numberOfRequests`, and whether it went to
-- `complete`.
pub record Loaded (K : Type 0) : Type 0 where
  pub requests : List (YcsbRequest K)
  pub number_of_requests : ℕ
  pub is_complete : Bool

-- The body of the loop on `i`.
unfoldable pub try_command :
    {K : Type 0} → (Bytes → K) → ℕ → List Bytes → YcsbOperator → Loaded K → Option (Loaded K)
try_command to_key limit fields op l = elim (field_at 0 fields) [
  | none ↦ none
  | some f0 ↦
      if bytes_eq f0 (ycsb_command op)
      then elim (new_request to_key op fields) [
        | none ↦ none
        | some r ↦ some (record {
          requests = l.requests ++ (r ∷ []);
          number_of_requests = suc l.number_of_requests;
          is_complete = suc l.number_of_requests == limit;
        })
      ]
      else some l
]

unfoldable pub try_commands :
    {K : Type 0} → (Bytes → K) → ℕ → List Bytes → List YcsbOperator → Loaded K → Option (Loaded K)
try_commands to_key limit fields [] l = some l
try_commands to_key limit fields (op ∷ ops) l = elim (try_command to_key limit fields op l) [
  | none ↦ none
  | some l' ↦ elim l'.is_complete [
    | true ↦ some l'
    | false ↦ try_commands to_key limit fields ops l'
  ]
]

abbrev pub operators : List YcsbOperator
operators = YcsbOperator.lookup ∷ insert ∷ erase ∷ update ∷ scan ∷ []

unfoldable pub load_line : {K : Type 0} → (Bytes → K) → ℕ → Bytes → Loaded K → Option (Loaded K)
load_line to_key limit line l =
    let fields = supersplit line space 3 in
    if ltb (length fields) 2 then some l else try_commands to_key limit fields operators l

unfoldable pub load_lines :
    {K : Type 0} → (Bytes → K) → ℕ → List Bytes → Loaded K → Option (Loaded K)
load_lines to_key limit [] l = some l
load_lines to_key limit (line ∷ lines) l = elim (load_line to_key limit line l) [
  | none ↦ none
  | some l' ↦ elim l'.is_complete [ true ↦ some l' | false ↦ load_lines to_key limit lines l' ]
]

-- YCSBLoader::load.
unfoldable pub load : ℕ → List Bytes → ℕ → Option (Loaded Bytes)
load limit lines number_of_requests =
    load_lines (λ k. k) limit lines
      (record { requests = []; number_of_requests = number_of_requests; is_complete = false })

-- YCSBFixedLengthLoader::load, whose keys are numbers: `atol` is the C library's.
unfoldable pub fixed_load : (Bytes → ℕ) → ℕ → List Bytes → ℕ → Option (Loaded ℕ)
fixed_load atol limit lines number_of_requests =
    load_lines atol limit lines
      (record { requests = []; number_of_requests = number_of_requests; is_complete = false })
