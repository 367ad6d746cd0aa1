-- ===== src/Utils/Tracer/Loading.antt =====
-- `load` of src/utils/tracer.h on a file of printed lines.
use testbed.Prelude.{
  ℕ, suc, ◌+◌, ◌<◌, ◌≤◌, ◌≡◌, refl, ◌∙◌, true, false, some, none, List, [], ◌∷◌, ◌++◌, append_assoc,
  append-nil, Bytes, bytes_eq, length, drop, map, if◌then◌else◌, ◌==◌, ltb, arith, Option-cases,
  Bool-cases, le→ltb, bytes_eq_iff, inl, inr,
}
use testbed.Utils.Tracer.{
  space, break_on, last_field, YcsbOperator, lookup, insert, erase, update, scan, ycsb_command,
  is_even, c_str, YcsbRequest, field_at, substr, new_request, Loaded, try_command, try_commands,
  operators, load_line, load_lines, load,
}
use testbed.Utils.Tracer.Split.{IsWord, line_of, rest_fields, supersplit-line_of}

-- A line of a workload file: the command, the table, the key with its four letters of prefix, and the
-- value, which may contain spaces.
pub record Entry : Type 0 where
  pub op : YcsbOperator
  pub table : Bytes
  pub key : Bytes
  pub val : Bytes

unfoldable pub print_entry : Entry → Bytes
print_entry e = line_of space (ycsb_command e.op ∷ e.table ∷ e.key ∷ []) e.val

pub record IsPrintable (e : Entry) : Type 0 where
  pub table-IsWord : IsWord space e.table
  pub key-IsWord : IsWord space e.key
  pub has_prefix : 4 ≤ length e.key
  pub has_value : 0 < length e.val

-- The request of a line. Its `ks` counts the four letters that its key has lost.
unfoldable pub request_of : {K : Type 0} → (Bytes → K) → Entry → YcsbRequest K
request_of to_key e = record {
  op = e.op;
  key = to_key (c_str (drop 4 e.key));
  ks = length e.key;
  val = if is_even e.op then none else some (c_str e.val);
  vs = if is_even e.op then 0 else length e.val;
}

command-IsWord : (op : YcsbOperator) → IsWord space (ycsb_command op)
unfolding ycsb_command
command-IsWord lookup = (refl, (refl, (refl, (refl, tt))))
command-IsWord insert = (refl, (refl, (refl, (refl, (refl, (refl, tt))))))
command-IsWord erase = (refl, (refl, (refl, (refl, (refl, (refl, tt))))))
command-IsWord update = (refl, (refl, (refl, (refl, (refl, (refl, tt))))))
command-IsWord scan = (refl, (refl, (refl, (refl, tt))))

-- The fourth field is the value.
rest_fields-value :
    (t : Bytes) → 0 < length t → (more : List Bytes) × (rest_fields space t ≡ t ∷ more)
unfolding rest_fields last_field
rest_fields-value [] h = absurd (omega arith)
rest_fields-value (b ∷ t) h = elim (Option-cases (break_on space (b ∷ t))) [
  | inl e ↦ ([], ground (arith, e))
  | inr ((before, after), e) ↦ ((b ∷ t) ∷ [], ground (arith, e))
]

new_request-fields :
    {K : Type 0} (to_key : Bytes → K) (e : Entry) (f0 : Bytes) (more : List Bytes)
    → IsPrintable e
    → new_request to_key e.op (f0 ∷ e.table ∷ e.key ∷ e.val ∷ more) ≡ some (request_of to_key e)
unfolding new_request field_at substr request_of
new_request-fields to_key e f0 more p =
    let long : ltb (length e.key) 4 ≡ false = le→ltb (length e.key) 4 p.has_prefix in
    ground (arith, long)

-- The loop's state after one more request.
unfoldable pub added : {K : Type 0} → ℕ → Loaded K → YcsbRequest K → Loaded K
added limit l r = record {
  requests = l.requests ++ (r ∷ []);
  number_of_requests = suc l.number_of_requests;
  is_complete = suc l.number_of_requests == limit;
}

abbrev pub ArePrintable : List Entry → Type 0
ArePrintable [] = Unit
ArePrintable (e ∷ es) = IsPrintable e × ArePrintable es

abbrev AreOther : YcsbOperator → List YcsbOperator → Type 0
AreOther op [] = Unit
AreOther op (o ∷ ops) = (bytes_eq (ycsb_command op) (ycsb_command o) ≡ false) × AreOther op ops

module _ {K : Type 0} (to_key : Bytes → K) (limit : ℕ) where
  try_command-hit :
      (op : YcsbOperator) (fields : List Bytes) (l : Loaded K) (r : YcsbRequest K)
      → new_request to_key op (ycsb_command op ∷ fields) ≡ some r
      → try_command to_key limit (ycsb_command op ∷ fields) op l ≡ some (added limit l r)
  unfolding try_command field_at added
  try_command-hit op fields l r e =
      let same = (bytes_eq_iff (ycsb_command op) (ycsb_command op)).1 refl in
      ground (arith, e, same)

  try_command-other :
      (op o : YcsbOperator) (fields : List Bytes) (l : Loaded K)
      → bytes_eq (ycsb_command op) (ycsb_command o) ≡ false
      → try_command to_key limit (ycsb_command op ∷ fields) o l ≡ some l
  unfolding try_command field_at
  try_command-other op o fields l e = ground arith

  try_commands-next :
      (fields : List Bytes) (o : YcsbOperator) (ops : List YcsbOperator) (l m : Loaded K)
      → try_command to_key limit fields o l ≡ some m
      → m.is_complete ≡ false
      → try_commands to_key limit fields (o ∷ ops) l ≡ try_commands to_key limit fields ops m
  unfolding try_commands
  try_commands-next fields o ops l m e n = ground arith

  try_commands_complete :
      (fields : List Bytes) (o : YcsbOperator) (ops : List YcsbOperator) (l m : Loaded K)
      → try_command to_key limit fields o l ≡ some m
      → m.is_complete ≡ true
      → try_commands to_key limit fields (o ∷ ops) l ≡ some m
  unfolding try_commands
  try_commands_complete fields o ops l m e n = ground arith

  try_commands-other :
      (op : YcsbOperator) (fields : List Bytes) (ops : List YcsbOperator) (l : Loaded K)
      → AreOther op ops
      → try_commands to_key limit (ycsb_command op ∷ fields) ops l ≡ some l
  unfolding try_commands
  try_commands-other op fields [] l o = refl
  try_commands-other op fields (p ∷ ops) l o =
      let skipped = try_command-other op p fields l o.0 in
      elim (Bool-cases l.is_complete) [
        | inl q ↦ try_commands_complete (ycsb_command op ∷ fields) p ops l l skipped q
        | inr q ↦
            try_commands-next (ycsb_command op ∷ fields) p ops l l skipped q
            ∙ try_commands-other op fields ops l o.1
      ]

  try_commands-hit :
      (op : YcsbOperator) (fields : List Bytes) (before after : List YcsbOperator) (l : Loaded K)
      (r : YcsbRequest K)
      → AreOther op before
      → AreOther op after
      → l.is_complete ≡ false
      → new_request to_key op (ycsb_command op ∷ fields) ≡ some r
      → try_commands to_key limit (ycsb_command op ∷ fields) (before ++ (op ∷ after)) l
        ≡ some (added limit l r)
  try_commands-hit op fields [] after l r b a n e =
      let hit = try_command-hit op fields l r e in
      elim (Bool-cases (added limit l r).is_complete) [
        | inl q ↦
            try_commands_complete (ycsb_command op ∷ fields) op after l (added limit l r) hit q
        | inr q ↦
            try_commands-next (ycsb_command op ∷ fields) op after l (added limit l r) hit q
            ∙ try_commands-other op fields after (added limit l r) a
      ]
  try_commands-hit op fields (p ∷ before) after l r b a n e =
      try_commands-next (ycsb_command op ∷ fields) p (before ++ (op ∷ after)) l l
        (try_command-other op p fields l b.0) n
      ∙ try_commands-hit op fields before after l r b.1 a n e

  try_commands-operators :
      (op : YcsbOperator) (fields : List Bytes) (l : Loaded K) (r : YcsbRequest K)
      → l.is_complete ≡ false
      → new_request to_key op (ycsb_command op ∷ fields) ≡ some r
      → try_commands to_key limit (ycsb_command op ∷ fields) operators l ≡ some (added limit l r)
  unfolding ycsb_command bytes_eq
  try_commands-operators lookup fields l r =
      try_commands-hit lookup fields [] (insert ∷ erase ∷ update ∷ scan ∷ []) l r tt
        (refl, (refl, (refl, (refl, tt))))
  try_commands-operators insert fields l r =
      try_commands-hit insert fields (lookup ∷ []) (erase ∷ update ∷ scan ∷ []) l r (refl, tt)
        (refl, (refl, (refl, tt)))
  try_commands-operators erase fields l r =
      try_commands-hit erase fields (lookup ∷ insert ∷ []) (update ∷ scan ∷ []) l r
        (refl, (refl, tt)) (refl, (refl, tt))
  try_commands-operators update fields l r =
      try_commands-hit update fields (lookup ∷ insert ∷ erase ∷ []) (scan ∷ []) l r
        (refl, (refl, (refl, tt))) (refl, tt)
  try_commands-operators scan fields l r =
      try_commands-hit scan fields (lookup ∷ insert ∷ erase ∷ update ∷ []) [] l r
        (refl, (refl, (refl, (refl, tt)))) tt

  -- A printed line adds the request that it describes.
  load_line-print_entry :
      (e : Entry) (l : Loaded K)
      → IsPrintable e
      → l.is_complete ≡ false
      → load_line to_key limit (print_entry e) l ≡ some (added limit l (request_of to_key e))
  unfolding load_line print_entry
  load_line-print_entry e l p n =
      let (more, tail) = rest_fields-value e.val p.has_value in
      let fields =
        supersplit-line_of space (ycsb_command e.op ∷ e.table ∷ e.key ∷ []) e.val
          (command-IsWord e.op, (p.table-IsWord, (p.key-IsWord, tt))) in
      let long : ltb (suc (suc (suc (suc (length more))))) 2 ≡ false =
        le→ltb (suc (suc (suc (suc (length more))))) 2 (omega arith) in
      rw (fields, tail, long)
        (try_commands-operators e.op (e.table ∷ e.key ∷ e.val ∷ more) l (request_of to_key e) n
          (new_request-fields to_key e (ycsb_command e.op) more p))

  load_lines-next :
      (line : Bytes) (lines : List Bytes) (l m : Loaded K)
      → load_line to_key limit line l ≡ some m
      → m.is_complete ≡ false
      → load_lines to_key limit (line ∷ lines) l ≡ load_lines to_key limit lines m
  unfolding load_lines
  load_lines-next line lines l m e n = ground arith

  load_lines-print_entry :
      (es : List Entry) (l : Loaded K)
      → ArePrintable es
      → l.is_complete ≡ false
      → l.number_of_requests + length es < limit
      → load_lines to_key limit (map print_entry es) l
        ≡ some (record {
          requests = l.requests ++ map (request_of to_key) es;
          number_of_requests = l.number_of_requests + length es;
          is_complete = false;
        })
  unfolding load_lines added
  load_lines-print_entry [] l p n lt = ground (arith, append-nil l.requests)
  load_lines-print_entry (e ∷ es) l p n lt =
      let more : (suc l.number_of_requests == limit) ≡ false = ground arith in
      load_lines-next (print_entry e) (map print_entry es) l (added limit l (request_of to_key e))
        (load_line-print_entry e l p.0 n) more
      ∙ load_lines-print_entry es (added limit l (request_of to_key e)) p.1 more (omega arith)
      ∙ ground
          (arith, append_assoc l.requests (request_of to_key e ∷ []) (map (request_of to_key) es))

-- Loading the file of printed entries, fewer than the limit leaves room for, gives their requests in
-- order and counts them.
pub load-print_entry :
    (limit number_of_requests : ℕ) (es : List Entry)
    → ArePrintable es
    → number_of_requests + length es < limit
    → load limit (map print_entry es) number_of_requests
      ≡ some (record {
        requests = map (request_of (λ k. k)) es;
        number_of_requests = number_of_requests + length es;
        is_complete = false;
      })
unfolding load
load-print_entry limit number_of_requests es p lt =
    load_lines-print_entry (λ k. k) limit es
      (record { requests = []; number_of_requests = number_of_requests; is_complete = false }) p
      refl lt
