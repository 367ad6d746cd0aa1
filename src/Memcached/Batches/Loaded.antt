-- ===== src/Memcached/Batches/Loaded.antt =====
-- `con_package` of src/dist/memcached/mc_mt.cpp on requests that the reader of src/utils/tracer.h loads.
use testbed.Prelude.{
  ℕ, zero, suc, ◌+◌, ◌≤◌, ◌<◌, ◌≡◌, refl, some, none, List, [], ◌∷◌, Bytes, length, length-append,
  length-drop, drop, lt→ltb, le→ltb, arith, map,
}
use testbed.Utils.Tracer.{YcsbOperator, lookup, insert, erase, update, scan, c_str, Loaded, load}
use testbed.Utils.Tracer.Loading.{
  Entry, print_entry, IsPrintable, ArePrintable, request_of, load-print_entry,
}
use testbed.Memcached.Batches.{
  strdup, copied, con_get, con_set, con_package, fault, con_loop, con_database, get_package_size,
  batch_size,
}

length-c_str : (s : Bytes) → length (c_str s) ≤ length s
unfolding c_str
length-c_str [] = omega arith
length-c_str (zero ∷ s) = omega arith
length-c_str (suc b ∷ s) = omega (arith, length-c_str s)

-- The allocation of a loaded key ends three bytes before the length that the request has for it.
key-short :
    (e : Entry)
    → IsPrintable e
    → length (strdup (request_of (λ k. k) e).key) < (request_of (λ k. k) e).ks
unfolding strdup request_of
key-short e p = omega (
  arith,
  p.has_prefix,
  length-c_str (drop 4 e.key),
  length-drop 4 e.key,
  length-append (c_str (drop 4 e.key)) (0 ∷ []),
)

copied-short : (n : ℕ) (s : Bytes) → length s < n → copied n s ≡ none
unfolding copied
copied-short n s h = ground (arith, lt→ltb (length s) n)

-- A kind of request that `con_package` packs.
abbrev pub IsPacked : YcsbOperator → Type 0
IsPacked lookup = Unit
IsPacked insert = Unit
IsPacked erase = ⊥
IsPacked update = Unit
IsPacked scan = ⊥

-- Of every printable READ, INSERT or UPDATE line of a workload file, `con_package` reads past the key.
pub con_package-request_of :
    (e : Entry) → IsPrintable e → IsPacked e.op → con_package (request_of (λ k. k) e) ≡ none
unfolding con_package con_get con_set request_of
con_package-request_of e p k = go e.op refl k
  where
    over : copied (request_of (λ k. k) e).ks (strdup (request_of (λ k. k) e).key) ≡ none
    over = copied-short _ _ (key-short e p)

    go :
        (op : YcsbOperator)
        → (request_of (λ k. k) e).op ≡ op
        → IsPacked op
        → con_package (request_of (λ k. k) e) ≡ none
    go lookup o k = ground (arith, o, over)
    go insert o k = ground (arith, o, over)
    go update o k = ground (arith, o, over)
    go erase o k = elim k [ ]
    go scan o k = elim k [ ]

-- A workload file that begins with a READ, INSERT or UPDATE line whose package is not too large: the reader
-- loads it, and `con_database` on what it loaded reads past the first key.
pub con_database-load :
    (limit fuel : ℕ) (e : Entry) (es : List Entry)
    → ArePrintable (e ∷ es)
    → IsPacked e.op
    → get_package_size (request_of (λ k. k) e) ≤ batch_size
    → length (e ∷ es) < limit
    → (l : Loaded Bytes) × (load limit (map print_entry (e ∷ es)) 0 ≡ some l)
      × (con_database (suc fuel) l.requests ≡ fault)
unfolding con_database con_loop
con_database-load limit fuel e es p k small lt = (
  _,
  load-print_entry limit 0 (e ∷ es) p (omega arith),
  ground (
    arith,
    le→ltb batch_size (0 + get_package_size (request_of (λ k. k) e)),
    con_package-request_of e p.0 k,
  ),
)
