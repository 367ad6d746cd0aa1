-- ===== src/Memcached/Batches/Packing.antt =====
-- `con_database` on requests whose packages fit, and on one whose package does not.
use testbed.Prelude.{
  ℕ, zero, suc, ◌+◌, ◌*◌, ◌≤◌, ◌<◌, ◌≡◌, refl, sym, ap, subst, ◌∙◌, true, Option, some, none, List,
  [], ◌∷◌, ◌++◌, append_assoc, Bytes, length, length-append, length-take, length-replicate, ltb,
  lt→ltb, le→ltb, arith, Bool-cases, Option-cases, inl, inr,
}
use testbed.Utils.Tracer.{YcsbOperator, lookup, insert, erase, update, scan, YcsbRequest}
use testbed.Memcached.Batches.{
  batch_size, SendBatch, strdup, copied, value_of, get_package_size, get_package, set_package,
  con_get, con_set, untouched, con_package, Packed, packed, out_of_fuel, con_loop, con_database,
}

-- The bytes of all batches, one after the other.
abbrev pub batch_bytes : List SendBatch → Bytes
batch_bytes [] = []
batch_bytes (b ∷ bs) = b.buf ++ batch_bytes bs

-- Each size is that of the bytes, and fits.
abbrev pub AreSized : List SendBatch → Type 0
AreSized [] = Unit
AreSized (b ∷ bs) = (b.size ≡ length b.buf) × (b.size ≤ batch_size) × AreSized bs

-- The packages of all requests, one after the other.
unfoldable pub packages : List (YcsbRequest Bytes) → Option Bytes
packages [] = some []
packages (req ∷ reqs) = elim (con_package req) [
  | none ↦ none
  | some p ↦ elim (packages reqs) [ none ↦ none | some rest ↦ some (p ++ rest) ]
]

abbrev pub AreSmall : List (YcsbRequest Bytes) → Type 0
AreSmall [] = Unit
AreSmall (req ∷ reqs) = (get_package_size req ≤ batch_size) × AreSmall reqs

copied-length : (n : ℕ) (s r : Bytes) → copied n s ≡ some r → length r ≡ n
unfolding copied
copied-length n s r e = elim (Bool-cases (ltb (length s) n)) [
  | inl b ↦ ground (arith, b, e)
  | inr b ↦ ground (arith, b, e, length-take n s)
]

set_package-length :
    (ks vs : ℕ) (key val : Bytes)
    → length (set_package ks vs key val) ≡ 32 + length key + length val
unfolding set_package
set_package-length ks vs key val = omega (arith, length-append key val)

get_package-length : (ks : ℕ) (key : Bytes) → length (get_package ks key) ≡ 24 + length key
unfolding get_package
get_package-length ks key = omega arith

con_set-length :
    (req : YcsbRequest Bytes) (p : Bytes) → con_set req ≡ some p → length p ≡ 32 + req.ks + req.vs
unfolding con_set
con_set-length req p e = elim (Option-cases (copied req.ks (strdup req.key))) [
  | inl n ↦ ground (arith, n, e)
  | inr (key, k) ↦ elim (Option-cases (copied req.vs (value_of req.val))) [
    | inl n ↦ ground (arith, n, k, e)
    | inr (val, v) ↦ ground (
      arith,
      k,
      v,
      e,
      copied-length req.ks (strdup req.key) key k,
      copied-length req.vs (value_of req.val) val v,
      set_package-length req.ks req.vs key val,
    )
  ]
]

con_get-length :
    (req : YcsbRequest Bytes) (p : Bytes) → con_get req ≡ some p → length p ≡ 24 + req.ks
unfolding con_get
con_get-length req p e = elim (Option-cases (copied req.ks (strdup req.key))) [
  | inl n ↦ ground (arith, n, e)
  | inr (key, k) ↦
      ground
        (arith, k, e, copied-length req.ks (strdup req.key) key k, get_package-length req.ks key)
]

untouched-length : length untouched ≡ batch_size
unfolding untouched
untouched-length = length-replicate {A = ℕ} batch_size 0

con_package-length :
    (req : YcsbRequest Bytes) (p : Bytes)
    → con_package req ≡ some p
    → length p ≡ get_package_size req
unfolding con_package get_package_size
con_package-length req p e = go req.op refl
  where
    go : (op : YcsbOperator) → req.op ≡ op → length p ≡ get_package_size req
    go lookup o = ground (arith, o, e, con_get-length req p)
    go insert o = ground (arith, o, e, con_set-length req p)
    go update o = ground (arith, o, e, con_set-length req p)
    go erase o = ground (arith, o, e, untouched-length)
    go scan o = ground (arith, o, e, untouched-length)

-- The loop adds batches to `database` that hold what the batch has already and then `bytes`.
pub record Adds (database : List SendBatch) (bytes : Bytes) (r : Packed) : Type 0 where
  pub added : List SendBatch
  pub done : r ≡ packed (database ++ added)
  pub in_order : batch_bytes added ≡ bytes
  pub sized : AreSized added

abbrev PacksAll : List (YcsbRequest Bytes) → Bytes → Type 0
PacksAll reqs bytes =
    (fuel : ℕ) (buf : Bytes) (offset : ℕ) (database : List SendBatch)
    → 2 * length reqs < fuel
    → offset ≡ length buf
    → offset ≤ batch_size
    → Adds database (buf ++ bytes) (con_loop fuel reqs buf offset database)

-- A request that fits.
packs_here :
    (req : YcsbRequest Bytes) (reqs : List (YcsbRequest Bytes)) (p rest : Bytes)
    → con_package req ≡ some p
    → PacksAll reqs rest
    → (fuel : ℕ) (buf : Bytes) (offset : ℕ) (database : List SendBatch) → 2 * length reqs < fuel
    → offset ≡ length buf
    → offset + get_package_size req ≤ batch_size
    → Adds database (buf ++ (p ++ rest)) (con_loop (suc fuel) (req ∷ reqs) buf offset database)
unfolding con_loop
packs_here req reqs p rest e ih fuel buf offset database lt o fits =
    let step : con_loop (suc fuel) (req ∷ reqs) buf offset database
        ≡ con_loop fuel reqs (buf ++ p) (offset + get_package_size req) database =
      ground (arith, e, le→ltb batch_size (offset + get_package_size req)) in
    let n : offset + get_package_size req ≡ length (buf ++ p) =
      omega (arith, length-append buf p, con_package-length req p e) in
    rw (step, sym (append_assoc buf p rest))
      (ih fuel (buf ++ p) (offset + get_package_size req) database lt n fits)

packages-nil : (bytes : Bytes) → packages [] ≡ some bytes → [] ≡ bytes
unfolding packages
packages-nil bytes e = ground (arith, e)

packages-cons :
    (req : YcsbRequest Bytes) (reqs : List (YcsbRequest Bytes)) (bytes : Bytes)
    → packages (req ∷ reqs) ≡ some bytes
    → (p : Bytes) × (rest : Bytes) × (con_package req ≡ some p)
      × (packages reqs ≡ some rest)
      × (bytes ≡ p ++ rest)
unfolding packages
packages-cons req reqs bytes e = elim (Option-cases (con_package req)) [
  | inl n ↦ absurd (ground (arith, n, e))
  | inr (p, c) ↦ elim (Option-cases (packages reqs)) [
    | inl n ↦ absurd (ground (arith, n, c, e))
    | inr (rest, r) ↦ (p, rest, c, r, ground (arith, c, r, e))
  ]
]

flushed :
    (req : YcsbRequest Bytes) (reqs : List (YcsbRequest Bytes)) (fuel : ℕ) (buf : Bytes)
    (offset : ℕ) (database : List SendBatch)
    → ltb batch_size (offset + get_package_size req) ≡ true
    → con_loop (suc fuel) (req ∷ reqs) buf offset database
      ≡ con_loop fuel (req ∷ reqs) [] 0 (database ++ (record { buf = buf; size = offset } ∷ []))
unfolding con_loop
flushed req reqs fuel buf offset database over = ground (arith, over)

-- One more batch in front.
Adds-flushed :
    (database : List SendBatch) (b : SendBatch) (bytes : Bytes) (r : Packed)
    → b.size ≡ length b.buf
    → b.size ≤ batch_size
    → Adds (database ++ (b ∷ [])) bytes r
    → Adds database (b.buf ++ bytes) r
Adds-flushed database b bytes r o fits a = record {
  added = b ∷ a.added;
  done = a.done ∙ ap packed (append_assoc database (b ∷ []) a.added);
  in_order = ap (λ rest. b.buf ++ rest) a.in_order;
  sized = (o, fits, a.sized);
}

packs_nil : PacksAll [] []
unfolding con_loop
packs_nil zero buf offset database lt o fits = absurd (omega arith)
packs_nil (suc fuel) buf offset database lt o fits = record {
  added = record { buf = buf; size = offset } ∷ [];
  done = refl;
  in_order = refl;
  sized = (o, fits, tt);
}

packs_cons :
    (req : YcsbRequest Bytes) (reqs : List (YcsbRequest Bytes)) (p rest : Bytes)
    → con_package req ≡ some p
    → get_package_size req ≤ batch_size
    → PacksAll reqs rest
    → PacksAll (req ∷ reqs) (p ++ rest)
packs_cons req reqs p rest e small ih zero buf offset database lt o fits = absurd (omega arith)
packs_cons req reqs p rest e small ih (suc zero) buf offset database lt o fits =
    absurd (omega arith)
packs_cons req reqs p rest e small ih (suc (suc fuel)) buf offset database lt o fits =
    elim (Bool-cases (ltb batch_size (offset + get_package_size req))) [
      | inl over ↦ rw (flushed req reqs (suc fuel) buf offset database over) (
          Adds-flushed database (record { buf = buf; size = offset }) (p ++ rest) _ o fits
            (packs_here req reqs p rest e ih fuel [] 0
              (database ++ (record { buf = buf; size = offset } ∷ [])) (omega arith) refl
              (omega arith)))
      | inr under ↦
          packs_here req reqs p rest e ih (suc fuel) buf offset database (omega arith) o
            (ground (arith, under))
    ]

packs_all :
    (reqs : List (YcsbRequest Bytes)) (bytes : Bytes)
    → packages reqs ≡ some bytes
    → AreSmall reqs
    → PacksAll reqs bytes
packs_all [] bytes e s = subst (PacksAll []) (packages-nil bytes e) packs_nil
packs_all (req ∷ reqs) bytes e s =
    let (p, rest, c, r, b) = packages-cons req reqs bytes e in
    rw b (packs_cons req reqs p rest c s.0 (packs_all reqs rest r s.1))

-- Requests that are each built and small enough: with two rounds for each and one more, `con_database`
-- returns batches, each with its size and not above `batch_size`, that hold the packages of all requests
-- in order.
pub con_database-packages :
    (fuel : ℕ) (loads : List (YcsbRequest Bytes)) (bytes : Bytes)
    → packages loads ≡ some bytes
    → AreSmall loads
    → 2 * length loads < fuel
    → (database : List SendBatch) × (con_database fuel loads ≡ packed database)
      × (batch_bytes database ≡ bytes)
      × AreSized database
unfolding con_database
con_database-packages fuel loads bytes e s lt =
    let a = packs_all loads bytes e s fuel [] 0 [] lt refl (omega arith) in
    (a.added, a.done, a.in_order, a.sized)

-- A request whose package is larger than a batch: the loop adds empty batches for ever.
pub con_loop-oversized :
    (fuel : ℕ) (req : YcsbRequest Bytes) (reqs : List (YcsbRequest Bytes)) (buf : Bytes)
    (offset : ℕ) (database : List SendBatch)
    → batch_size < get_package_size req
    → con_loop fuel (req ∷ reqs) buf offset database ≡ out_of_fuel
unfolding con_loop
con_loop-oversized zero req reqs buf offset database large = refl
con_loop-oversized (suc fuel) req reqs buf offset database large =
    flushed req reqs fuel buf offset database
      (lt→ltb batch_size (offset + get_package_size req) (omega arith))
    ∙ con_loop-oversized fuel req reqs [] 0 (database ++ (record { buf = buf; size = offset } ∷ []))
        large
