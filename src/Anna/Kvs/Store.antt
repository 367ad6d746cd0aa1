-- ===== src/Anna/Kvs/Store.antt =====
-- KVStore of src/dist/anna/include/kvs/base_kv_store.hpp: puts, sequences of puts, and gets.
use mathlib.Core.List.{Permᴰ}
use testbed.Prelude.{
  ◌≡◌, refl, sym, subst, ap, ◌∙◌, false, Option, some, none, List, [], ◌∷◌, arith, Bytes, bytes_eq,
  bytes_eq_iff, if◌then◌else◌, Bool-cases, Option-cases, inl, inr,
}
use testbed.Anna.Lattice.Interface.{Lattice}
use testbed.Anna.Lattice.MapLattice.{StringMap, find, contains, update, at}
use testbed.Anna.Lattice.MapLattice.Laws.{mapped, find-update, IsSame, missing, same}
use testbed.Anna.Kvs.{kvs_put, kvs_get, AnnaError}

-- The value that a reader of the key sees.
unfoldable pub value_or {ℓ} : {V : Type ℓ} → V → Option V → V
value_or d none = d
value_or d (some v) = v

-- The puts of a list, the first one first.
unfoldable pub puts {ℓ} : {V : Type ℓ} → Lattice V → List (Bytes × V) → StringMap V → StringMap V
puts l [] db = db
puts l ((k, v) ∷ rest) db = puts l rest (kvs_put l k v db)

kvs_put-missing {ℓ} :
    {V : Type ℓ} (l : Lattice V) (k : Bytes) (v : V) (db : StringMap V)
    → find k db ≡ none
    → kvs_put l k v db ≡ update k (λ element. l.merge element v) ((k, l.bottom) ∷ db)
unfolding kvs_put at
kvs_put-missing l k v db n = ground arith

kvs_put-there {ℓ} :
    {V : Type ℓ} (l : Lattice V) (k : Bytes) (v a : V) (db : StringMap V)
    → find k db ≡ some a
    → kvs_put l k v db ≡ update k (λ element. l.merge element v) db
unfolding kvs_put at
kvs_put-there l k v a db n = ground arith

-- `put` merges the value into what its key had, the default value if nothing, and changes no other key.
pub find-kvs_put {ℓ} :
    {V : Type ℓ} (l : Lattice V) (k j : Bytes) (v : V) (db : StringMap V)
    → find j (kvs_put l k v db)
      ≡ (if bytes_eq k j then some (l.merge (value_or l.bottom (find j db)) v) else find j db)
unfolding find mapped value_or
find-kvs_put l k j v db = elim (Option-cases (find k db)) [
  | inl n ↦ elim (Bool-cases (bytes_eq k j)) [
    | inl q ↦
        rw
          (
            kvs_put-missing l k v db n,
            find-update k j (λ element. l.merge element v) ((k, l.bottom) ∷ db),
            q,
            sym (same k j (λ x. find x db) q),
            n,
          )
          refl
    | inr q ↦
        rw
          (
            kvs_put-missing l k v db n,
            find-update k j (λ element. l.merge element v) ((k, l.bottom) ∷ db),
            q,
          )
          refl
  ]
  | inr (a, n) ↦ elim (Bool-cases (bytes_eq k j)) [
    | inl q ↦
        rw
          (
            kvs_put-there l k v a db n,
            find-update k j (λ element. l.merge element v) db,
            q,
            sym (same k j (λ x. find x db) q),
            n,
          )
          refl
    | inr q ↦
        rw (kvs_put-there l k v a db n, find-update k j (λ element. l.merge element v) db, q) refl
  ]
]

IsSame-refl {ℓ} : {V : Type ℓ} (m : StringMap V) → IsSame m m
unfolding IsSame
IsSame-refl m = λ k. refl

IsSame-trans {ℓ} : {V : Type ℓ} (a b c : StringMap V) → IsSame a b → IsSame b c → IsSame a c
unfolding IsSame
IsSame-trans a b c f g = λ k. f k ∙ g k

module _ {ℓ} {V : Type ℓ} (l : Lattice V) where
  kvs_put-IsSame :
      (k : Bytes) (v : V) (m e : StringMap V)
      → IsSame m e
      → IsSame (kvs_put l k v m) (kvs_put l k v e)
  unfolding IsSame
  kvs_put-IsSame k v m e h j = rw (find-kvs_put l k j v m, find-kvs_put l k j v e, h j) refl

  puts-IsSame :
      (ops : List (Bytes × V)) (m e : StringMap V)
      → IsSame m e
      → IsSame (puts l ops m) (puts l ops e)
  unfolding puts
  puts-IsSame [] m e h = h
  puts-IsSame ((k, v) ∷ ops) m e h =
      puts-IsSame ops (kvs_put l k v m) (kvs_put l k v e) (kvs_put-IsSame k v m e h)

  kvs_put-swap :
      ((x y z : V) → l.merge (l.merge x y) z ≡ l.merge (l.merge x z) y)
      → (k j : Bytes) (v w : V) (db : StringMap V)
      → IsSame (kvs_put l k v (kvs_put l j w db)) (kvs_put l j w (kvs_put l k v db))
  unfolding IsSame value_or
  kvs_put-swap h k j v w db i =
      rw
        (
          find-kvs_put l k i v (kvs_put l j w db),
          find-kvs_put l j i w db,
          find-kvs_put l j i w (kvs_put l k v db),
          find-kvs_put l k i v db,
        )
        (elim (Bool-cases (bytes_eq k i)) [
          | inl p ↦ elim (Bool-cases (bytes_eq j i)) [
            | inl q ↦ rw (p, q) (ap some (h (value_or l.bottom (find i db)) w v))
            | inr q ↦ rw (p, q) refl
          ]
          | inr p ↦
              rw p (elim (Bool-cases (bytes_eq j i)) [ inl q ↦ rw q refl | inr q ↦ rw q refl ])
        ])

  puts-Permᴰ :
      ((x y z : V) → l.merge (l.merge x y) z ≡ l.merge (l.merge x z) y)
      → {xs ys : List (Bytes × V)} → Permᴰ xs ys
      → (m e : StringMap V) → IsSame m e
      → IsSame (puts l xs m) (puts l ys e)
  unfolding puts
  puts-Permᴰ h Permᴰ.nil m e s = s
  puts-Permᴰ h (Permᴰ.cons {a = (k, v)} {b = b} {l₁ = xs} {l₂ = ys} q p) m e s =
      subst (λ c. IsSame (puts l xs (kvs_put l k v m)) (puts l ys (kvs_put l c.0 c.1 e))) q
        (puts-Permᴰ h p (kvs_put l k v m) (kvs_put l k v e) (kvs_put-IsSame k v m e s))
  puts-Permᴰ h (Permᴰ.swap {a = (k, v)} {b = (j, w)} {a' = a'} {l = xs} q p) m e s =
      subst
        (λ c.
          IsSame (puts l xs (kvs_put l j w (kvs_put l k v m)))
            (puts l xs (kvs_put l c.0 c.1 (kvs_put l a'.0 a'.1 e))))
        q
        (subst
          (λ c.
            IsSame (puts l xs (kvs_put l j w (kvs_put l k v m)))
              (puts l xs (kvs_put l k v (kvs_put l c.0 c.1 e))))
          p
          (puts-IsSame xs (kvs_put l j w (kvs_put l k v m)) (kvs_put l k v (kvs_put l j w e)) (
            IsSame-trans _ _ _
              (kvs_put-IsSame j w (kvs_put l k v m) (kvs_put l k v e) (kvs_put-IsSame k v m e s))
              (kvs_put-swap h j k w v e))))
  puts-Permᴰ h (Permᴰ.trans p q) m e s =
      IsSame-trans _ _ _ (puts-Permᴰ h p m e s) (puts-Permᴰ h q e e (IsSame-refl e))

  -- Replicas that apply the same puts, each in an order of its own, have the same value for every key,
  -- if the merge of values is commutative and associative.
  pub puts_agree :
      ((x y : V) → l.merge x y ≡ l.merge y x)
      → ((x y z : V) → l.merge (l.merge x y) z ≡ l.merge x (l.merge y z))
      → (xs ys : List (Bytes × V)) → Permᴰ xs ys
      → (db : StringMap V) → IsSame (puts l xs db) (puts l ys db)
  puts_agree comm assoc xs ys p db =
      puts-Permᴰ (λ x y z. assoc x y z ∙ ap (l.merge x) (comm y z) ∙ sym (assoc x z y)) p db db
        (IsSame-refl db)

pub kvs_get-missing {ℓ} :
    {V : Type ℓ} (l : Lattice V) (k : Bytes) (error : AnnaError) (db : StringMap V)
    → find k db ≡ none
    → kvs_get l k error db ≡ ((l.bottom, AnnaError.key_dne), (k, l.bottom) ∷ db)
unfolding contains kvs_get at
kvs_get-missing l k error db n = ground arith

pub kvs_get-there {ℓ} :
    {V : Type ℓ} (l : Lattice V) (k : Bytes) (a : V) (error : AnnaError) (db : StringMap V)
    → find k db ≡ some a
    → kvs_get l k error db ≡ ((a, error), db)
unfolding contains kvs_get at
kvs_get-there l k a error db n = ground arith

pub find-cons {ℓ} :
    {V : Type ℓ} (k : Bytes) (v : V) (m : StringMap V) → find k ((k, v) ∷ m) ≡ some v
unfolding find
find-cons k v m = rw ((bytes_eq_iff k k).1 refl) refl

-- The first `get` of a missing key reports key_dne and stores the default value, so that the second
-- finds the key and reports no error.
pub kvs_get-again {ℓ} :
    {V : Type ℓ} (l : Lattice V) (k : Bytes) (db : StringMap V)
    → contains k db ≡ false
    → let first = kvs_get l k AnnaError.no_error db in
      (first.0 ≡ (l.bottom, AnnaError.key_dne))
      × (kvs_get l k AnnaError.no_error first.1 ≡ ((l.bottom, AnnaError.no_error), first.1))
kvs_get-again l k db h =
    let first = kvs_get-missing l k AnnaError.no_error db (missing k db h) in
    let next =
      kvs_get-there l k l.bottom AnnaError.no_error ((k, l.bottom) ∷ db)
        (find-cons k l.bottom db) in
    rw first (refl, next)
