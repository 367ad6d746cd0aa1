-- ===== src/Anna/Kvs/Sets.antt =====
-- Replicas of KVStore, src/dist/anna/include/kvs/base_kv_store.hpp, whose values are sets.
use mathlib.Core.List.{Permᴰ}
use testbed.Prelude.{
  ◌≡◌, refl, sym, ap, ◌∙◌, Bool, false, ◌||◌, ◌&&◌, List, [], ◌∷◌, Bytes, bytes_eq, Bool-cases, inl,
  inr, arith,
}
use testbed.Anna.Lattice.SetLattice.{StringSet, elem}
use testbed.Anna.Lattice.SetLattice.Laws.{elem-set_do_merge}
use testbed.Anna.Lattice.MapLattice.{StringMap, find}
use testbed.Anna.Kvs.{set_lattice, kvs_put}
use testbed.Anna.Kvs.Store.{value_or, puts, find-kvs_put}

-- What a reader of the key sees.
unfoldable pub set_of : Bytes → StringMap StringSet → StringSet
set_of key db = value_or [] (find key db)

-- Whether one of the puts is of the key and has the element in its set.
unfoldable pub put_in : Bytes → Bytes → List (Bytes × StringSet) → Bool
put_in key element [] = false
put_in key element ((k, v) ∷ ops) = (bytes_eq k key && elem element v) || put_in key element ops

elem-kvs_put :
    (key element k : Bytes) (v : StringSet) (db : StringMap StringSet)
    → elem element (set_of key (kvs_put set_lattice k v db))
      ≡ (elem element (set_of key db) || (bytes_eq k key && elem element v))
unfolding set_of value_or
elem-kvs_put key element k v db = elim (Bool-cases (bytes_eq k key)) [
  | inl e ↦
      rw (find-kvs_put set_lattice k key v db, e)
        (elem-set_do_merge (value_or [] (find key db)) v element)
  | inr e ↦ rw (find-kvs_put set_lattice k key v db, e) (ground arith)
]

-- A key's set is what it was and what has been put.
elem-puts :
    (key element : Bytes) (ops : List (Bytes × StringSet)) (db : StringMap StringSet)
    → elem element (set_of key (puts set_lattice ops db))
      ≡ (elem element (set_of key db) || put_in key element ops)
unfolding puts put_in
elem-puts key element [] db = ground arith
elem-puts key element ((k, v) ∷ ops) db =
    elem-puts key element ops (kvs_put set_lattice k v db)
    ∙ rw (elem-kvs_put key element k v db) (ground arith)

or_swap : (a b c : Bool) → (a || (b || c)) ≡ (b || (a || c))
or_swap a b c = ground arith

put_in-Permᴰ :
    (key element : Bytes) {xs ys : List (Bytes × StringSet)}
    → Permᴰ xs ys
    → put_in key element xs ≡ put_in key element ys
unfolding put_in
put_in-Permᴰ key element Permᴰ.nil = refl
put_in-Permᴰ key element (Permᴰ.cons {a = a} {b = b} {l₁ = xs} {l₂ = ys} q p) =
    ap (λ r. (bytes_eq a.0 key && elem element a.1) || r) (put_in-Permᴰ key element p)
    ∙ ap (λ c. (bytes_eq c.0 key && elem element c.1) || put_in key element ys) q
put_in-Permᴰ key element (Permᴰ.swap {a = a} {b = b} {a' = a'} {b' = b'} {l = xs} q p) =
    or_swap (has_it a) (has_it b) (put_in key element xs)
    ∙ ap (λ c. has_it c || (has_it a || put_in key element xs)) p
    ∙ ap (λ c. has_it a' || (has_it c || put_in key element xs)) q
  where
    has_it : Bytes × StringSet → Bool
    has_it c = bytes_eq c.0 key && elem element c.1
put_in-Permᴰ key element (Permᴰ.trans p q) = put_in-Permᴰ key element p ∙ put_in-Permᴰ key element q

-- Replicas that take the same puts of sets, each in an order of its own, have the same elements for every
-- key: those that the key had and those of its puts.
pub puts-sets :
    (xs ys : List (Bytes × StringSet)) (db : StringMap StringSet)
    → Permᴰ xs ys
    → (key element : Bytes)
    → (elem element (set_of key (puts set_lattice xs db))
        ≡ elem element (set_of key (puts set_lattice ys db)))
      × (elem element (set_of key (puts set_lattice xs db))
          ≡ (elem element (set_of key db) || put_in key element xs))
puts-sets xs ys db p key element = (
  elem-puts key element xs db
      ∙ ap (λ b. elem element (set_of key db) || b) (put_in-Permᴰ key element p)
      ∙ sym (elem-puts key element ys db),
  elem-puts key element xs db,
)
