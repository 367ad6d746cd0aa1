-- ===== src/Anna/Lattice/MapLattice/Laws.antt =====
-- Lookups in a merged MapLattice of core_lattices.hpp, and its distinct keys.
use testbed.Prelude.{
  ◌≡◌, refl, sym, ap, ◌∙◌, true, false, Option, some, none, [], ◌∷◌, arith, Bytes, bytes_eq,
  bytes_eq_iff, if◌then◌else◌, Bool-cases, Option-cases, inl, inr,
}
use testbed.Anna.Lattice.Interface.{Lattice}
use testbed.Anna.Lattice.MapLattice.{StringMap, find, contains, update, insert_pair, map_do_merge}

-- No key twice.
unfoldable pub IsKeyed {ℓ} : {V : Type ℓ} → StringMap V → Type 0
IsKeyed [] = Unit
IsKeyed ((k, v) ∷ m) = (contains k m ≡ false) × IsKeyed m

pub missing {ℓ} :
    {V : Type ℓ} (k : Bytes) (m : StringMap V) → contains k m ≡ false → find k m ≡ none
unfolding contains
missing k m h = ground arith

-- The value of a key after a merge: both sides' values merged where both have one.
unfoldable pub joined {ℓ} : {V : Type ℓ} → Lattice V → Option V → Option V → Option V
joined l none b = b
joined l (some x) none = some x
joined l (some x) (some y) = some (l.merge x y)

pub same {ℓ} : {A : Type ℓ} (x y : Bytes) (f : Bytes → A) → bytes_eq x y ≡ true → f x ≡ f y
same x y f q = ap f ((bytes_eq_iff x y).0 q)

unfoldable pub mapped {ℓ} : {V : Type ℓ} → (V → V) → Option V → Option V
mapped f none = none
mapped f (some x) = some (f x)

pub find-update {ℓ} :
    {V : Type ℓ} (k j : Bytes) (f : V → V) (m : StringMap V)
    → find j (update k f m) ≡ (if bytes_eq k j then mapped f (find j m) else find j m)
unfolding find update mapped
find-update k j f [] = ground arith
find-update k j f ((i, v) ∷ m) = elim (Bool-cases (bytes_eq i k)) [
  | inl e ↦ elim (Bool-cases (bytes_eq k j)) [
    | inl q ↦ rw (e, same i k (λ x. bytes_eq x j) e, q) refl
    | inr q ↦ rw (e, same i k (λ x. bytes_eq x j) e, q) refl
  ]
  | inr e ↦ elim (Bool-cases (bytes_eq k j)) [
    | inl q ↦ rw (e, find-update k j f m, q, sym (same k j (bytes_eq i) q), e) refl
    | inr q ↦ rw (e, find-update k j f m, q) refl
  ]
]

insert_pair-missing {ℓ} :
    {V : Type ℓ} (l : Lattice V) (k : Bytes) (v : V) (m : StringMap V)
    → find k m ≡ none
    → insert_pair l k v m ≡ (k, v) ∷ m
unfolding contains insert_pair
insert_pair-missing l k v m n = ground arith

insert_pair-there {ℓ} :
    {V : Type ℓ} (l : Lattice V) (k : Bytes) (v a : V) (m : StringMap V)
    → find k m ≡ some a
    → insert_pair l k v m ≡ update k (λ there. l.merge there v) m
unfolding contains insert_pair
insert_pair-there l k v a m n = ground arith

find-insert_pair {ℓ} :
    {V : Type ℓ} (l : Lattice V) (k j : Bytes) (v : V) (m : StringMap V)
    → find j (insert_pair l k v m)
      ≡ (if bytes_eq k j then joined l (find j m) (some v) else find j m)
unfolding find joined mapped
find-insert_pair l k j v m = elim (Option-cases (find k m)) [
  | inl n ↦ elim (Bool-cases (bytes_eq k j)) [
    | inl q ↦ rw (insert_pair-missing l k v m n, q, sym (same k j (λ x. find x m) q), n) refl
    | inr q ↦ rw (insert_pair-missing l k v m n, q) refl
  ]
  | inr (a, n) ↦ elim (Bool-cases (bytes_eq k j)) [
    | inl q ↦
        rw
          (
            insert_pair-there l k v a m n,
            find-update k j (λ there. l.merge there v) m,
            q,
            sym (same k j (λ x. find x m) q),
            n,
          )
          refl
    | inr q ↦
        rw (insert_pair-there l k v a m n, find-update k j (λ there. l.merge there v) m, q) refl
  ]
]

joined-none {ℓ} : {V : Type ℓ} (l : Lattice V) (a : Option V) → joined l a none ≡ a
unfolding joined
joined-none l none = refl
joined-none l (some x) = refl

-- After a merge with a map of distinct keys, a key has both sides' values merged if both have one, the
-- one there is if one has, and none if neither.
pub find-map_do_merge {ℓ} :
    {V : Type ℓ} (l : Lattice V) (m e : StringMap V) (k : Bytes)
    → IsKeyed e
    → find k (map_do_merge l m e) ≡ joined l (find k m) (find k e)
unfolding IsKeyed find map_do_merge joined
find-map_do_merge l m [] k d = sym (joined-none l (find k m))
find-map_do_merge l m ((j, v) ∷ e) k d =
    rw (find-map_do_merge l (insert_pair l j v m) e k d.1, find-insert_pair l j k v m)
      (elim (Bool-cases (bytes_eq j k)) [
        | inl q ↦
            rw (q, sym (same j k (λ x. find x e) q), missing j e d.0)
              (joined-none l (joined l (find k m) (some v)))
        | inr q ↦ rw q refl
      ])

-- A map with distinct keys keeps them so.
contains-update {ℓ} :
    {V : Type ℓ} (k j : Bytes) (f : V → V) (m : StringMap V)
    → contains j (update k f m) ≡ contains j m
unfolding contains mapped
contains-update k j f m = elim (Option-cases (find j m)) [
  | inl n ↦ elim (Bool-cases (bytes_eq k j)) [
    | inl q ↦ ground (arith, find-update k j f m)
    | inr q ↦ ground (arith, find-update k j f m)
  ]
  | inr (a, n) ↦ elim (Bool-cases (bytes_eq k j)) [
    | inl q ↦ ground (arith, find-update k j f m)
    | inr q ↦ ground (arith, find-update k j f m)
  ]
]

update-IsKeyed {ℓ} :
    {V : Type ℓ} (k : Bytes) (f : V → V) (m : StringMap V) → IsKeyed m → IsKeyed (update k f m)
unfolding IsKeyed update
update-IsKeyed k f [] d = d
update-IsKeyed k f ((j, v) ∷ m) d = elim (Bool-cases (bytes_eq j k)) [
  | inl e ↦ rw e d
  | inr e ↦ rw e (contains-update k j f m ∙ d.0, update-IsKeyed k f m d.1)
]

insert_pair-IsKeyed {ℓ} :
    {V : Type ℓ} (l : Lattice V) (k : Bytes) (v : V) (m : StringMap V)
    → IsKeyed m
    → IsKeyed (insert_pair l k v m)
unfolding IsKeyed insert_pair
insert_pair-IsKeyed l k v m d = elim (Bool-cases (contains k m)) [
  | inl e ↦ rw e (update-IsKeyed k (λ there. l.merge there v) m d)
  | inr e ↦ rw e (e, d)
]

pub map_do_merge-IsKeyed {ℓ} :
    {V : Type ℓ} (l : Lattice V) (m e : StringMap V) → IsKeyed m → IsKeyed (map_do_merge l m e)
unfolding map_do_merge
map_do_merge-IsKeyed l m [] d = d
map_do_merge-IsKeyed l m ((k, v) ∷ e) d =
    map_do_merge-IsKeyed l (insert_pair l k v m) e (insert_pair-IsKeyed l k v m d)

-- Two maps with the same values, in whatever order they keep them.
unfoldable pub IsSame {ℓ} : {V : Type ℓ} → StringMap V → StringMap V → Type ℓ
IsSame m e = (k : Bytes) → find k m ≡ find k e

joined_comm {ℓ} :
    {V : Type ℓ} (l : Lattice V)
    → ((x y : V) → l.merge x y ≡ l.merge y x)
    → (a b : Option V) → joined l a b ≡ joined l b a
unfolding joined
joined_comm l h none none = refl
joined_comm l h none (some y) = refl
joined_comm l h (some x) none = refl
joined_comm l h (some x) (some y) = ap some (h x y)

joined_assoc {ℓ} :
    {V : Type ℓ} (l : Lattice V)
    → ((x y z : V) → l.merge (l.merge x y) z ≡ l.merge x (l.merge y z))
    → (a b c : Option V) → joined l (joined l a b) c ≡ joined l a (joined l b c)
unfolding joined
joined_assoc l h none b c = refl
joined_assoc l h (some x) none c = refl
joined_assoc l h (some x) (some y) none = refl
joined_assoc l h (some x) (some y) (some z) = ap some (h x y z)

-- The merge of two maps with distinct keys gives every key the same value in either order, if the merge
-- of values is commutative.
pub map_do_merge_comm {ℓ} :
    {V : Type ℓ} (l : Lattice V)
    → ((x y : V) → l.merge x y ≡ l.merge y x)
    → (m e : StringMap V) → IsKeyed m
    → IsKeyed e
    → IsSame (map_do_merge l m e) (map_do_merge l e m)
unfolding IsSame
map_do_merge_comm l h m e d f k =
    rw (find-map_do_merge l m e k f, find-map_do_merge l e m k d)
      (joined_comm l h (find k m) (find k e))

-- The merge of maps, the later two with distinct keys, gives every key the same value however it is
-- grouped, if the merge of values is associative.
pub map_do_merge_assoc {ℓ} :
    {V : Type ℓ} (l : Lattice V)
    → ((x y z : V) → l.merge (l.merge x y) z ≡ l.merge x (l.merge y z))
    → (a b c : StringMap V) → IsKeyed b
    → IsKeyed c
    → IsSame (map_do_merge l (map_do_merge l a b) c) (map_do_merge l a (map_do_merge l b c))
unfolding IsSame
map_do_merge_assoc l h a b c d f k =
    rw
      (
        find-map_do_merge l (map_do_merge l a b) c k f,
        find-map_do_merge l a b k d,
        find-map_do_merge l a (map_do_merge l b c) k (map_do_merge-IsKeyed l b c d),
        find-map_do_merge l b c k f,
      )
      (joined_assoc l h (find k a) (find k b) (find k c))
