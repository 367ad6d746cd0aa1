-- ===== src/Anna/Server/Maps.antt =====
-- Maps from strings to sets of strings, as the handlers of src/dist/anna/src/kvs change them.
-- An unordered container is a list without repetitions; `erase` takes out every entry of a key.
use testbed.Prelude.{
  ◌≡◌, refl, sym, Bool, true, false, ◌&&◌, ◌||◌, not, none, List, [], ◌∷◌, Bytes, bytes_eq, some,
  if◌then◌else◌, Bool-cases, inl, inr, arith,
}
use testbed.Anna.Lattice.Interface.{Lattice}
use testbed.Anna.Lattice.SetLattice.{StringSet, elem, set_insert}
use testbed.Anna.Lattice.SetLattice.Laws.{same, elem-insert}
use testbed.Anna.Lattice.MapLattice.{StringMap, find, update, at}
use testbed.Anna.Kvs.{set_lattice, kvs_put}
use testbed.Anna.Kvs.Store.{value_or, find-kvs_put}

unfoldable pub set_erase : Bytes → StringSet → StringSet
set_erase x [] = []
set_erase x (y ∷ s) = let rest = set_erase x s in if bytes_eq y x then rest else y ∷ rest

unfoldable pub erase_keys : List Bytes → StringSet → StringSet
erase_keys [] s = s
erase_keys (k ∷ keys) s = erase_keys keys (set_erase k s)

unfoldable pub insert_keys : List Bytes → StringSet → StringSet
insert_keys [] s = s
insert_keys (k ∷ keys) s = insert_keys keys (set_insert k s)

unfoldable pub map_erase {ℓ} : {V : Type ℓ} → Bytes → StringMap V → StringMap V
map_erase k [] = []
map_erase k ((j, v) ∷ m) = let rest = map_erase k m in if bytes_eq j k then rest else (j, v) ∷ rest

-- `m[k]`, changed in place; a missing entry is the empty set first.
unfoldable pub change : Bytes → (StringSet → StringSet) → StringMap StringSet → StringMap StringSet
change k f m = let (there, m) = at set_lattice k m in update k f m

-- What `m[k]` reads.
unfoldable pub set_at : Bytes → StringMap StringSet → StringSet
set_at k m = value_or [] (find k m)

unfoldable pub each_value : (StringSet → StringSet) → StringMap StringSet → StringMap StringSet
each_value f [] = []
each_value f ((k, s) ∷ m) = (k, f s) ∷ each_value f m

abbrev changing : (StringSet → StringSet) → Lattice StringSet
changing f = record { bottom = []; merge = λ element v. f element }

change_as_put :
    (k : Bytes) (f : StringSet → StringSet) (m : StringMap StringSet)
    → change k f m ≡ kvs_put (changing f) k [] m
unfolding change kvs_put at
change_as_put k f m = refl

pub set_at-change :
    (k j : Bytes) (f : StringSet → StringSet) (m : StringMap StringSet)
    → set_at j (change k f m) ≡ (if bytes_eq k j then f (set_at j m) else set_at j m)
unfolding set_at value_or
set_at-change k j f m =
    rw (change_as_put k f m, find-kvs_put (changing f) k j [] m) (by_key (bytes_eq k j))
  where
    by_key :
        (b : Bool)
        → value_or [] (if b then some (f (value_or [] (find j m))) else find j m)
          ≡ (if b then f (value_or [] (find j m)) else value_or [] (find j m))
    by_key true = refl
    by_key false = refl

pub elem-set_erase :
    (x y : Bytes) (s : StringSet) → elem y (set_erase x s) ≡ (not (bytes_eq x y) && elem y s)
unfolding elem set_erase
elem-set_erase x y [] = ground arith
elem-set_erase x y (z ∷ s) = elim (Bool-cases (bytes_eq z x)) [
  | inl e ↦ elim (Bool-cases (bytes_eq x y)) [
    | inl q ↦ rw (e, elem-set_erase x y s, q) refl
    | inr q ↦ rw (e, elem-set_erase x y s, q, same z x (λ k. bytes_eq k y) e, q) refl
  ]
  | inr e ↦ elim (Bool-cases (bytes_eq x y)) [
    | inl q ↦ rw (e, elem-set_erase x y s, q, sym (same x y (bytes_eq z) q), e) refl
    | inr q ↦ rw (e, elem-set_erase x y s, q) refl
  ]
]

pub elem-erase_keys :
    (keys : List Bytes) (y : Bytes) (s : StringSet)
    → elem y (erase_keys keys s) ≡ (not (elem y keys) && elem y s)
unfolding elem erase_keys
elem-erase_keys [] y s = ground arith
elem-erase_keys (k ∷ keys) y s =
    ground (arith, elem-erase_keys keys y (set_erase k s), elem-set_erase k y s)

pub elem-insert_keys :
    (keys : List Bytes) (y : Bytes) (s : StringSet)
    → elem y (insert_keys keys s) ≡ (elem y keys || elem y s)
unfolding elem insert_keys
elem-insert_keys [] y s = ground arith
elem-insert_keys (k ∷ keys) y s =
    ground (arith, elem-insert_keys keys y (set_insert k s), elem-insert k y s)

pub find-map_erase {ℓ} :
    {V : Type ℓ} (k j : Bytes) (m : StringMap V)
    → find j (map_erase k m) ≡ (if bytes_eq k j then none else find j m)
unfolding map_erase find
find-map_erase k j [] = ground arith
find-map_erase k j ((i, s) ∷ m) = elim (Bool-cases (bytes_eq i k)) [
  | inl e ↦ elim (Bool-cases (bytes_eq k j)) [
    | inl q ↦ rw (e, find-map_erase k j m, q) refl
    | inr q ↦ rw (e, find-map_erase k j m, q, same i k (λ x. bytes_eq x j) e, q) refl
  ]
  | inr e ↦ elim (Bool-cases (bytes_eq k j)) [
    | inl q ↦ rw (e, find-map_erase k j m, q, sym (same k j (bytes_eq i) q), e) refl
    | inr q ↦ rw (e, find-map_erase k j m, q) refl
  ]
]

pub set_at-map_erase :
    (k j : Bytes) (m : StringMap StringSet)
    → set_at j (map_erase k m) ≡ (if bytes_eq k j then [] else set_at j m)
unfolding set_at value_or
set_at-map_erase k j m = elim (Bool-cases (bytes_eq k j)) [
  | inl q ↦ rw (find-map_erase k j m, q) refl
  | inr q ↦ rw (find-map_erase k j m, q) refl
]

pub set_at-each_value :
    (f : StringSet → StringSet) (j : Bytes) (m : StringMap StringSet)
    → f [] ≡ []
    → set_at j (each_value f m) ≡ f (set_at j m)
unfolding set_at each_value find value_or
set_at-each_value f j [] e = sym e
set_at-each_value f j ((i, s) ∷ m) e = elim (Bool-cases (bytes_eq i j)) [
  | inl p ↦ rw p refl
  | inr p ↦ rw p (set_at-each_value f j m e)
]
