-- ===== src/Anna/Lattice/SetLattice/Laws.antt =====
-- Membership in the results of the operations of SetLattice of core_lattices.hpp, and distinct elements.
use testbed.Prelude.{
  ◌≡◌, refl, sym, ap, Bool, true, false, ◌&&◌, ◌||◌, [], ◌∷◌, arith, Bytes, bytes_eq, bytes_eq_iff,
  Bool-cases, inl, inr,
}
use testbed.Anna.Lattice.SetLattice.{
  StringSet, elem, set_insert, set_do_merge, intersect_one, intersect_from, set_intersect,
  project_from, set_project,
}

-- No element twice.
abbrev pub IsDistinct : StringSet → Type 0
IsDistinct [] = Unit
IsDistinct (x ∷ s) = (elem x s ≡ false) × IsDistinct s

-- Two equal strings pass the same tests.
pub same : (x y : Bytes) (f : Bytes → Bool) → bytes_eq x y ≡ true → f x ≡ f y
same x y f q = ap f ((bytes_eq_iff x y).0 q)

pub elem-insert :
    (x y : Bytes) (s : StringSet) → elem y (set_insert x s) ≡ (bytes_eq x y || elem y s)
unfolding elem set_insert
elem-insert x y s = elim (Bool-cases (elem x s)) [
  | inl e ↦ elim (Bool-cases (bytes_eq x y)) [
    | inl q ↦ ground (arith, e, q, same x y (λ k. elem k s) q)
    | inr q ↦ ground (arith, e, q)
  ]
  | inr e ↦ ground (arith, e)
]

set_insert-IsDistinct : (x : Bytes) (s : StringSet) → IsDistinct s → IsDistinct (set_insert x s)
unfolding set_insert
set_insert-IsDistinct x s d = ground arith

-- The merge is the union, and keeps the elements distinct.
pub elem-set_do_merge :
    (element e : StringSet) (y : Bytes)
    → elem y (set_do_merge element e) ≡ (elem y element || elem y e)
unfolding elem set_do_merge
elem-set_do_merge element [] y = ground arith
elem-set_do_merge element (x ∷ e) y =
    ground (arith, elem-set_do_merge (set_insert x element) e y, elem-insert x y element)

pub set_do_merge-IsDistinct :
    (element e : StringSet) → IsDistinct element → IsDistinct (set_do_merge element e)
unfolding set_do_merge
set_do_merge-IsDistinct element [] d = d
set_do_merge-IsDistinct element (x ∷ e) d =
    set_do_merge-IsDistinct (set_insert x element) e (set_insert-IsDistinct x element d)

elem-intersect_one :
    (x y : Bytes) (s res : StringSet)
    → elem y (intersect_one x s res) ≡ ((bytes_eq x y && elem y s) || elem y res)
unfolding elem intersect_one
elem-intersect_one x y [] res = ground arith
elem-intersect_one x y (z ∷ s) res = elim (Bool-cases (bytes_eq z x)) [
  | inl e ↦
      rw
        (
          e,
          elem-intersect_one x y s (set_insert z res),
          elem-insert z y res,
          same z x (λ k. bytes_eq k y) e,
        )
        ground arith
  | inr e ↦ elim (Bool-cases (bytes_eq x y)) [
    | inl q ↦ rw (e, elem-intersect_one x y s res, sym (same x y (bytes_eq z) q), e) refl
    | inr q ↦ rw (e, elem-intersect_one x y s res, q) refl
  ]
]

elem-intersect_from :
    (element s res : StringSet) (y : Bytes)
    → elem y (intersect_from element s res) ≡ ((elem y element && elem y s) || elem y res)
unfolding elem intersect_from
elem-intersect_from element [] res y = ground arith
elem-intersect_from element (x ∷ s) res y = ground (
  arith,
  elem-intersect_from element s (intersect_one x element res) y,
  elem-intersect_one x y element res,
)

elem-project_from :
    (f : Bytes → Bool) (s res : StringSet) (y : Bytes)
    → elem y (project_from f s res) ≡ ((f y && elem y s) || elem y res)
unfolding elem project_from
elem-project_from f [] res y = ground arith
elem-project_from f (x ∷ s) res y = elim (Bool-cases (f x)) [
  | inl e ↦ elim (Bool-cases (bytes_eq x y)) [
    | inl q ↦
        rw
          (
            e,
            elem-project_from f s (set_insert x res) y,
            elem-insert x y res,
            sym (same x y f q),
            e,
          )
          ground arith
    | inr q ↦ rw (e, elem-project_from f s (set_insert x res) y, elem-insert x y res, q) refl
  ]
  | inr e ↦ elim (Bool-cases (bytes_eq x y)) [
    | inl q ↦ rw (e, elem-project_from f s res y, sym (same x y f q), e) refl
    | inr q ↦ rw (e, elem-project_from f s res y, q) refl
  ]
]

-- The intersection has exactly the elements that both sets have.
pub elem-set_intersect :
    (element s : StringSet) (y : Bytes)
    → elem y (set_intersect element s) ≡ (elem y element && elem y s)
unfolding elem set_intersect
elem-set_intersect element s y = ground (arith, elem-intersect_from element s [] y)

-- The projection has exactly the elements of the set that pass the test.
pub elem-set_project :
    (f : Bytes → Bool) (element : StringSet) (y : Bytes)
    → elem y (set_project f element) ≡ (f y && elem y element)
unfolding elem set_project
elem-set_project f element y = ground (arith, elem-project_from f element [] y)

-- Merging is associative, commutative and idempotent as far as membership can tell.
pub set_do_merge-IsLattice :
    (a b c : StringSet) (y : Bytes)
    → (elem y (set_do_merge (set_do_merge a b) c) ≡ elem y (set_do_merge a (set_do_merge b c)))
      × (elem y (set_do_merge a b) ≡ elem y (set_do_merge b a))
      × (elem y (set_do_merge a a) ≡ elem y a)
set_do_merge-IsLattice a b c y = ground (
  arith,
  elem-set_do_merge (set_do_merge a b) c y,
  elem-set_do_merge a (set_do_merge b c) y,
  elem-set_do_merge a b y,
  elem-set_do_merge b c y,
  elem-set_do_merge b a y,
  elem-set_do_merge a a y,
)
