-- ===== src/Anna/Server/Redistribute/Collect.antt =====
-- What the loop over `join_gossip_map` in src/dist/anna/src/kvs/server.cpp takes from every address's set.
use testbed.Prelude.{
  ℕ, zero, suc, ◌<◌, ◌≡◌, refl, sym, ap, subst, ◌∙◌, Bool, true, false, ◌||◌, Option, some, none,
  List, [], ◌∷◌, Bytes, bytes_eq, bytes_eq_iff, length, take, take-nil, take_of_length_le, leb,
  if◌then◌else◌, Bool-cases, inl, inr, arith,
}
use testbed.Anna.Lattice.SetLattice.{StringSet, elem, set_insert}
use testbed.Anna.Lattice.SetLattice.Laws.{IsDistinct, elem-insert}
use testbed.Anna.Lattice.MapLattice.{StringMap, find, contains}
use testbed.Anna.Lattice.MapLattice.Laws.{missing}
use testbed.Anna.Kvs.Store.{value_or}
use testbed.Anna.Server.Maps.{erase_keys, set_at, elem-erase_keys}
use testbed.Anna.Server.Redistribute.{send_keys, is_empty, collect_one, collect}
use testbed.Anna.Server.Redistribute.Sent.{send_keys-first, send_keys-other, elem-nil_or}

-- A map of sets: no key twice, and no element twice in a set.
abbrev pub IsSets : StringMap StringSet → Type 0
IsSets [] = Unit
IsSets ((a, keys) ∷ m) = (contains a m ≡ false) × IsDistinct keys × IsSets m

-- More different keys than the threshold leave one that is not among the first.
later_key :
    (t : ℕ) (keys : List Bytes)
    → IsDistinct keys
    → t < length keys
    → (k : Bytes) × (elem k keys ≡ true) × (elem k (take t keys) ≡ false)
unfolding elem
later_key t [] d h = absurd (omega arith)
later_key zero (k ∷ keys) d h = (k, rw ((bytes_eq_iff k k).1 refl) refl, refl)
later_key (suc t) (k ∷ keys) d h =
    let (j, here, early) = later_key t keys d.1 (omega arith) in
    (
      j,
      ground (arith, here),
      elim (Bool-cases (bytes_eq k j)) [
        | inl e ↦
            let there = ap (λ x. elem x keys) ((bytes_eq_iff k j).0 e) in
            absurd (ground (arith, there, d.0, here))
        | inr e ↦ ground (arith, e, early)
      ],
    )

is_empty-some : (s : StringSet) (k : Bytes) → elem k s ≡ true → is_empty s ≡ false
unfolding is_empty elem
is_empty-some [] k h = cc
is_empty-some (x ∷ s) k h = refl

is_empty-none : (s : StringSet) → ((y : Bytes) → elem y s ≡ false) → is_empty s ≡ true
unfolding is_empty elem
is_empty-none [] h = refl
is_empty-none (x ∷ s) h = absurd (ground (arith, h x, (bytes_eq_iff x x).1 refl))

-- A set is used up exactly when it is not larger than the threshold.
left_over :
    (t : ℕ) (sent keys : StringSet)
    → IsDistinct keys
    → ((y : Bytes) → elem y sent ≡ elem y (take t keys))
    → is_empty (erase_keys sent keys) ≡ leb (length keys) t
left_over t sent keys d h = elim (Bool-cases (leb (length keys) t)) [
  | inl small ↦
      is_empty-none (erase_keys sent keys) (λ y.
        elem-erase_keys sent y keys
        ∙ rw (h y, take_of_length_le t keys (ground (arith, small))) (ground arith))
      ∙ sym small
  | inr large ↦
      let (k, here, late) = later_key t keys d (ground (arith, large)) in
      is_empty-some (erase_keys sent keys) k
        (elem-erase_keys sent k keys ∙ rw (h k, late, here) refl)
      ∙ sym large
]

abbrev pub fits : ℕ → Option StringSet → Bool
fits t none = false
fits t (some keys) = leb (length keys) t

apart :
    (a o : Bytes) (keys : StringSet) (pairs : StringMap StringSet)
    → find o ((a, keys) ∷ pairs) ≡ none
    → (bytes_eq a o ≡ false) × (find o pairs ≡ none)
unfolding find
apart a o keys pairs h = elim (Bool-cases (bytes_eq a o)) [
  | inl e ↦ absurd (ground (arith, e, h))
  | inr e ↦ (e, ground (arith, e, h))
]

module _ (t : ℕ) (positive : 0 < t) where
  collect_one_here :
      (a : Bytes) (keys : StringSet) (removed : StringSet) (m : StringMap StringSet)
      → IsDistinct keys
      → (let (removed', m') = collect_one t a keys (removed, m) in
          (elem a removed' ≡ (leb (length keys) t || elem a removed))
          × ((y : Bytes) → elem y (set_at a m') ≡ (elem y (take t keys) || elem y (set_at a m))))
  unfolding collect_one
  collect_one_here a keys removed m d =
      let sends = send_keys-first t a keys m d positive in
      (
        by_test (is_empty (erase_keys (send_keys t a keys [] m).0 keys))
            (left_over t (send_keys t a keys [] m).0 keys d (λ y. (sends y).0)),
        λ y. (sends y).1,
      )
    where
      by_test :
          (b : Bool)
          → b ≡ leb (length keys) t
          → elem a (if b then set_insert a removed else removed)
            ≡ (leb (length keys) t || elem a removed)
      by_test true e = rw (elem-insert a a removed, (bytes_eq_iff a a).1 refl) (rw (sym e) refl)
      by_test false e = rw (sym e) refl

  collect_one_other :
      (a o : Bytes) (keys : StringSet) (removed : StringSet) (m : StringMap StringSet)
      → bytes_eq a o ≡ false
      → (let (removed', m') = collect_one t a keys (removed, m) in
          (elem o removed' ≡ elem o removed) × (set_at o m' ≡ set_at o m))
  unfolding collect_one
  collect_one_other a o keys removed m h = (
    by_test (is_empty (erase_keys (send_keys t a keys [] m).0 keys)),
    send_keys-other t a o keys [] m h,
  )
    where
      by_test : (b : Bool) → elem o (if b then set_insert a removed else removed) ≡ elem o removed
      by_test true = elem-insert a o removed ∙ rw h refl
      by_test false = refl

  collect_other :
      (pairs : StringMap StringSet) (o : Bytes) (removed : StringSet) (m : StringMap StringSet)
      → find o pairs ≡ none
      → (let (removed', m') = collect t pairs (removed, m) in
          (elem o removed' ≡ elem o removed) × (set_at o m' ≡ set_at o m))
  unfolding collect find
  collect_other [] o removed m h = (refl, refl)
  collect_other ((a, keys) ∷ pairs) o removed m h =
      let (e, h') = apart a o keys pairs h in
      let next = collect_one t a keys (removed, m) in
      let (one, two) = collect_one_other a o keys removed m e in
      let (rest, rest') = collect_other pairs o next.0 next.1 h' in (rest ∙ one, rest' ∙ two)

  -- Every address is given the first keys of its set, and is done exactly when those are all.
  pub collect-first :
      (pairs : StringMap StringSet) (a : Bytes) (removed : StringSet) (m : StringMap StringSet)
      → IsSets pairs
      → (let (removed', m') = collect t pairs (removed, m) in
          (elem a removed' ≡ (fits t (find a pairs) || elem a removed))
          × ((y : Bytes)
              → elem y (set_at a m')
                ≡ (elem y (take t (value_or [] (find a pairs))) || elem y (set_at a m))))
  unfolding collect find value_or
  collect-first [] a removed m h =
      (refl, λ y. rw (take-nil {A = Bytes} t) (elem-nil_or y (elem y (set_at a m))))
  collect-first ((b, keys) ∷ pairs) a removed m h =
      let next = collect_one t b keys (removed, m) in
      elim (Bool-cases (bytes_eq b a)) [
        | inl e ↦
            let same = (bytes_eq_iff b a).0 e in
            let (one, two) =
              subst
                (λ x.
                  (elem x next.0 ≡ (leb (length keys) t || elem x removed))
                  × ((y : Bytes)
                      → elem y (set_at x next.1) ≡ (elem y (take t keys) || elem y (set_at x m))))
                same (collect_one_here b keys removed m h.1) in
            let (rest, rest') =
              collect_other pairs a next.0 next.1
                (subst (λ x. find x pairs ≡ none) same (missing b pairs h.0)) in
            rw e (rest ∙ one, λ y. ap (elem y) rest' ∙ two y)
        | inr e ↦
            let (one, two) = collect_one_other b a keys removed m e in
            let (rest, rest') = collect-first pairs a next.0 next.1 h.2 in
            rw e (
              rest ∙ ap (λ b. fits t (find a pairs) || b) one,
              λ y. rest' y ∙ ap (λ s. elem y (take t (value_or [] (find a pairs))) || elem y s) two,
            )
      ]
