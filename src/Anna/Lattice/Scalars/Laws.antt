-- ===== src/Anna/Lattice/Scalars/Laws.antt =====
-- The algebra of the merges of MaxLattice, LWWPairLattice and PriorityLattice.
use mathlib.Core.List.{foldl}
use testbed.Prelude.{
  ℕ, ◌≤◌, ◌<◌, ◌≡◌, ◌≢◌, ◌⊎◌, ◌↔◌, inl, inr, refl, ◌∙◌, Bool, true, false, List, [], ◌∷◌, arith,
  max, ℕ_discrete,
}
use testbed.Anna.Lattice.Scalars.{
  u32_mod, max_do_merge, TimestampValuePair, lww_do_merge, PriorityValuePair, priority_do_merge,
}

-- On 32-bit values MaxLattice keeps the greater, in spite of its detour through `int`.
pub max_do_merge-max :
    (element e : ℕ) → element < u32_mod → e < u32_mod → max_do_merge element e ≡ max element e
unfolding max_do_merge
max_do_merge-max element e h k = ground arith

module _ {ℓ} {T : Type ℓ} where
  -- LWWPairLattice is associative, whatever the timestamps.
  pub lww_do_merge_assoc :
      (a b c : TimestampValuePair T)
      → lww_do_merge (lww_do_merge a b) c ≡ lww_do_merge a (lww_do_merge b c)
  unfolding lww_do_merge
  lww_do_merge_assoc a b c = ground arith

  pub lww_do_merge_idem : (a : TimestampValuePair T) → lww_do_merge a a ≡ a
  unfolding lww_do_merge
  lww_do_merge_idem a = ground arith

  -- It is commutative exactly where the timestamps differ or the pairs are one: of two writes with one
  -- timestamp each replica keeps the one that it sees last.
  pub lww_do_merge_comm_iff :
      (a b : TimestampValuePair T)
      → (lww_do_merge a b ≡ lww_do_merge b a) ↔ ((a.timestamp ≢ b.timestamp) ⊎ (a ≡ b))
  unfolding lww_do_merge
  lww_do_merge_comm_iff a b = (
    λ h. elim (ℕ_discrete a.timestamp b.timestamp) [ yes e ↦ inr (ground arith) | no n ↦ inl n ],
    λ h. ground arith,
  )

module _ {T : Type 0} where
  -- Membership, by recursion.
  abbrev pub In : TimestampValuePair T → List (TimestampValuePair T) → Type 0
  In x [] = ⊥
  In x (p ∷ ps) = (x ≡ p) ⊎ In x ps

  -- What is left of `element` after the writes `ps`.
  abbrev pub lww_replay : TimestampValuePair T → List (TimestampValuePair T) → TimestampValuePair T
  lww_replay element ps = foldl lww_do_merge element ps

  merge-or : (a b : TimestampValuePair T) → (lww_do_merge a b ≡ a) ⊎ (lww_do_merge a b ≡ b)
  unfolding lww_do_merge
  merge-or a b = ground arith

  survivor-In :
      (e : TimestampValuePair T) (ps : List (TimestampValuePair T)) → In (lww_replay e ps) (e ∷ ps)
  survivor-In e [] = inl refl
  survivor-In e (p ∷ ps) = elim (survivor-In (lww_do_merge e p) ps) [
    | inl same ↦ elim (merge-or e p) [ inl x ↦ inl (same ∙ x) | inr y ↦ inr (inl (same ∙ y)) ]
    | inr later ↦ inr (inr later)
  ]

  survivor-after :
      (e : TimestampValuePair T) (ps : List (TimestampValuePair T))
      → e.timestamp ≤ (lww_replay e ps).timestamp
  unfolding lww_do_merge
  survivor-after e [] = omega arith
  survivor-after e (p ∷ ps) = ground (arith, survivor-after (lww_do_merge e p) ps)

  survivor-newest :
      (e : TimestampValuePair T) (ps : List (TimestampValuePair T)) (x : TimestampValuePair T)
      → In x (e ∷ ps)
      → x.timestamp ≤ (lww_replay e ps).timestamp
  survivor-newest e ps x (inl same) = rw same (survivor-after e ps)
  survivor-newest e [] x (inr later) = elim later [ ]
  survivor-newest e (p ∷ ps) x (inr (inl same)) =
      unfold lww_do_merge in rw same (ground (arith, survivor-after (lww_do_merge e p) ps))
  survivor-newest e (p ∷ ps) x (inr (inr later)) =
      survivor-newest (lww_do_merge e p) ps x (inr later)

  -- Two replicas that have seen the same writes, each in its own order and some of them often, hold the
  -- same pair, if a timestamp names one write.
  pub lww_replicas_agree :
      (e f : TimestampValuePair T) (ps qs : List (TimestampValuePair T))
      → ((x : TimestampValuePair T) → In x (e ∷ ps) → In x (f ∷ qs))
      → ((x : TimestampValuePair T) → In x (f ∷ qs) → In x (e ∷ ps))
      → ((x y : TimestampValuePair T)
          → In x (e ∷ ps)
          → In y (e ∷ ps)
          → x.timestamp ≡ y.timestamp
          → x ≡ y)
      → lww_replay e ps ≡ lww_replay f qs
  lww_replicas_agree e f ps qs there back unique =
      let r = lww_replay e ps in
      let s = lww_replay f qs in
      let r_in = survivor-In e ps in
      let s_in = back s (survivor-In f qs) in
      unique r s r_in s_in
        (omega (arith, survivor-newest f qs r (there r r_in), survivor-newest e ps s s_in))

-- The comparison orders priorities, up to ties.
pub record IsWeakOrder {ℓ} {P : Type ℓ} (compare_ : P → P → Bool) : Type ℓ where
  pub irreflexive : (a : P) → compare_ a a ≡ false
  pub transitive : (a b c : P) → compare_ a b ≡ true → compare_ b c ≡ true → compare_ a c ≡ true
  pub ties : (a b c : P) → compare_ a b ≡ false → compare_ b c ≡ false → compare_ a c ≡ false

module _ {ℓ κ} {P : Type ℓ} {V : Type κ} (compare_ : P → P → Bool) (o : IsWeakOrder compare_) where
  -- PriorityLattice is associative, if the comparison orders priorities up to ties.
  pub priority_do_merge_assoc :
      (a b c : PriorityValuePair P V)
      → priority_do_merge compare_ (priority_do_merge compare_ a b) c
        ≡ priority_do_merge compare_ a (priority_do_merge compare_ b c)
  unfolding priority_do_merge
  priority_do_merge_assoc a b c = ground (
    arith,
    o.transitive c.priority b.priority a.priority,
    o.ties c.priority b.priority a.priority,
    o.ties b.priority a.priority c.priority,
  )

  -- PriorityLattice is commutative exactly where one of the priorities is less or the pairs are one.
  pub priority_do_merge_comm_iff :
      (a b : PriorityValuePair P V)
      → (priority_do_merge compare_ a b ≡ priority_do_merge compare_ b a) ↔ (
          (compare_ a.priority b.priority ≡ true)
          ⊎ (compare_ b.priority a.priority ≡ true)
          ⊎ (a ≡ b))
  unfolding priority_do_merge
  priority_do_merge_comm_iff a b = (
    λ h. ground arith,
    λ h. ground (arith, o.transitive a.priority b.priority a.priority, o.irreflexive a.priority),
  )
