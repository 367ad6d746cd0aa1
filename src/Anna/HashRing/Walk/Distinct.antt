-- ===== src/Anna/HashRing/Walk/Distinct.antt =====
-- The different nodes among those that a walk round a hash ring meets.
use testbed.Prelude.{
  ℕ, zero, take, false, suc, ◌≤◌, ◌≡◌, refl, sym, ap, subst, subst, ◌∙◌, Bool, true, ◌||◌, List, [],
  ◌∷◌, ◌++◌, append-nil, append_assoc, length, length-append, arith, Bool-cases, inl, inr,
}
use testbed.Anna.HashRing.{Nodes}
use testbed.Anna.HashRing.Walk.{has, add_thread}

abbrev pub threads_of {ℓ} : {T : Type ℓ} → Nodes T → List T
threads_of [] = []
threads_of ((k, t) ∷ ns) = t ∷ threads_of ns

module _ {ℓ} {T : Type ℓ} (same : T → T → Bool) where
  -- `acc`, and the threads of a list that are not among those before them.
  unfoldable pub distinct : List T → List T → List T
  distinct acc [] = acc
  distinct acc (t ∷ ts) = distinct (add_thread same t acc) ts

  pub distinct_none : (acc : List T) → distinct acc [] ≡ acc
  unfolding distinct
  distinct_none acc = refl

  pub distinct_step :
      (acc : List T) (t : T) (ts : List T)
      → distinct acc (t ∷ ts) ≡ distinct (add_thread same t acc) ts
  unfolding distinct
  distinct_step acc t ts = refl

  pub distinct-append :
      (acc xs ys : List T) → distinct acc (xs ++ ys) ≡ distinct (distinct acc xs) ys
  unfolding distinct
  distinct-append acc [] ys = refl
  distinct-append acc (x ∷ xs) ys = distinct-append (add_thread same x acc) xs ys

  -- A longer walk only adds at the end.
  unfoldable pub Extends : List T → List T → Type ℓ
  Extends xs ys = (more : List T) × (ys ≡ xs ++ more)

  pub add_thread-Extends : (t : T) (acc : List T) → Extends acc (add_thread same t acc)
  unfolding add_thread Extends
  add_thread-Extends t acc = elim (Bool-cases (has same t acc)) [
    | inl there ↦ ([], rw there (sym (append-nil acc)))
    | inr new ↦ (t ∷ [], rw new refl)
  ]

  pub add_thread-length : (t : T) (acc : List T) → length (add_thread same t acc) ≤ suc (length acc)
  unfolding add_thread
  add_thread-length t acc = elim (Bool-cases (has same t acc)) [
    | inl there ↦ rw there (omega arith)
    | inr new ↦ rw new (omega (arith, length-append acc (t ∷ [])))
  ]

  pub distinct-Extends : (acc xs : List T) → Extends acc (distinct acc xs)
  unfolding distinct Extends
  distinct-Extends acc [] = ([], sym (append-nil acc))
  distinct-Extends acc (x ∷ xs) =
      let (one, e) = add_thread-Extends x acc in
      let (more, e') = distinct-Extends (add_thread same x acc) xs in
      (one ++ more, e' ∙ ap (λ (q : List T). q ++ more) e ∙ append_assoc acc one more)

  pub distinct_longer : (acc xs : List T) → length acc ≤ length (distinct acc xs)
  unfolding Extends
  distinct_longer acc xs =
      let (more, e) = distinct-Extends acc xs in
      omega (arith, ap (λ (q : List T). length q) e, length-append acc more)

  has-append : (t : T) (xs ys : List T) → has same t xs ≡ true → has same t (xs ++ ys) ≡ true
  unfolding has
  has-append t [] ys e = absurd (ground (arith, e))
  has-append t (x ∷ xs) ys e = elim (Bool-cases (same x t)) [
    | inl it ↦ rw it refl
    | inr other ↦
        rw other (has-append t xs ys (subst (λ (b : Bool). b || has same t xs ≡ true) other e))
  ]

  has_last : (t : T) (xs : List T) → same t t ≡ true → has same t (xs ++ (t ∷ [])) ≡ true
  unfolding has
  has_last t [] e = rw e refl
  has_last t (x ∷ xs) e = elim (Bool-cases (same x t)) [
    | inl it ↦ rw it refl
    | inr other ↦ rw other (has_last t xs e)
  ]

  -- All of a list are among `acc`.
  unfoldable IsKnown : List T → List T → Type 0
  IsKnown acc [] = Unit
  IsKnown acc (t ∷ ts) = (has same t acc ≡ true) × IsKnown acc ts

  module _ (same_refl : (t : T) → same t t ≡ true) where
    has-add_thread : (t : T) (acc : List T) → has same t (add_thread same t acc) ≡ true
    unfolding add_thread
    has-add_thread t acc = elim (Bool-cases (has same t acc)) [
      | inl there ↦ rw there there
      | inr new ↦ rw new (has_last t acc (same_refl t))
    ]

    distinct-IsKnown : (acc xs : List T) → IsKnown (distinct acc xs) xs
    unfolding distinct IsKnown Extends
    distinct-IsKnown acc [] = tt
    distinct-IsKnown acc (t ∷ ts) =
        let (more, e) = distinct-Extends (add_thread same t acc) ts in
        (
          rw e (has-append t (add_thread same t acc) more (has-add_thread t acc)),
          distinct-IsKnown (add_thread same t acc) ts,
        )

    distinct_known : (acc xs : List T) → IsKnown acc xs → distinct acc xs ≡ acc
    unfolding distinct IsKnown add_thread
    distinct_known acc [] k = refl
    distinct_known acc (t ∷ ts) (there, k) = rw there (distinct_known acc ts k)

    -- A second lap meets nothing new.
    pub distinct-distinct : (acc xs : List T) → distinct (distinct acc xs) xs ≡ distinct acc xs
    distinct-distinct acc xs = distinct_known (distinct acc xs) xs (distinct-IsKnown acc xs)

  -- No element is the same as an earlier one.
  abbrev pub IsNone : T → List T → Type 0
  IsNone t [] = Unit
  IsNone t (x ∷ xs) = (same t x ≡ false) × IsNone t xs

  abbrev pub AreDifferent : List T → Type 0
  AreDifferent [] = Unit
  AreDifferent (t ∷ ts) = IsNone t ts × AreDifferent ts

  IsNone-append :
      (t u : T) (xs : List T) → IsNone t xs → same t u ≡ false → IsNone t (xs ++ (u ∷ []))
  IsNone-append t u [] h e = (e, tt)
  IsNone-append t u (x ∷ xs) (d, h) e = (d, IsNone-append t u xs h e)

  AreDifferent-append :
      (t : T) (xs : List T)
      → AreDifferent xs
      → has same t xs ≡ false
      → AreDifferent (xs ++ (t ∷ []))
  unfolding has
  AreDifferent-append t [] h e = (tt, tt)
  AreDifferent-append t (x ∷ xs) (d, h) e =
      (IsNone-append x t xs d (ground (arith, e)), AreDifferent-append t xs h (ground (arith, e)))

  add_thread-AreDifferent :
      (t : T) (acc : List T) → AreDifferent acc → AreDifferent (add_thread same t acc)
  unfolding add_thread
  add_thread-AreDifferent t acc h = elim (Bool-cases (has same t acc)) [
    | inl there ↦ rw there h
    | inr new ↦ rw new (AreDifferent-append t acc h new)
  ]

  pub distinct-AreDifferent : (acc xs : List T) → AreDifferent acc → AreDifferent (distinct acc xs)
  unfolding distinct
  distinct-AreDifferent acc [] h = h
  distinct-AreDifferent acc (x ∷ xs) h =
      distinct-AreDifferent (add_thread same x acc) xs (add_thread-AreDifferent x acc h)

  take-IsNone : (n : ℕ) (t : T) (xs : List T) → IsNone t xs → IsNone t (take n xs)
  take-IsNone zero t xs h = tt
  take-IsNone (suc n) t [] h = tt
  take-IsNone (suc n) t (x ∷ xs) (d, h) = (d, take-IsNone n t xs h)

  pub take-AreDifferent : (n : ℕ) (xs : List T) → AreDifferent xs → AreDifferent (take n xs)
  take-AreDifferent zero xs h = tt
  take-AreDifferent (suc n) [] h = tt
  take-AreDifferent (suc n) (x ∷ xs) (d, h) = (take-IsNone n x xs d, take-AreDifferent n xs h)
