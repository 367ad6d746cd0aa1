-- ===== src/Memcached/Strides/Owned.antt =====
-- Which keys a thread of src/dist/memcached/mc_mtr.cpp works on.
use native.Mathlib.Nat.{div-add-mod', suc-mul, add-mod_right, mul-le-mul_right, mod-eq_of_lt}
use testbed.Prelude.{
  ℕ, zero, suc, ◌+◌, ◌*◌, ◌/◌, ◌%◌, ◌≤◌, ◌<◌, ◌≡◌, refl, sym, ap, ◌∙◌, some, List, [], ◌∷◌, Bytes,
  if◌then◌else◌, ltb, ◌==◌, arith, Bool-cases, inl, inr,
}
use testbed.Memcached.Workers.{Memcached}
use testbed.Memcached.Strides.{int_end, Tally, set_one, get_one, strides, set_worker, get_worker}

-- The numbers from `i` on, `k` of them looked at, that leave `tid` when divided by `thread_number`.
unfoldable pub owned : ℕ → ℕ → ℕ → ℕ → List ℕ
owned thread_number tid zero i = []
owned thread_number tid (suc k) i =
    let rest = owned thread_number tid k (suc i) in
    if i % thread_number == tid then i ∷ rest else rest

unfoldable pub each {ℓ} : {A : Type ℓ} → (ℕ → A → A) → List ℕ → A → A
each body [] a = a
each body (i ∷ is) a = each body is (body i a)

-- Two numbers with the same remainder are not less than the divisor apart.
mod-apart : (i next n : ℕ) → i % n ≡ next % n → i < next → next < i + n → ⊥
mod-apart i next n same lt near = elim (Bool-cases (ltb (i / n) (next / n))) [
  | inl up ↦
      let past : suc (i / n) * n ≤ next / n * n = mul-le-mul_right n (ground (arith, up)) in
      omega (arith, past, div-add-mod' i n, div-add-mod' next n, suc-mul (i / n) n)
  | inr down ↦
      let back : next / n * n ≤ i / n * n = mul-le-mul_right n (ground (arith, down)) in
      omega (arith, back, div-add-mod' i n, div-add-mod' next n)
]

module _ {ℓ} {A : Type ℓ} (body : ℕ → A → A) (thread_number total_count tid : ℕ) where
  strides_end :
      (fuel i : ℕ) (a : A)
      → total_count ≤ i
      → i < int_end
      → strides body thread_number total_count (suc fuel) i a ≡ some a
  unfolding strides
  strides_end fuel i a past fits = ground (arith, fits)

  strides_next :
      (fuel i : ℕ) (a : A)
      → i < total_count
      → total_count ≤ int_end
      → strides body thread_number total_count (suc fuel) i a
        ≡ strides body thread_number total_count fuel (i + thread_number) (body i a)
  unfolding strides
  strides_next fuel i a lt fits = ground (arith, fits)

  each_nothing : (i : ℕ) (a : A) → a ≡ each body (owned thread_number tid 0 i) a
  unfolding owned each
  each_nothing i a = refl

  each_here :
      (k i : ℕ) (a : A)
      → i % thread_number ≡ tid
      → each body (owned thread_number tid (suc k) i) a
        ≡ each body (owned thread_number tid k (suc i)) (body i a)
  unfolding owned each
  each_here k i a is = ground (arith, is)

  each_skip :
      (k i : ℕ) (a : A)
      → ¬ (i % thread_number ≡ tid)
      → each body (owned thread_number tid (suc k) i) a
        ≡ each body (owned thread_number tid k (suc i)) a
  unfolding owned
  each_skip k i a isn't = ground (arith, isn't)

  strides-each :
      (k i next fuel : ℕ) (a : A)
      → i + k ≡ total_count
      → next % thread_number ≡ tid
      → i ≤ next
      → next < i + thread_number
      → k < fuel
      → total_count + thread_number ≤ int_end
      → strides body thread_number total_count fuel next a
        ≡ some (each body (owned thread_number tid k i) a)
  strides-each k i next zero a sum mine le near enough fits = absurd (omega arith)
  strides-each zero i next (suc fuel) a sum mine le near enough fits =
      strides_end fuel next a (omega arith) (omega arith) ∙ ap some (each_nothing i a)
  strides-each (suc k) i next (suc fuel) a sum mine le near enough fits =
      elim (Bool-cases (i == next)) [
        | inl here ↦
            let same : i ≡ next = ground (arith, here) in
            strides_next fuel next a (omega arith) (omega arith)
            ∙ strides-each k (suc i) (next + thread_number) fuel (body next a) (omega arith)
                (add-mod_right next thread_number ∙ mine) (omega arith) (omega arith) (omega arith)
                fits
            ∙ ap some (
                ap (λ (j : ℕ). each body (owned thread_number tid k (suc i)) (body j a)) (sym same))
            ∙ ap some (sym (each_here k i a (ap (λ (j : ℕ). j % thread_number) same ∙ mine)))
        | inr ahead ↦
            let isn't : ¬ (i % thread_number ≡ tid) =
              λ is. mod-apart i next thread_number (is ∙ sym mine) (ground (arith, ahead)) near in
            strides-each k (suc i) next (suc fuel) a (omega arith) mine (ground (arith, ahead))
              (omega arith) (omega arith) fits
            ∙ ap some (sym (each_skip k i a isn't))
      ]

  pub strides-owned :
      (a : A)
      → tid < thread_number
      → total_count + thread_number ≤ int_end
      → strides body thread_number total_count (suc total_count) tid a
        ≡ some (each body (owned thread_number tid total_count 0) a)
  strides-owned a lt fits =
      strides-each total_count 0 tid (suc total_count) a (omega arith) (mod-eq_of_lt lt)
        (omega arith) (omega arith) (omega arith) fits

module _ {ℓ} {S : Type ℓ} (m : Memcached S) (sprintf_d : ℕ → Bytes) where
  -- A thread that sets keys and one that gets them end within the fuel given, having worked on the numbers
  -- below `total_count` that leave the thread's number when divided by `thread_number`, in rising order.
  -- The thread is one of `thread_number`, and the numbers fit an `int`.
  pub set_worker-owned :
      (thread_number total_count tid : ℕ) (a : Tally × S)
      → tid < thread_number
      → total_count + thread_number ≤ int_end
      → (set_worker m sprintf_d thread_number total_count tid a
          ≡ some (each (set_one m sprintf_d) (owned thread_number tid total_count 0) a))
        × (get_worker m sprintf_d thread_number total_count tid a
            ≡ some (each (get_one m sprintf_d) (owned thread_number tid total_count 0) a))
  unfolding set_worker get_worker
  set_worker-owned T N tid a lt fits = (
    strides-owned (set_one m sprintf_d) T N tid a lt fits,
    strides-owned (get_one m sprintf_d) T N tid a lt fits,
  )
