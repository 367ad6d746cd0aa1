-- ===== src/Memcached/Strides/Reported.antt =====
-- What the threads of src/dist/memcached/mc_mtr.cpp report together.
use native.Mathlib.Nat.{mod-lt}
use testbed.Prelude.{
  ℕ, zero, suc, ◌+◌, ◌%◌, ◌≤◌, ◌<◌, ◌≡◌, refl, ap, ◌∙◌, Bool, true, false, Option, some, none, List,
  [], ◌∷◌, Bytes, length, if◌then◌else◌, ltb, ◌==◌, arith,
}
use testbed.Memcached.Workers.{Memcached, u64_mod}
use testbed.Memcached.Strides.{
  int_end, Tally, tally, set_one, get_one, strides, set_worker, get_worker,
}
use testbed.Memcached.Strides.Owned.{owned, each, strides-owned}

-- How many of the numbers the first `n` threads work on together.
unfoldable pub owned_by : ℕ → ℕ → ℕ → ℕ → ℕ
owned_by thread_number k i zero = 0
owned_by thread_number k i (suc t) =
    owned_by thread_number k i t + length (owned thread_number t k i)

length-owned-suc :
    (thread_number k i t : ℕ)
    → length (owned thread_number t (suc k) i)
      ≡ (if i % thread_number == t then 1 else 0) + length (owned thread_number t k (suc i))
unfolding owned
length-owned-suc n k i t = ground arith

owned_by-suc :
    (thread_number k i n : ℕ)
    → owned_by thread_number (suc k) i n
      ≡ (if ltb (i % thread_number) n then 1 else 0) + owned_by thread_number k (suc i) n
unfolding owned_by
owned_by-suc T k i zero = ground arith
owned_by-suc T k i (suc n) = ground (arith, owned_by-suc T k i n, length-owned-suc T k i n)

owned_by_none : (thread_number i n : ℕ) → owned_by thread_number 0 i n ≡ 0
unfolding owned_by owned
owned_by_none T i zero = refl
owned_by_none T i (suc n) = omega (arith, owned_by_none T i n)

owned_by_all :
    (thread_number : ℕ)
    → 0 < thread_number
    → (k i : ℕ) → owned_by thread_number k i thread_number ≡ k
owned_by_all T some_thread zero i = owned_by_none T i T
owned_by_all T some_thread (suc k) i =
    ground (arith, owned_by-suc T k i T, owned_by_all T some_thread k (suc i), mod-lt i some_thread)

unfoldable pub answers : Tally → ℕ
answers t = t.msucc + t.mfail

no_answers : answers (record { msucc = 0; mfail = 0 }) ≡ 0
unfolding answers
no_answers = refl

tally-answers :
    (ok : Bool) (t : Tally) → answers t + 1 < u64_mod → answers (tally ok t) ≡ answers t + 1
unfolding answers tally
tally-answers true t lt = omega arith
tally-answers false t lt = omega arith

module _ {ℓ} {S : Type ℓ} (m : Memcached S) (sprintf_d : ℕ → Bytes) where
  set_one-answers :
      (i : ℕ) (a : Tally × S)
      → answers a.0 + 1 < u64_mod
      → answers (set_one m sprintf_d i a).0 ≡ answers a.0 + 1
  unfolding set_one
  set_one-answers i (t, s) lt = tally-answers _ t lt

  get_one-answers :
      (i : ℕ) (a : Tally × S)
      → answers a.0 + 1 < u64_mod
      → answers (get_one m sprintf_d i a).0 ≡ answers a.0 + 1
  unfolding get_one
  get_one-answers i (t, s) lt = tally-answers _ t lt

-- What the first `n` of the threads report, each started with no answers, thread `t` on the server's state
-- `st t`; `none` where one of them does not end.
unfoldable pub reported {ℓ} :
    {S : Type ℓ} → (ℕ → Tally × S → Option (Tally × S)) → (ℕ → S) → ℕ → Option ℕ
reported worker st zero = some 0
reported worker st (suc t) = elim (reported worker st t) [
  | none ↦ none
  | some before ↦ elim (worker t (record { msucc = 0; mfail = 0 }, st t)) [
    | none ↦ none
    | some (t', s) ↦ some (before + answers t')
  ]
]

module _ {ℓ} {S : Type ℓ} (body : ℕ → Tally × S → Tally × S)
    (counts : (i : ℕ) (a : Tally × S)
      → answers a.0 + 1 < u64_mod
      → answers (body i a).0 ≡ answers a.0 + 1) where
  each-answers :
      (is : List ℕ) (a : Tally × S)
      → answers a.0 + length is < u64_mod
      → answers (each body is a).0 ≡ answers a.0 + length is
  unfolding each
  each-answers [] a lt = omega arith
  each-answers (i ∷ is) a lt =
      let one = counts i a (omega arith) in
      omega (arith, one, each-answers is (body i a) (omega (arith, one)))

  owned-short : (thread_number t k i : ℕ) → length (owned thread_number t k i) ≤ k
  unfolding owned
  owned-short T t zero i = omega arith
  owned-short T t (suc k) i = ground (arith, owned-short T t k (suc i))

  strides-reported :
      (thread_number total_count : ℕ) (st : ℕ → S) (n : ℕ)
      → total_count + thread_number ≤ int_end
      → n ≤ thread_number
      → reported (strides body thread_number total_count (suc total_count)) st n
        ≡ some (owned_by thread_number total_count 0 n)
  unfolding reported owned_by
  strides-reported T N st zero lt le = refl
  strides-reported T N st (suc t) lt le =
      let none_yet : Tally = record { msucc = 0; mfail = 0 } in
      let short = owned-short T t N 0 in
      let here : answers (each body (owned T t N 0) (none_yet, st t)).0 ≡ length (owned T t N 0) =
        each-answers (owned T t N 0) (none_yet, st t) (omega (arith, short, no_answers))
        ∙ omega (arith, no_answers) in
      rw
        (
          strides-reported T N st t lt (omega arith),
          strides-owned body T N t (none_yet, st t) (omega arith) lt,
        )
        (ap some (ap (λ (k : ℕ). owned_by T N 0 t + k) here))

  strides-reported_all :
      (thread_number total_count : ℕ) (st : ℕ → S)
      → 0 < thread_number
      → total_count + thread_number ≤ int_end
      → reported (strides body thread_number total_count (suc total_count)) st thread_number
        ≡ some total_count
  strides-reported_all T N st some_thread lt =
      strides-reported T N st T lt (omega arith) ∙ ap some (owned_by_all T some_thread N 0)

module _ {ℓ} {S : Type ℓ} (m : Memcached S) (sprintf_d : ℕ → Bytes) where
  -- All threads of a round end, and the successes and failures that they count, each for itself, are
  -- `total_count` together, in the round that sets and in the one that gets, whatever the server answers.
  -- There is a thread, and the sum of `total_count` and the thread number is at most 2 ^ 31.
  pub set_worker-reported :
      (thread_number total_count : ℕ) (st : ℕ → S)
      → 0 < thread_number
      → total_count + thread_number ≤ int_end
      → (reported (set_worker m sprintf_d thread_number total_count) st thread_number
          ≡ some total_count)
        × (reported (get_worker m sprintf_d thread_number total_count) st thread_number
            ≡ some total_count)
  unfolding set_worker get_worker
  set_worker-reported T N st some_thread lt = (
    strides-reported_all (set_one m sprintf_d) (set_one-answers m sprintf_d) T N st some_thread lt,
    strides-reported_all (get_one m sprintf_d) (get_one-answers m sprintf_d) T N st some_thread lt,
  )
