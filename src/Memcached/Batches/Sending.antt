-- ===== src/Memcached/Batches/Sending.antt =====
-- Which batches the threads of src/dist/memcached/mc_mt.cpp send.
use native.Mathlib.Nat.{suc-mul}
use testbed.Prelude.{
  ℕ, zero, suc, ◌-◌, ◌*◌, ◌/◌, ◌≡◌, ◌≢◌, refl, ap, ◌∙◌, false, Option, some, none, List, [], ◌++◌,
  length, take, ◌==◌, arith,
}
use testbed.Memcached.Shares.{share, shares, shares-take}
use testbed.Memcached.Batches.{thread_batches}

-- What the threads below `n` of `thread_num` send in a round, in the order of the threads.
unfoldable pub sent_below {ℓ} : {B : Type ℓ} → ℕ → ℕ → List B → Option (List B)
sent_below thread_num zero database = some []
sent_below thread_num (suc n) database = elim (sent_below thread_num n database) [
  | none ↦ none
  | some before ↦ elim (thread_batches thread_num n database) [
    | none ↦ none
    | some own ↦ some (before ++ own)
  ]
]

module _ {ℓ} {B : Type ℓ} (thread_num : ℕ) (database : List B) where
  thread_batches-share :
      (n : ℕ)
      → thread_num ≢ 0
      → thread_batches thread_num n database
        ≡ some (share (λ t. t * (length database / thread_num)) n database)
  unfolding thread_batches
  thread_batches-share n h =
      let s = length database / thread_num in
      let width : suc n * s - n * s ≡ s = omega (arith, suc-mul n s) in
      let off : (thread_num == 0) ≡ false = ground arith in rw (off, width) refl

  sent_below-shares :
      (n : ℕ)
      → thread_num ≢ 0
      → sent_below thread_num n database
        ≡ some (shares (λ t. t * (length database / thread_num)) n database)
  unfolding sent_below
  sent_below-shares zero h = refl
  sent_below-shares (suc n) h = rw (sent_below-shares n h, thread_batches-share n h) refl

  -- With at least one thread, all threads together send the first thread_num * (length / thread_num)
  -- batches, each once and in order, and none of the rest.
  pub sent_below-take :
      thread_num ≢ 0
      → sent_below thread_num thread_num database
        ≡ some (take (thread_num * (length database / thread_num)) database)
  sent_below-take h =
      let s = length database / thread_num in
      sent_below-shares thread_num h
      ∙ ap some (
          shares-take (λ t. t * s) thread_num database (omega arith)
            (λ t lt. omega (arith, suc-mul t s)))
