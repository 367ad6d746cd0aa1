-- ===== src/Memcached/Strides.antt =====
-- The threads of src/dist/memcached/mc_mtr.cpp, each of which sets and then gets the keys `tid`,
-- `tid + thread_number`, and so on. `sprintf` with "%d" is a parameter, libmemcached the record `Memcached`.
pub mod Owned
pub mod Reported
use testbed.Prelude.{
  ℕ, zero, suc, ◌+◌, ◌%◌, Bool, true, false, Option, some, none, List, [], ◌∷◌, ◌++◌, Bytes, length,
  if◌then◌else◌, ltb,
}
use testbed.Memcached.Workers.{Memcached, u64_mod}

pub record Tally : Type 0 where
  pub msucc : ℕ
  pub mfail : ℕ

unfoldable pub tally : Bool → Tally → Tally
tally ok t =
    if ok
    then record t { msucc = (t.msucc + 1) % u64_mod }
    else record t { mfail = (t.mfail + 1) % u64_mod }

-- The text "hello".
abbrev hello : Bytes
hello = 104 ∷ 101 ∷ 108 ∷ 108 ∷ 111 ∷ []

-- The body of the loop of `setWorker`. The decimal digits hold no zero byte, so `strlen` is their number.
unfoldable pub set_one {ℓ} : {S : Type ℓ} → Memcached S → (ℕ → Bytes) → ℕ → Tally × S → Tally × S
set_one m sprintf_d i (t, s) =
    let key = sprintf_d i in
    let value = hello ++ sprintf_d i in
    let (ok, s') = m.memcached_set key (length key) (some value) (length value) s in
    (tally ok t, s')

-- The body of the loop of `getWorker`, with ENABLE_VERIFICATION at 0.
unfoldable pub get_one {ℓ} : {S : Type ℓ} → Memcached S → (ℕ → Bytes) → ℕ → Tally × S → Tally × S
get_one m sprintf_d i (t, s) =
    let key = sprintf_d i in let (ok, s') = m.memcached_get key (length key) s in (tally ok t, s')

-- 2 ^ 31, past which an `int` overflows.
abbrev pub int_end : ℕ
int_end = 2147483648

-- `for (int i = tid; i < total_count; i += thread_number)`; `none` where the fuel is out, and where `i` or
-- the thread's number overflows an `int`, which has no defined result.
unfoldable pub strides {ℓ} : {A : Type ℓ} → (ℕ → A → A) → ℕ → ℕ → ℕ → ℕ → A → Option A
strides body thread_number total_count zero i a = none
strides body thread_number total_count (suc fuel) i a =
    let rest = strides body thread_number total_count fuel (i + thread_number) (body i a) in
    if ltb i int_end then (if ltb i total_count then rest else some a) else none

unfoldable pub set_worker {ℓ} :
    {S : Type ℓ} → Memcached S → (ℕ → Bytes) → ℕ → ℕ → ℕ → Tally × S → Option (Tally × S)
set_worker m sprintf_d thread_number total_count tid =
    strides (set_one m sprintf_d) thread_number total_count (suc total_count) tid

unfoldable pub get_worker {ℓ} :
    {S : Type ℓ} → Memcached S → (ℕ → Bytes) → ℕ → ℕ → ℕ → Tally × S → Option (Tally × S)
get_worker m sprintf_d thread_number total_count tid =
    strides (get_one m sprintf_d) thread_number total_count (suc total_count) tid
