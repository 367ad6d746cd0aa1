-- ===== src/Memcached/Workers.antt =====
-- The measuring threads of src/dist/memcached/mc_mt_ycsb.cpp. libmemcached is a parameter: the answer of
-- each of its calls, and the server's state behind it.
pub mod Counts
use testbed.Prelude.{
  ℕ, zero, suc, ◌+◌, ◌-◌, ◌*◌, ◌/◌, ◌%◌, Bool, true, false, Option, List, [], ◌∷◌, Bytes, take,
  drop, if◌then◌else◌,
}
use testbed.Utils.Tracer.{YcsbOperator, lookup, insert, erase, update, scan, YcsbRequest}

-- `true` is MEMCACHED_SUCCESS. A key or value is its pointer's string and the length that is passed.
pub record Memcached {ℓ} (S : Type ℓ) : Type ℓ where
  pub memcached_get : Bytes → ℕ → S → Bool × S
  pub memcached_set : Bytes → ℕ → Option Bytes → ℕ → S → Bool × S
  pub memcached_delete : Bytes → ℕ → S → Bool × S

pub record Hits : Type 0 where
  pub mhit : ℕ
  pub rhit : ℕ
  pub mfail : ℕ
  pub rfail : ℕ

abbrev pub u64_mod : ℕ
u64_mod = 18446744073709551616

unfoldable pub count_read : Bool → Hits → Hits
count_read ok h =
    if ok
    then record h { rhit = (h.rhit + 1) % u64_mod }
    else record h { rfail = (h.rfail + 1) % u64_mod }

unfoldable pub count_modify : Bool → Hits → Hits
count_modify ok h =
    if ok
    then record h { mhit = (h.mhit + 1) % u64_mod }
    else record h { mfail = (h.mfail + 1) % u64_mod }

-- The `switch` on a request's operation.
unfoldable pub run_request {ℓ} :
    {S : Type ℓ} → Memcached S → YcsbRequest Bytes → Hits → S → Hits × S
run_request m r h s = elim r.op [
  | lookup ↦ let (ok, s') = m.memcached_get r.key r.ks s in (count_read ok h, s')
  | insert ↦ let (ok, s') = m.memcached_set r.key r.ks r.val r.vs s in (count_modify ok h, s')
  | erase ↦ let (ok, s') = m.memcached_delete r.key r.ks s in (count_modify ok h, s')
  | update ↦ let (ok, s') = m.memcached_set r.key r.ks r.val r.vs s in (count_modify ok h, s')
  | scan ↦ (h, s)
]

unfoldable pub run_requests {ℓ} :
    {S : Type ℓ} → Memcached S → List (YcsbRequest Bytes) → Hits → S → Hits × S
run_requests m [] h s = (h, s)
run_requests m (r ∷ rs) h s = let (h', s') = run_request m r h s in run_requests m rs h' s'

-- `tid * total_count / thread_number`, in 64 bits. The count is taken to fit the `int` that runs through it.
unfoldable pub worker_bound : ℕ → ℕ → ℕ → ℕ
worker_bound thread_number total_count tid = tid * total_count % u64_mod / thread_number

-- The requests from a thread's first index to its last.
unfoldable pub worker_requests : ℕ → ℕ → List (YcsbRequest Bytes) → ℕ → List (YcsbRequest Bytes)
worker_requests thread_number total_count runs tid =
    let i = worker_bound thread_number total_count tid in
    take (worker_bound thread_number total_count (suc tid) - i) (drop i runs)

-- One round of `while (stopMeasure == 0)` of `measureWorker`.
unfoldable pub measure_round {ℓ} :
    {S : Type ℓ} → Memcached S → ℕ → ℕ → List (YcsbRequest Bytes) → ℕ → Hits → S → Hits × S
measure_round m thread_number total_count runs tid h s =
    run_requests m (worker_requests thread_number total_count runs tid) h s
