-- ===== src/Memcached/Workers/Counts.antt =====
-- The shares of the measuring threads of src/dist/memcached/mc_mt_ycsb.cpp, and what their counters add up
-- to.
use native.Mathlib.Nat.{
  suc-mul, zero-div, zero-mul, mul-div_right, mod-eq_of_lt, le-div_iff_mul-le, div-mul-le_self,
  mul-le-mul_right,
}
use testbed.Prelude.{
  ℕ, zero, suc, ◌+◌, ◌-◌, ◌*◌, ◌/◌, ◌≤◌, ◌<◌, ◌≡◌, refl, sym, ap, ◌∙◌, Bool, true, false, List, [],
  ◌∷◌, ◌++◌, Bytes, length, take, drop, length-take, length-drop, take_of_length_le, arith,
}
use testbed.Utils.Tracer.{lookup, insert, erase, update, scan, YcsbRequest}
use testbed.Memcached.Shares.{share, shares, shares-take}
use testbed.Memcached.Workers.{
  Memcached, Hits, u64_mod, count_read, count_modify, run_request, run_requests, worker_bound,
  worker_requests, measure_round,
}

-- How many requests of a list are sent to the server: all but SCAN.
unfoldable pub sent_requests : List (YcsbRequest Bytes) → ℕ
sent_requests [] = 0
sent_requests (r ∷ rs) =
    elim r.op [ lookup ↦ 1 | insert ↦ 1 | erase ↦ 1 | update ↦ 1 | scan ↦ 0 ] + sent_requests rs

unfoldable pub all_hits : Hits → ℕ
all_hits h = h.mhit + h.rhit + h.mfail + h.rfail

sent_requests-none : sent_requests [] ≡ 0
unfolding sent_requests
sent_requests-none = refl

sent_requests-append :
    (xs ys : List (YcsbRequest Bytes))
    → sent_requests (xs ++ ys) ≡ sent_requests xs + sent_requests ys
unfolding sent_requests
sent_requests-append [] ys = omega arith
sent_requests-append (x ∷ xs) ys = omega (arith, sent_requests-append xs ys)

count_read-all_hits :
    (ok : Bool) (h : Hits) → all_hits h + 1 < u64_mod → all_hits (count_read ok h) ≡ all_hits h + 1
unfolding all_hits count_read
count_read-all_hits true h lt = omega arith
count_read-all_hits false h lt = omega arith

count_modify-all_hits :
    (ok : Bool) (h : Hits)
    → all_hits h + 1 < u64_mod
    → all_hits (count_modify ok h) ≡ all_hits h + 1
unfolding all_hits count_modify
count_modify-all_hits true h lt = omega arith
count_modify-all_hits false h lt = omega arith

worker_requests-share :
    (thread_number total_count : ℕ) (runs : List (YcsbRequest Bytes)) (t : ℕ)
    → worker_requests thread_number total_count runs t
      ≡ share (worker_bound thread_number total_count) t runs
unfolding worker_requests
worker_requests-share tn tc runs t = refl

worker_requests-short :
    (thread_number total_count : ℕ) (runs : List (YcsbRequest Bytes)) (t : ℕ)
    → length (worker_requests thread_number total_count runs t) ≤ length runs
unfolding worker_requests
worker_requests-short tn tc runs t =
    let i = worker_bound tn tc t in
    let k = worker_bound tn tc (suc t) - i in
    grind (arith, length-take k (drop i runs), length-drop i runs)

-- The bounds of the threads go from none to all, and never back, where they do not overflow.
module _ (thread_number total_count : ℕ) (some_thread : 0 < thread_number)
    (fits : thread_number * total_count < u64_mod) where
  bound-exact :
      (t : ℕ)
      → t ≤ thread_number
      → worker_bound thread_number total_count t ≡ t * total_count / thread_number
  unfolding worker_bound
  bound-exact t le =
      let below : t * total_count ≤ thread_number * total_count = mul-le-mul_right total_count le in
      ap (λ (k : ℕ). k / thread_number) (mod-eq_of_lt (omega arith))

  bound_zero : worker_bound thread_number total_count 0 ≡ 0
  bound_zero =
      bound-exact 0 (omega arith)
      ∙ ap (λ (k : ℕ). k / thread_number) (zero-mul total_count)
      ∙ zero-div thread_number

  bound_all : worker_bound thread_number total_count thread_number ≡ total_count
  bound_all = bound-exact thread_number (omega arith) ∙ mul-div_right total_count some_thread

  bound_up :
      (t : ℕ)
      → t < thread_number
      → worker_bound thread_number total_count t ≤ worker_bound thread_number total_count (suc t)
  bound_up t lt =
      let q = t * total_count / thread_number in
      let down : q * thread_number ≤ t * total_count =
        div-mul-le_self (t * total_count) thread_number in
      let q_up : q ≤ suc t * total_count / thread_number =
        (le-div_iff_mul-le some_thread).1 (omega (arith, down, suc-mul t total_count)) in
      rw (bound-exact t (omega arith), bound-exact (suc t) (omega arith)) q_up

module _ {ℓ} {S : Type ℓ} (m : Memcached S) where
  run_request-all_hits :
      (r : YcsbRequest Bytes) (rs : List (YcsbRequest Bytes)) (h : Hits) (s : S)
      → all_hits h + 1 < u64_mod
      → all_hits (run_request m r h s).0 + sent_requests rs ≡ all_hits h + sent_requests (r ∷ rs)
  unfolding run_request sent_requests
  run_request-all_hits r rs h s lt = grind (
    arith,
    count_read-all_hits (m.memcached_get r.key r.ks s).0 h lt,
    count_modify-all_hits (m.memcached_set r.key r.ks r.val r.vs s).0 h lt,
    count_modify-all_hits (m.memcached_delete r.key r.ks s).0 h lt,
  )

  run_request-upper :
      (r : YcsbRequest Bytes) (h : Hits) (s : S)
      → all_hits h + 1 < u64_mod
      → all_hits (run_request m r h s).0 ≤ all_hits h + 1
  unfolding run_request
  run_request-upper r h s lt = grind (
    arith,
    count_read-all_hits (m.memcached_get r.key r.ks s).0 h lt,
    count_modify-all_hits (m.memcached_set r.key r.ks r.val r.vs s).0 h lt,
    count_modify-all_hits (m.memcached_delete r.key r.ks s).0 h lt,
  )

  -- The counters of a thread grow by the requests that it sends, if they do not pass 64 bits.
  pub run_requests-all_hits :
      (rs : List (YcsbRequest Bytes)) (h : Hits) (s : S)
      → all_hits h + length rs < u64_mod
      → all_hits (run_requests m rs h s).0 ≡ all_hits h + sent_requests rs
  unfolding run_requests
  run_requests-all_hits [] h s lt = omega (arith, sent_requests-none)
  run_requests-all_hits (r ∷ rs) h s lt =
      let next = run_request m r h s in
      let upper = run_request-upper r h s (omega arith) in
      run_requests-all_hits rs next.0 next.1 (omega arith)
      ∙ run_request-all_hits r rs h s (omega arith)

  -- What the first `n` threads add to the global counters in a round each, all started with counters of
  -- zero, thread `t` on the server's state `st t`.
  unfoldable pub round_hits : ℕ → ℕ → List (YcsbRequest Bytes) → (ℕ → S) → ℕ → ℕ
  round_hits thread_number total_count runs st zero = 0
  round_hits thread_number total_count runs st (suc t) =
      let none : Hits = record { mhit = 0; rhit = 0; mfail = 0; rfail = 0 } in
      round_hits thread_number total_count runs st t
      + all_hits (measure_round m thread_number total_count runs t none (st t)).0

  measure_round-all_hits :
      (thread_number total_count : ℕ) (runs : List (YcsbRequest Bytes)) (t : ℕ) (none : Hits)
      (s : S)
      → all_hits none ≡ 0
      → length runs < u64_mod
      → all_hits (measure_round m thread_number total_count runs t none s).0
        ≡ sent_requests (worker_requests thread_number total_count runs t)
  unfolding measure_round
  measure_round-all_hits tn tc runs t none s z lt =
      let rs = worker_requests tn tc runs t in
      let short : length rs ≤ length runs = worker_requests-short tn tc runs t in
      run_requests-all_hits rs none s (omega arith) ∙ omega arith

  round_hits-shares :
      (thread_number total_count : ℕ) (runs : List (YcsbRequest Bytes)) (st : ℕ → S) (n : ℕ)
      → length runs < u64_mod
      → round_hits thread_number total_count runs st n
        ≡ sent_requests (shares (worker_bound thread_number total_count) n runs)
  unfolding round_hits all_hits
  round_hits-shares tn tc runs st zero lt = sym sent_requests-none
  round_hits-shares tn tc runs st (suc t) lt =
      let none : Hits = record { mhit = 0; rhit = 0; mfail = 0; rfail = 0 } in
      let here = measure_round-all_hits tn tc runs t none (st t) refl lt in
      let xs = shares (worker_bound tn tc) t runs in
      omega (
        arith,
        here,
        ap sent_requests (worker_requests-share tn tc runs t),
        round_hits-shares tn tc runs st t lt,
        sent_requests-append xs (share (worker_bound tn tc) t runs),
      )

  -- One round of all threads together sends every request of the list once: it is the threads' shares, one
  -- after the other, and the counters that the threads add up are as many as its requests other than SCAN.
  -- There is a thread, `total_count` is the number of requests, and the product of the two fits 64 bits.
  pub round_hits-sent_requests :
      (thread_number : ℕ) (runs : List (YcsbRequest Bytes)) (st : ℕ → S)
      → 0 < thread_number
      → thread_number * length runs < u64_mod
      → (shares (worker_bound thread_number (length runs)) thread_number runs ≡ runs)
        × (round_hits thread_number (length runs) runs st thread_number ≡ sent_requests runs)
  round_hits-sent_requests tn runs st some fits =
      let all : shares (worker_bound tn (length runs)) tn runs ≡ runs =
        shares-take (worker_bound tn (length runs)) tn runs (bound_zero tn (length runs) some fits)
          (bound_up tn (length runs) some fits)
        ∙ ap (λ (k : ℕ). take k runs) (bound_all tn (length runs) some fits)
        ∙ take_of_length_le (length runs) runs (omega arith) in
      let one : 1 * length runs ≤ tn * length runs = mul-le-mul_right (length runs) some in
      (all, round_hits-shares tn (length runs) runs st tn (omega arith) ∙ ap sent_requests all)
