-- ===== src/Memcached/Examples.antt =====
-- The theorems about the load drivers at concrete requests and threads.
use testbed.Prelude.{
  ℕ, suc, ◌+◌, ◌*◌, ◌/◌, ◌≤◌, ◌≡◌, refl, true, false, some, none, List, [], ◌∷◌, ◌++◌, Bytes,
  length, take, arith,
}
use testbed.Utils.Tracer.{lookup, scan, YcsbRequest}
use testbed.Utils.Tracer.Loading.{Entry, IsPrintable, request_of}
use testbed.Memcached.Shares.{shares}
use testbed.Memcached.Batches.{
  get_package, get_package_size, batch_size, copied, strdup, con_get, con_package,
}
use testbed.Memcached.Batches.Packing.{packages}
use testbed.Memcached.Batches.Sending.{sent_below, sent_below-take}
use testbed.Memcached.Workers.{Memcached, worker_bound}
use testbed.Memcached.Workers.Counts.{sent_requests, round_hits, round_hits-sent_requests}
use testbed.Memcached.Strides.{set_worker, get_worker}
use testbed.Memcached.Strides.Reported.{reported, set_worker-reported}

-- A READ of the key "ab", with its length.
abbrev get_ab : YcsbRequest Bytes
get_ab = record { op = lookup; key = 97 ∷ 98 ∷ []; ks = 2; val = none; vs = 0 }

abbrev scan_ab : YcsbRequest Bytes
scan_ab = record { op = scan; key = 97 ∷ 98 ∷ []; ks = 2; val = none; vs = 0 }

get_ab-packages :
    packages (get_ab ∷ get_ab ∷ [])
    ≡ some (get_package 2 (97 ∷ 98 ∷ []) ++ (get_package 2 (97 ∷ 98 ∷ []) ++ []))
unfolding packages con_package con_get copied strdup
get_ab-packages = refl

get_ab_size : get_package_size get_ab ≤ batch_size
unfolding get_package_size
get_ab_size = omega arith

-- `READ t user1 x`.
abbrev read_line : Entry
read_line = record {
  op = lookup;
  table = 116 ∷ [];
  key = 117 ∷ 115 ∷ 101 ∷ 114 ∷ 49 ∷ [];
  val = 120 ∷ [];
}

read_line-IsPrintable : IsPrintable read_line
read_line-IsPrintable = record {
  table-IsWord = (refl, tt);
  key-IsWord = (refl, (refl, (refl, (refl, (refl, tt)))));
  has_prefix = omega arith;
  has_value = omega arith;
}

read_line_size : get_package_size (request_of (λ k. k) read_line) ≤ batch_size
unfolding get_package_size request_of
read_line_size = omega arith

abbrev five : List ℕ
five = 1 ∷ 2 ∷ 3 ∷ 4 ∷ 5 ∷ []

-- Five batches and two threads.
sent_below-take_example : sent_below 2 2 five ≡ some (take (2 * (length five / 2)) five)
sent_below-take_example = sent_below-take 2 five (λ e. omega (arith, e))

-- A server that counts its calls, and refuses to delete.
abbrev counting : Memcached ℕ
counting = record {
  memcached_get = λ key n s. (true, suc s);
  memcached_set = λ key n val m s. (true, suc s);
  memcached_delete = λ key n s. (false, suc s);
}

round_hits-sent_requests_example :
    (shares (worker_bound 2 3) 2 (get_ab ∷ scan_ab ∷ get_ab ∷ []) ≡ get_ab ∷ scan_ab ∷ get_ab ∷ [])
    × (round_hits counting 2 3 (get_ab ∷ scan_ab ∷ get_ab ∷ []) (λ t. 0) 2
        ≡ sent_requests (get_ab ∷ scan_ab ∷ get_ab ∷ []))
round_hits-sent_requests_example =
    round_hits-sent_requests counting 2 (get_ab ∷ scan_ab ∷ get_ab ∷ []) (λ t. 0) (omega arith)
      (omega arith)

abbrev digit : ℕ → Bytes
digit n = (48 + n) ∷ []

set_worker-reported_example :
    (reported (set_worker counting digit 2 5) (λ t. 0) 2 ≡ some 5)
    × (reported (get_worker counting digit 2 5) (λ t. 0) 2 ≡ some 5)
set_worker-reported_example =
    set_worker-reported counting digit 2 5 (λ t. 0) (omega arith) (omega arith)
