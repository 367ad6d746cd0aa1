-- ===== src/Memcached/Batches.antt =====
-- src/dist/memcached/mc_mt.cpp: requests of the YCSB reader are packed into batches in memcached's binary
-- protocol, and threads send the batches. Lengths are taken to be below 2 ^ 31, so that `int` holds them.
pub mod Packing
pub mod Loaded
pub mod Sending
use testbed.Prelude.{
  ℕ, zero, suc, ◌+◌, ◌-◌, ◌*◌, ◌/◌, ◌%◌, Bool, true, false, Option, some, none, List, [], ◌∷◌, ◌++◌,
  Bytes, length, take, drop, replicate, if◌then◌else◌, ◌==◌, ltb,
}
use testbed.Com.Header.{htons, htonl}
use testbed.Utils.Tracer.{YcsbOperator, lookup, insert, erase, update, scan, YcsbRequest}

abbrev pub batch_size : ℕ
batch_size = 4096

-- `buf` holds what has been written; the rest of its `batch_size` bytes is zero.
pub record SendBatch : Type 0 where
  pub buf : Bytes
  pub size : ℕ

-- What lies behind the pointer of a request's value: none, or what `strdup` allocated.
unfoldable pub strdup : Bytes → Bytes
strdup s = s ++ (0 ∷ [])

-- `memcpy` of `n` bytes from an allocation, where they are in it.
unfoldable pub copied : ℕ → Bytes → Option Bytes
copied n source = if ltb (length source) n then none else some (take n source)

unfoldable pub value_of : Option Bytes → Bytes
value_of none = []
value_of (some v) = strdup v

unfoldable pub get_package_size : YcsbRequest Bytes → ℕ
get_package_size req = elim req.op [
  | lookup ↦ 24 + req.ks
  | insert ↦ 32 + req.ks + req.vs
  | erase ↦ batch_size
  | update ↦ 32 + req.ks + req.vs
  | scan ↦ batch_size
]

-- An `unsigned short` and an `unsigned int` in the memory of a little-endian host.
abbrev pub stored_16 : ℕ → Bytes → Bytes
stored_16 n rest = (n % 256) ∷ ((n / 256 % 256) ∷ rest)

abbrev pub stored_32 : ℕ → Bytes → Bytes
stored_32 n rest = stored_16 (n % 65536) (stored_16 (n / 65536) rest)

-- GETQ: 24 bytes of header, and the key.
unfoldable pub get_package : ℕ → Bytes → Bytes
get_package ks key =
    0x80
    ∷ (0x00
        ∷ stored_16 (htons (ks % 65536))
            (replicate 4 0 ++ stored_32 (htonl (ks % 4294967296)) (replicate 12 0 ++ key)))

-- SET: 24 bytes of header and 8 of extras, the key and the value.
unfoldable pub set_package : ℕ → ℕ → Bytes → Bytes → Bytes
set_package ks vs key val =
    0x80
    ∷ (0x01
        ∷ stored_16 (htons (ks % 65536)) (
            0x08
            ∷ (replicate 3 0
                ++ stored_32 (htonl ((ks + vs + 8) % 4294967296))
                    (replicate 20 0 ++ (key ++ val)))))

unfoldable pub con_get : YcsbRequest Bytes → Option Bytes
con_get req = elim (copied req.ks (strdup req.key)) [
  | none ↦ none
  | some key ↦ some (get_package req.ks key)
]

unfoldable pub con_set : YcsbRequest Bytes → Option Bytes
con_set req = elim (copied req.ks (strdup req.key)) [
  | none ↦ none
  | some key ↦ elim (copied req.vs (value_of req.val)) [
    | none ↦ none
    | some val ↦ some (set_package req.ks req.vs key val)
  ]
]

-- The bytes of `memset`, which a request of another kind leaves.
unfoldable pub untouched : Bytes
untouched = replicate batch_size 0

-- The bytes at `buf`; `none` is a read past the end of the key or the value.
unfoldable pub con_package : YcsbRequest Bytes → Option Bytes
con_package req = elim req.op [
  | lookup ↦ con_get req
  | insert ↦ con_set req
  | erase ↦ some untouched
  | update ↦ con_set req
  | scan ↦ some untouched
]

pub data Packed : Type 0 where
  packed : List SendBatch → Packed
  fault : Packed
  out_of_fuel : Packed

-- The loop of `con_database`: the list is the requests from `i` on. A request that does not fit is tried
-- again (`i--`) with an empty batch.
unfoldable pub con_loop : ℕ → List (YcsbRequest Bytes) → Bytes → ℕ → List SendBatch → Packed
con_loop zero reqs buf offset database = out_of_fuel
con_loop (suc fuel) [] buf offset database =
    packed (database ++ (record { buf = buf; size = offset } ∷ []))
con_loop (suc fuel) (req ∷ reqs) buf offset database =
    elim (ltb batch_size (offset + get_package_size req)) [
      | true ↦
          con_loop fuel (req ∷ reqs) [] 0 (database ++ (record { buf = buf; size = offset } ∷ []))
      | false ↦ elim (con_package req) [
        | none ↦ fault
        | some p ↦ con_loop fuel reqs (buf ++ p) (offset + get_package_size req) database
      ]
    ]

unfoldable pub con_database : ℕ → List (YcsbRequest Bytes) → Packed
con_database fuel loads = con_loop fuel loads [] 0 []

-- The batches that thread `tid` of `thread_num` sends in a round; `none` is a division by zero.
unfoldable pub thread_batches {ℓ} : {B : Type ℓ} → ℕ → ℕ → List B → Option (List B)
thread_batches thread_num tid database =
    if thread_num == 0
    then none
    else let send_num = length database / thread_num in
      let start_index = tid * send_num in some (take send_num (drop start_index database))

-- What `write` and `read` answer for one batch; `none` is -1.
pub record Answer : Type 0 where
  pub sentsize : Option ℕ
  pub retsize : Option ℕ

pub record Counters : Type 0 where
  pub writenbytes : ℕ
  pub readnbytes : ℕ
  pub count : ℕ

abbrev u64 : ℕ → ℕ
u64 n = n % 18446744073709551616

-- The body of the inner loop; `none` is the byte behind `ret`, or the one before it, being written.
unfoldable pub send_one : Answer → SendBatch → Counters → Option Counters
send_one a batch c = elim a.sentsize [
  | none ↦ some (record c { writenbytes = u64 (c.writenbytes + 18446744073709551615) })
  | some sent ↦
      let c' : Counters = record c { writenbytes = u64 (c.writenbytes + sent) } in
      if sent == batch.size
      then elim a.retsize [
        | none ↦ none
        | some ret ↦
            if ltb ret batch_size
            then some
                (record c' { readnbytes = u64 (c.readnbytes + ret); count = u64 (c.count + 1) })
            else none
      ]
      else some c'
]

unfoldable pub send_round : List (Answer × SendBatch) → Counters → Option Counters
send_round [] c = some c
send_round ((a, batch) ∷ rest) c = elim (send_one a batch c) [
  | none ↦ none
  | some c' ↦ send_round rest c'
]
