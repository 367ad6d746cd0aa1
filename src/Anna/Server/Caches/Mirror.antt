-- ===== src/Anna/Server/Caches/Mirror.antt =====
-- The two maps of the cache handlers of src/dist/anna/src/kvs stay inverse to each other.
use testbed.Prelude.{
  ◌≡◌, refl, sym, ap, ◌∙◌, Bool, true, false, ◌&&◌, ◌||◌, not, List, [], ◌∷◌, Bytes, bytes_eq,
  bytes_eq_iff, if◌then◌else◌, Bool-cases, inl, inr, arith,
}
use testbed.Anna.Lattice.SetLattice.{StringSet, elem, set_insert}
use testbed.Anna.Lattice.SetLattice.Laws.{elem-insert}
use testbed.Anna.Lattice.MapLattice.{StringMap}
use testbed.Anna.Server.Maps.{
  set_erase, erase_keys, map_erase, change, set_at, each_value, insert_keys, set_at-change,
  elem-set_erase, elem-erase_keys, elem-insert_keys, set_at-map_erase, set_at-each_value,
}
use testbed.Anna.Metadata.{find_from, index_of}
use testbed.Anna.Server.Caches.{
  CacheMaps, drop_keys, add_keys, update_cache, CacheTuple, is_no_error, cache_tuple,
  cache_ip_response_handler, get_key_from_user_metadata, get_user_metadata_key, forget_caches,
  track_caches,
}

-- A cache's key has the cache among its addresses, and the other way round.
abbrev pub IsMirrored : CacheMaps → Type 0
IsMirrored s =
    (ip key : Bytes)
    → elem key (set_at ip s.cache_ip_to_keys) ≡ elem ip (set_at key s.key_to_cache_ips)

bytes_eq_refl : (x : Bytes) → bytes_eq x x ≡ true
bytes_eq_refl x = (bytes_eq_iff x x).1 refl

elem-change_insert :
    (k j x y : Bytes) (m : StringMap StringSet)
    → elem y (set_at j (change k (set_insert x) m))
      ≡ ((bytes_eq k j && bytes_eq x y) || elem y (set_at j m))
elem-change_insert k j x y m = elim (Bool-cases (bytes_eq k j)) [
  | inl e ↦ rw (set_at-change k j (set_insert x) m, e) (elem-insert x y (set_at j m))
  | inr e ↦ rw (set_at-change k j (set_insert x) m, e) refl
]

elem-change_erase :
    (k j x y : Bytes) (m : StringMap StringSet)
    → elem y (set_at j (change k (set_erase x) m))
      ≡ (not (bytes_eq k j && bytes_eq x y) && elem y (set_at j m))
elem-change_erase k j x y m = elim (Bool-cases (bytes_eq k j)) [
  | inl e ↦ rw (set_at-change k j (set_erase x) m, e) (elem-set_erase x y (set_at j m))
  | inr e ↦ rw (set_at-change k j (set_erase x) m, e) refl
]

-- The addresses of a key after the loop over the deleted keys.
elem-drop_keys :
    (cache_ip : Bytes) (deleted : List Bytes) (ip key : Bytes) (m : StringMap StringSet)
    → elem ip (set_at key (drop_keys cache_ip deleted m))
      ≡ (not (elem key deleted && bytes_eq cache_ip ip) && elem ip (set_at key m))
unfolding drop_keys elem
elem-drop_keys c [] ip key m = ground arith
elem-drop_keys c (k ∷ deleted) ip key m = ground (
  arith,
  elem-drop_keys c deleted ip key (change k (set_erase c) m),
  elem-change_erase k key c ip m,
)

-- Both maps after the last loop.
elem-add_keys :
    (cache_ip : Bytes) (keys : List Bytes) (ip key : Bytes) (s : CacheMaps)
    → (elem key (set_at ip (add_keys cache_ip keys s).cache_ip_to_keys)
        ≡ ((bytes_eq cache_ip ip && elem key keys) || elem key (set_at ip s.cache_ip_to_keys)))
      × (elem ip (set_at key (add_keys cache_ip keys s).key_to_cache_ips)
          ≡ ((bytes_eq cache_ip ip && elem key keys) || elem ip (set_at key s.key_to_cache_ips)))
unfolding add_keys elem
elem-add_keys c [] ip key s = (ground arith, ground arith)
elem-add_keys c (k ∷ keys) ip key s =
    let next : CacheMaps = record s {
      cache_ip_to_keys = change c (set_insert k) s.cache_ip_to_keys;
      key_to_cache_ips = change k (set_insert c) s.key_to_cache_ips;
    } in
    let (here, there) = elem-add_keys c keys ip key next in
    (
      ground (arith, here, elem-change_insert c ip k key s.cache_ip_to_keys),
      ground (arith, there, elem-change_insert k key c ip s.key_to_cache_ips),
    )

-- The keys of a cache after an update of a cache: those of the message, if it is that one.
elem-update_cache :
    (cache_ip : Bytes) (keys : List Bytes) (ip key : Bytes) (s : CacheMaps)
    → elem key (set_at ip (update_cache cache_ip keys s).cache_ip_to_keys)
      ≡ (if bytes_eq cache_ip ip then elem key keys else elem key (set_at ip s.cache_ip_to_keys))
unfolding update_cache elem
elem-update_cache c keys ip key s =
    let remaining = change c (erase_keys keys) s.cache_ip_to_keys in
    let cleared = set_at-change c ip (λ old. []) remaining in
    (elem-add_keys c keys ip key _).0 ∙ elim (Bool-cases (bytes_eq c ip)) [
      | inl e ↦ rw (cleared, e) (ground arith)
      | inr e ↦ rw (cleared, e, set_at-change c ip (erase_keys keys) s.cache_ip_to_keys, e) refl
    ]

-- The addresses of a key after it.
elem-update_cache_ips :
    (cache_ip : Bytes) (keys : List Bytes) (ip key : Bytes) (s : CacheMaps)
    → IsMirrored s
    → elem ip (set_at key (update_cache cache_ip keys s).key_to_cache_ips)
      ≡ (if bytes_eq cache_ip ip then elem key keys else elem ip (set_at key s.key_to_cache_ips))
unfolding update_cache
elem-update_cache_ips c keys ip key s h =
    let remaining = change c (erase_keys keys) s.cache_ip_to_keys in
    (elem-add_keys c keys ip key _).1
    ∙ rw (elem-drop_keys c (set_at c remaining) ip key s.key_to_cache_ips)
        (elim (Bool-cases (bytes_eq c ip)) [
          | inl e ↦
              let same = (bytes_eq_iff c ip).0 e in
              rw
                (
                  set_at-change c c (erase_keys keys) s.cache_ip_to_keys,
                  bytes_eq_refl c,
                  e,
                  elem-erase_keys keys key (set_at c s.cache_ip_to_keys),
                )
                (ground (arith, h c key, ap (λ x. elem x (set_at key s.key_to_cache_ips)) same))
          | inr e ↦ rw e (ground arith)
        ])

update_cache-IsMirrored :
    (cache_ip : Bytes) (keys : List Bytes) (s : CacheMaps)
    → IsMirrored s
    → IsMirrored (update_cache cache_ip keys s)
update_cache-IsMirrored c keys s h ip key = elim (Bool-cases (bytes_eq c ip)) [
  | inl e ↦ rw (elem-update_cache c keys ip key s, elem-update_cache_ips c keys ip key s h, e) refl
  | inr e ↦
      rw (elem-update_cache c keys ip key s, elem-update_cache_ips c keys ip key s h, e) (h ip key)
]

set_at-forget_caches :
    (deleted : List Bytes) (ip key : Bytes) (s : CacheMaps)
    → (elem key (set_at ip (forget_caches deleted s).cache_ip_to_keys)
        ≡ (not (elem ip deleted) && elem key (set_at ip s.cache_ip_to_keys)))
      × (elem ip (set_at key (forget_caches deleted s).key_to_cache_ips)
          ≡ (not (elem ip deleted) && elem ip (set_at key s.key_to_cache_ips)))
unfolding forget_caches elem set_erase
set_at-forget_caches [] ip key s = (ground arith, ground arith)
set_at-forget_caches (c ∷ deleted) ip key s =
    let next : CacheMaps = record s {
      cache_ip_to_keys = map_erase c s.cache_ip_to_keys;
      key_to_cache_ips = each_value (set_erase c) s.key_to_cache_ips;
    } in
    let (here, there) = set_at-forget_caches deleted ip key next in
    (
      here
          ∙ rw (set_at-map_erase c ip s.cache_ip_to_keys) (elim (Bool-cases (bytes_eq c ip)) [
            | inl e ↦ rw e (ground arith)
            | inr e ↦ rw e (ground arith)
          ]),
      there
          ∙ rw
              (
                set_at-each_value (set_erase c) key s.key_to_cache_ips (erase-nil c),
                elem-set_erase c ip (set_at key s.key_to_cache_ips),
              )
              (ground arith),
    )
  where
    erase-nil : (x : Bytes) → set_erase x [] ≡ []
    erase-nil x = refl

forget_caches_extant :
    (deleted : List Bytes) (ip : Bytes) (s : CacheMaps)
    → elem ip (forget_caches deleted s).extant_caches ≡ elem ip s.extant_caches
unfolding forget_caches
forget_caches_extant [] ip s = refl
forget_caches_extant (c ∷ deleted) ip s = forget_caches_extant deleted ip (record s {
  cache_ip_to_keys = map_erase c s.cache_ip_to_keys;
  key_to_cache_ips = each_value (set_erase c) s.key_to_cache_ips;
})

-- After a list of function nodes the caches known are those of the list. A cache that was known and is not
-- on the list has no keys left and stands under no key; what is kept of any other is as before, also of one
-- that was not known: a response that comes after the cache was forgotten is kept until the cache is known
-- again.
pub track_caches-forgets :
    (func_nodes : List Bytes) (s : CacheMaps) (ip key : Bytes)
    → (let s' = track_caches func_nodes s in
        let kept = elem ip func_nodes || not (elem ip s.extant_caches) in
        (elem ip s'.extant_caches ≡ elem ip func_nodes)
        × (elem key (set_at ip s'.cache_ip_to_keys)
            ≡ (kept && elem key (set_at ip s.cache_ip_to_keys)))
        × (elem ip (set_at key s'.key_to_cache_ips)
            ≡ (kept && elem ip (set_at key s.key_to_cache_ips))))
unfolding track_caches elem
track_caches-forgets nodes s ip key =
    let start : CacheMaps = record s { extant_caches = insert_keys nodes [] } in
    let deleted = erase_keys nodes s.extant_caches in
    let (here, there) = set_at-forget_caches deleted ip key start in
    let gone = elem-erase_keys nodes ip s.extant_caches in
    (
      forget_caches_extant deleted ip start ∙ elem-insert_keys nodes ip [] ∙ ground arith,
      here ∙ rw gone (ground arith),
      there ∙ rw gone (ground arith),
    )

track_caches-IsMirrored :
    (func_nodes : List Bytes) (s : CacheMaps)
    → IsMirrored s
    → IsMirrored (track_caches func_nodes s)
track_caches-IsMirrored nodes s h ip key =
    let (extant, here, there) = track_caches-forgets nodes s ip key in
    here ∙ rw (h ip key) (sym there)

if-IsMirrored :
    (b : Bool) (x y : CacheMaps) → IsMirrored x → IsMirrored y → IsMirrored (if b then x else y)
if-IsMirrored true x y h k = h
if-IsMirrored false x y h k = k

module _ (lww_value : Bytes → Bytes) (string_set : Bytes → List Bytes) where
  cache_tuple-IsMirrored :
      (t : CacheTuple) (s : CacheMaps)
      → IsMirrored s
      → IsMirrored (cache_tuple lww_value string_set t s)
  unfolding cache_tuple
  cache_tuple-IsMirrored t s h =
      if-IsMirrored (is_no_error t.error)
        (update_cache (get_key_from_user_metadata t.key) (string_set (lww_value t.payload)) s) s
        (update_cache-IsMirrored (get_key_from_user_metadata t.key)
          (string_set (lww_value t.payload)) s h)
        h

  response-IsMirrored :
      (tuples : List CacheTuple) (s : CacheMaps)
      → IsMirrored s
      → IsMirrored (cache_ip_response_handler lww_value string_set tuples s)
  unfolding cache_ip_response_handler
  response-IsMirrored [] s h = h
  response-IsMirrored (t ∷ tuples) s h =
      response-IsMirrored tuples (cache_tuple lww_value string_set t s)
        (cache_tuple-IsMirrored t s h)

  -- Whether a key is listed for a cache and the cache for the key is the same question before and after
  -- any response with the caches' keys, and before and after any list of function nodes.
  pub caches-IsMirrored :
      (s : CacheMaps)
      → IsMirrored s
      → ((tuples : List CacheTuple)
          → IsMirrored (cache_ip_response_handler lww_value string_set tuples s))
        × ((func_nodes : List Bytes) → IsMirrored (track_caches func_nodes s))
  caches-IsMirrored s h =
      (λ tuples. response-IsMirrored tuples s h, λ nodes. track_caches-IsMirrored nodes s h)

  key_of_cache : (ip : Bytes) → get_key_from_user_metadata (get_user_metadata_key ip) ≡ ip
  unfolding get_key_from_user_metadata get_user_metadata_key find_from index_of bytes_eq
  key_of_cache ip = refl

  -- The answer to the request for a cache's keys that has no error makes the keys of that cache those of
  -- the answer, and leaves the keys of every other; an answer with an error changes nothing.
  pub cache_tuple-listed :
      (tuple : CacheTuple) (asked ip key : Bytes) (s : CacheMaps)
      → tuple.key ≡ get_user_metadata_key asked
      → (let s' = cache_tuple lww_value string_set tuple s in
          elem key (set_at ip s'.cache_ip_to_keys) ≡ (
            if is_no_error tuple.error && bytes_eq asked ip
            then elem key (string_set (lww_value tuple.payload))
            else elem key (set_at ip s.cache_ip_to_keys)))
  unfolding cache_tuple
  cache_tuple-listed t asked ip key s h = elim (Bool-cases (is_no_error t.error)) [
    | inl e ↦
        rw (e, h, key_of_cache asked)
          (elem-update_cache asked (string_set (lww_value t.payload)) ip key s)
    | inr e ↦ rw e refl
  ]
