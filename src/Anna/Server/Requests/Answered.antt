-- ===== src/Anna/Server/Requests/Answered.antt =====
-- No tuple of a request is lost: user_request_handler of src/dist/anna/src/kvs/user_request_handler.cpp.
use testbed.Prelude.{
  ℕ, ◌+◌, ◌≤◌, ◌≡◌, ◌≢◌, refl, Bool, true, false, ◌||◌, Option, some, none, List, [], ◌∷◌, ◌++◌,
  Bytes, bytes_eq, length, length-append, ◌==◌, if◌then◌else◌, Bool-cases, inl, inr, arith,
}
use testbed.Anna.Lattice.MapLattice.{StringMap, find, at}
use testbed.Anna.Kvs.{Serializer, KeyProperty, kvs_put}
use testbed.Anna.Kvs.Store.{value_or, find-kvs_put}
use testbed.Anna.HashRing.Servers.{ServerThread}
use testbed.Anna.HashRing.Walk.{has}
use testbed.Anna.Metadata.{split, is_metadata, k_metadata_delimiter, k_metadata_identifier}
use testbed.Anna.Cluster.{returned}
use testbed.Anna.Server.Requests.{
  RequestType, KeyTuple, KeyRequest, ServerState, push_at, process_tuple, answer_tuple, suspend,
  track_access, turn_away, serve_tuple, handle_tuple, handle_tuples, prepend_tuples, then_tuples,
  put_tuple, get_tuple, read_key, list_default, conflicts, calls_null, has_serializer,
}

-- How many of the tuples have the key.
unfoldable pub key_count : Bytes → List KeyTuple → ℕ
key_count y [] = 0
key_count y (t ∷ tuples) = (if bytes_eq t.key y then 1 else 0) + key_count y tuples

-- How many requests wait for the key.
unfoldable pub waiting : {S : Type 0} → Bytes → ServerState S → ℕ
waiting y st = length (value_or [] (find y st.pending_requests))

key_count-append :
    (y : Bytes) (xs ys : List KeyTuple) → key_count y (xs ++ ys) ≡ key_count y xs + key_count y ys
unfolding key_count
key_count-append y [] ys = omega arith
key_count-append y (x ∷ xs) ys = omega (arith, key_count-append y xs ys)

pub push_at_as_put :
    {A : Type 0} (k : Bytes) (x : A) (m : StringMap (List A))
    → push_at k x m ≡ kvs_put list_default k (x ∷ []) m
unfolding push_at kvs_put at
push_at_as_put k x m = refl

pub length-push_at :
    {A : Type 0} (k y : Bytes) (x : A) (m : StringMap (List A))
    → length (value_or [] (find y (push_at k x m)))
      ≡ (if bytes_eq k y then 1 else 0) + length (value_or [] (find y m))
unfolding value_or
length-push_at k y x m = elim (Bool-cases (bytes_eq k y)) [
  | inl e ↦
      rw
        (
          push_at_as_put k x m,
          find-kvs_put list_default k y (x ∷ []) m,
          e,
          length-append (value_or [] (find y m)) (x ∷ []),
        )
        (omega arith)
  | inr e ↦ rw (push_at_as_put k x m, find-kvs_put list_default k y (x ∷ []) m, e) (omega arith)
]

split_filled :
    (s : Bytes) (delim : ℕ) (c : ℕ) (item : Bytes)
    → (first : Bytes) × (rest : List Bytes) × (split s delim (item ++ (c ∷ [])) ≡ first ∷ rest)
unfolding split
split_filled [] delim c [] = (c ∷ [], [], refl)
split_filled [] delim c (b ∷ item) = (b ∷ (item ++ (c ∷ [])), [], refl)
split_filled (d ∷ s) delim c item = elim (Bool-cases (d == delim)) [
  | inl e ↦ (item ++ (c ∷ []), split s delim [], rw e refl)
  | inr e ↦
      let (first, rest, here) = split_filled s delim d (item ++ (c ∷ [])) in
      (first, rest, rw e here)
]

is_metadata-first :
    (key first : Bytes) (rest : List Bytes)
    → split key k_metadata_delimiter [] ≡ first ∷ rest
    → is_metadata key ≡ some (bytes_eq first k_metadata_identifier)
unfolding is_metadata
is_metadata-first key first rest e = ground (arith, e)

-- The first part of a key can be read if the key is not empty.
pub is_metadata-some : (key : Bytes) → key ≢ [] → (b : Bool) × (is_metadata key ≡ some b)
unfolding split
is_metadata-some [] h = absurd (h refl)
is_metadata-some (c ∷ s) h = elim (Bool-cases (c == k_metadata_delimiter)) [
  | inl e ↦ (_, is_metadata-first (c ∷ s) [] (split s k_metadata_delimiter []) (rw e refl))
  | inr e ↦
      let (first, rest, here) = split_filled s k_metadata_delimiter c [] in
      (_, is_metadata-first (c ∷ s) first rest (rw e here))
]

-- No key is empty, and every lattice type is one of the enumeration's, 0 to 6.
abbrev pub AreFilled : List KeyTuple → Type 0
AreFilled [] = Unit
AreFilled (t ∷ tuples) = ((t.key ≢ []) × (t.lattice_type ≤ 6)) × AreFilled tuples

-- A lattice type of the enumeration has a serializer, or is none.
pub calls_null-enumerated :
    (type' : RequestType) (lattice_type : ℕ) (stored : Option KeyProperty)
    → lattice_type ≤ 6
    → calls_null type' lattice_type stored ≡ false
unfolding calls_null has_serializer
calls_null-enumerated RequestType.put n stored h = elim (Bool-cases (conflicts n stored)) [
  | inl e ↦ rw e (ground arith)
  | inr e ↦ rw e (ground (arith, h))
]
calls_null-enumerated RequestType.get n stored h = refl
calls_null-enumerated RequestType.rt_unspecified n stored h = refl

module _ {S : Type 0} (serializers : ℕ → Serializer S) where
  get_tuple-key :
      (key : Bytes) (o : Option KeyProperty) (s : S) → (get_tuple serializers key o s).0.key ≡ key
  unfolding get_tuple read_key
  get_tuple-key key none s = refl
  get_tuple-key key (some p) s = elim (Bool-cases (p.type_ == 0)) [
    | inl e ↦ rw e refl
    | inr e ↦ rw e refl
  ]

  process_tuple-waiting :
      (type' : RequestType) (key : Bytes) (lattice_type : ℕ) (payload : Bytes) (st : ServerState S)
      → (let (tp, st') = process_tuple serializers type' key lattice_type payload st in
          (tp.key ≡ key) × (st'.pending_requests ≡ st.pending_requests))
  unfolding process_tuple put_tuple
  process_tuple-waiting RequestType.rt_unspecified key l p st = (refl, refl)
  process_tuple-waiting RequestType.get key l p st =
      (get_tuple-key key (find key st.stored_key_map) st.store, refl)
  process_tuple-waiting RequestType.put key l p st =
      elim (Bool-cases ((l == 0) || conflicts l (find key st.stored_key_map))) [
        | inl e ↦ rw e (refl, refl)
        | inr e ↦ rw e (refl, refl)
      ]

  module _ (get_responsible_threads : Bytes → Option (List ServerThread))
      (is_self : ServerThread → ServerThread → Bool) (wt : ServerThread) (clock : ℕ → ℕ) where
    suspend-waiting :
        (y : Bytes) (request : KeyRequest) (t : KeyTuple) (st : ServerState S)
        → waiting y (suspend serializers get_responsible_threads is_self wt clock request t st)
          ≡ (if bytes_eq t.key y then 1 else 0) + waiting y st
    unfolding suspend waiting
    suspend-waiting y request t st = length-push_at t.key y _ st.pending_requests

    -- What one tuple adds to the response and to the waiting requests.
    serve_tuple-conserves :
        (y : Bytes) (metadata : Bool) (o : Option (List ServerThread)) (request : KeyRequest)
        (t : KeyTuple) (st : ServerState S)
        → (let (ts, st') =
              serve_tuple serializers get_responsible_threads is_self wt clock metadata o request t
                st in
            key_count y ts + waiting y st' ≡ (if bytes_eq t.key y then 1 else 0) + waiting y st)
    unfolding serve_tuple turn_away answer_tuple key_count track_access waiting
    serve_tuple-conserves y metadata none request t st =
        omega (arith, suspend-waiting y request t st)
    serve_tuple-conserves y metadata (some threads) request t st =
        elim (Bool-cases (has is_self wt threads)) [
          | inl e ↦
              let (key, kept) =
                process_tuple-waiting request.type' t.key t.lattice_type t.payload st in
              rw (e, key, kept) (omega arith)
          | inr e ↦ rw e (away metadata)
        ]
      where
        away :
            (b : Bool)
            → (let (ts, st') =
                  turn_away serializers get_responsible_threads is_self wt clock b request t st in
                key_count y ts + waiting y st' ≡ (if bytes_eq t.key y then 1 else 0) + waiting y st)
        away true = omega arith
        away false =
            omega (arith, suspend-waiting y request t (record st { issued = t.key ∷ st.issued }))

    -- Every tuple of a request is answered or left waiting: of each key, the response has as many tuples and
    -- as many more requests wait as the request has tuples. The keys are not empty, and the lattice types
    -- are ones of the enumeration.
    pub handle_tuples-conserves :
        (request : KeyRequest) (tuples : List KeyTuple) (st : ServerState S)
        → AreFilled tuples
        → (ts : List KeyTuple) × (st' : ServerState S) × (handle_tuples serializers
              get_responsible_threads is_self wt clock request tuples st
            ≡ returned (ts, st'))
          × ((y : Bytes) → key_count y ts + waiting y st' ≡ key_count y tuples + waiting y st)
    unfolding handle_tuples handle_tuple then_tuples prepend_tuples key_count
    handle_tuples-conserves request [] st h = ([], st, refl, λ y. refl)
    handle_tuples-conserves request (t ∷ tuples) st h =
        let (metadata, known) = is_metadata-some t.key h.0.0 in
        let (here, st1) =
          serve_tuple serializers get_responsible_threads is_self wt clock metadata
            (get_responsible_threads t.key) request t st in
        let (ts, st', run, sums) = handle_tuples-conserves request tuples st1 h.1 in
        (
          here ++ ts,
          st',
          rw (known, calls_null-enumerated request.type' t.lattice_type _ h.0.1, run) refl,
          λ y.
              let one =
                serve_tuple-conserves y metadata (get_responsible_threads t.key) request t st in
              omega (arith, key_count-append y here ts, one, sums y),
        )
