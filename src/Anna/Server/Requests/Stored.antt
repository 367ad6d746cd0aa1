-- ===== src/Anna/Server/Requests/Stored.antt =====
-- A PUT and the GET behind it, through user_request_handler of
-- src/dist/anna/src/kvs/user_request_handler.cpp.
use testbed.Prelude.{
  ℕ, ◌≡◌, ◌≤◌, ◌≢◌, refl, sym, ap, ◌∙◌, Bool, true, false, Option, some, none, List, [], ◌∷◌, Bytes,
  bytes_eq_iff, length, ◌==◌, if◌then◌else◌, Option-cases, inl, inr, arith,
}
use testbed.Anna.Lattice.Interface.{Lattice}
use testbed.Anna.Lattice.MapLattice.{StringMap, find, contains, update}
use testbed.Anna.Lattice.MapLattice.Laws.{find-update, mapped}
use testbed.Anna.Kvs.{
  Serializer, AnnaError, KeyProperty, process_put, process_get, memory_serializer, set_property,
}
use testbed.Anna.Kvs.Store.{value_or, find-cons}
use testbed.Anna.Kvs.Requests.{process_put-process_get}
use testbed.Anna.HashRing.Servers.{ServerThread}
use testbed.Anna.HashRing.Walk.{has}
use testbed.Anna.Cluster.{returned}
use testbed.Anna.Server.Requests.{
  RequestType, KeyTuple, KeyRequest, KeyResponse, ServerState, process_tuple, answer_tuple,
  get_tuple, read_key, serve_tuple, handle_tuple, handle_tuples, then_tuples, prepend_tuples,
  respond, respond_with, user_request_handler, is_own, calls_null,
}
use testbed.Anna.Server.Requests.Refused.{is_refused, refuses-typed, answer_tuple-silent}
use testbed.Anna.Server.Requests.Answered.{is_metadata-some, calls_null-enumerated}

set_property-missing :
    (key : Bytes) (p : KeyProperty) (m : StringMap KeyProperty)
    → find key m ≡ none
    → set_property key p m ≡ (key, p) ∷ m
unfolding set_property contains
set_property-missing key p m h = ground arith

set_property-there :
    (key : Bytes) (p old : KeyProperty) (m : StringMap KeyProperty)
    → find key m ≡ some old
    → set_property key p m ≡ update key (λ o. p) m
unfolding set_property contains
set_property-there key p old m h = ground arith

find-set_property :
    (key : Bytes) (p : KeyProperty) (m : StringMap KeyProperty)
    → find key (set_property key p m) ≡ some p
unfolding mapped
find-set_property key p m = elim (Option-cases (find key m)) [
  | inl e ↦ rw (set_property-missing key p m e) (find-cons key p m)
  | inr (old, e) ↦
      rw
        (
          set_property-there key p old m e,
          find-update key key (λ o. p) m,
          (bytes_eq_iff key key).1 refl,
          e,
        )
        refl
]

module _ {S : Type 0} (serializers : ℕ → Serializer S)
    (get_responsible_threads : Bytes → Option (List ServerThread))
    (is_self : ServerThread → ServerThread → Bool) (wt : ServerThread) (clock : ℕ → ℕ) where
  -- A request of one key that the thread is responsible for.
  one_tuple :
      (request : KeyRequest) (tuple : KeyTuple) (threads : List ServerThread) (st : ServerState S)
      → request.tuples ≡ tuple ∷ []
      → tuple.key ≢ []
      → calls_null request.type' tuple.lattice_type (find tuple.key st.stored_key_map) ≡ false
      → get_responsible_threads tuple.key ≡ some threads
      → has is_self wt threads ≡ true
      → (let (ts, st') =
            answer_tuple serializers get_responsible_threads is_self wt clock request tuple
              (length threads)
              st in
          user_request_handler serializers get_responsible_threads is_self wt clock request st
          ≡ returned (respond_with request ts, st'))
  unfolding user_request_handler handle_tuples handle_tuple then_tuples prepend_tuples respond
      serve_tuple answer_tuple is_own
  one_tuple request tuple threads st one filled served known self =
      let (metadata, first) = is_metadata-some tuple.key filled in
      rw (one, first, served, known, self) refl

  -- What an accepted PUT leaves of the state.
  put_stored :
      (request : KeyRequest) (tuple : KeyTuple) (threads : ℕ) (st : ServerState S)
      → request.type' ≡ RequestType.put
      → is_refused tuple st ≡ false
      → (let st' =
            (answer_tuple serializers get_responsible_threads is_self wt clock request tuple threads
              st).1 in
          let (store, stored_key_map) =
            process_put
              (serializers tuple.lattice_type)
              tuple.key
              tuple.lattice_type
              tuple.payload
              st.store
              st.stored_key_map in
          (st'.store ≡ store) × (st'.stored_key_map ≡ stored_key_map))
  put_stored request tuple threads st put accepted =
      let (silent, refused, made, counted) =
        answer_tuple-silent serializers get_responsible_threads is_self wt clock request tuple
          threads st put in
      let (store, stored, changed) = made accepted in (store, stored)

  -- What a GET of a stored key answers.
  get_answer :
      (request : KeyRequest) (tuple : KeyTuple) (threads type_ : ℕ) (p : KeyProperty)
      (st : ServerState S)
      → request.type' ≡ RequestType.get
      → find tuple.key st.stored_key_map ≡ some p
      → p.type_ ≡ type_
      → type_ ≢ 0
      → (let ((payload, error), store) = process_get (serializers type_) tuple.key st.store in
          (tp : KeyTuple) × ((answer_tuple serializers get_responsible_threads is_self wt clock
              request tuple threads st).0
            ≡ tp ∷ [])
          × (tp.key ≡ tuple.key)
          × (tp.lattice_type ≡ type_)
          × (tp.payload ≡ payload)
          × (tp.error ≡ error))
  unfolding answer_tuple process_tuple get_tuple read_key
  get_answer request tuple threads type_ p st get there same named =
      let typed : (type_ == 0) ≡ false = ground (arith, named) in
      rw (get, there, same, typed) (_, refl, refl, refl, refl, refl)

calls_null-get :
    (type' : RequestType)
    → type' ≡ RequestType.get
    → (lattice_type : ℕ) (stored : Option KeyProperty)
    → calls_null type' lattice_type stored ≡ false
unfolding calls_null
calls_null-get type' e lattice_type stored = rw e refl

process_put-type :
    {S : Type 0} (serializer : Serializer S) (key : Bytes) (lattice_type : ℕ) (payload : Bytes)
    (s : S) (m : StringMap KeyProperty)
    → (p : KeyProperty) × (find key (process_put serializer key lattice_type payload s m).1
        ≡ some p)
      × (p.type_ ≡ lattice_type)
unfolding process_put
process_put-type serializer key lattice_type payload s m =
    let p : KeyProperty = record {
      size_ = (serializer.put key payload s).0;
      type_ = lattice_type;
    } in
    (p, find-set_property key p m, refl)

typed-nonzero :
    {S : Type 0} (tuple : KeyTuple) (st : ServerState S)
    → is_refused tuple st ≡ false
    → tuple.lattice_type ≢ 0
unfolding is_refused
typed-nonzero tuple st h = refuses-typed tuple.lattice_type _ h

module _ {V : Type 0} (l : Lattice V) (is_empty : V → Bool) (size : V → ℕ) (serialize : V → Bytes)
    (deserialize : Bytes → V) (deserialize-serialize : (v : V) → deserialize (serialize v) ≡ v)
    (serializers : ℕ → Serializer (StringMap V))
    (get_responsible_threads : Bytes → Option (List ServerThread))
    (is_self : ServerThread → ServerThread → Bool) (wt : ServerThread) (clock : ℕ → ℕ) where
  -- A thread that is responsible for a key and takes a PUT of a serialized value of the key, and then a GET
  -- of it, answers the GET with the value merged into what it had stored, the default value if nothing, and
  -- the type of the PUT, and with key_dne exactly when the type's serializer takes that value for empty.
  -- This is for a type with a memory serializer whose `deserialize` inverts `serialize`, and a PUT that is
  -- neither without a type nor in conflict with the type that is stored, and whose type is one of the
  -- enumeration's.
  pub user_requests-put_get :
      (put_request get_request : KeyRequest) (tuple asked : KeyTuple) (v : V)
      (threads : List ServerThread) (st : ServerState (StringMap V))
      → put_request.type' ≡ RequestType.put
      → put_request.tuples ≡ tuple ∷ []
      → get_request.type' ≡ RequestType.get
      → get_request.tuples ≡ asked ∷ []
      → asked.key ≡ tuple.key
      → tuple.key ≢ []
      → tuple.lattice_type ≤ 6
      → get_responsible_threads tuple.key ≡ some threads
      → has is_self wt threads ≡ true
      → is_refused tuple st ≡ false
      → serializers tuple.lattice_type ≡ memory_serializer l is_empty size serialize deserialize
      → tuple.payload ≡ serialize v
      → (let kept = l.merge (value_or l.bottom (find tuple.key st.store)) v in
          let handler = user_request_handler serializers get_responsible_threads is_self wt clock in
          (first : Option (Bytes × KeyResponse)) × (st1 : ServerState (StringMap V)) × (handler
              put_request st
            ≡ returned (first, st1))
          × (tp : KeyTuple) × (st2 : ServerState (StringMap V)) × (handler get_request st1
              ≡ returned (respond_with get_request (tp ∷ []), st2))
          × (tp.key ≡ tuple.key)
          × (tp.lattice_type ≡ tuple.lattice_type)
          × (tp.payload ≡ serialize kept)
          × (tp.error ≡ (if is_empty kept then AnnaError.key_dne else AnnaError.no_error)))
  user_requests-put_get put_request get_request tuple asked v threads st is_put one is_get other
        same filled enumerated known self accepted memory sent =
      let kept = l.merge (value_or l.bottom (find tuple.key st.store)) v in
      let (ts, st1) =
        answer_tuple serializers get_responsible_threads is_self wt clock put_request tuple
          (length threads) st in
      let (store, stored) =
        put_stored serializers get_responsible_threads is_self wt clock put_request tuple
          (length threads) st is_put accepted in
      let (p, there, typed) =
        process_put-type (serializers tuple.lattice_type) tuple.key tuple.lattice_type tuple.payload
          st.store st.stored_key_map in
      let (tp, answered, key, type', payload, error) =
        get_answer serializers get_responsible_threads is_self wt clock get_request asked
          (length threads) tuple.lattice_type p st1 is_get (rw (same, stored) there) typed
          (typed-nonzero tuple st accepted) in
      let read =
        process_put-process_get l is_empty size serialize deserialize deserialize-serialize
          tuple.key tuple.lattice_type v st.store st.stored_key_map in
      let reads : process_get (serializers tuple.lattice_type) asked.key st1.store ≡ (
        (serialize kept, if is_empty kept then AnnaError.key_dne else AnnaError.no_error),
        st1.store,
      ) =
        rw (same, store, memory, sent) read in
      (
        _,
        st1,
        one_tuple serializers get_responsible_threads is_self wt clock put_request tuple threads st
            one filled (calls_null-enumerated put_request.type' tuple.lattice_type _ enumerated)
            known self,
        tp,
        (answer_tuple serializers get_responsible_threads is_self wt clock get_request asked
            (length threads) st1).1,
        one_tuple serializers get_responsible_threads is_self wt clock get_request asked threads st1
              other (λ e. filled (sym same ∙ e)) (calls_null-get get_request.type' is_get _ _)
              (ap get_responsible_threads same ∙ known) self
            ∙ ap
                (λ ts. returned (
                  respond_with get_request ts,
                  (answer_tuple serializers get_responsible_threads is_self wt clock get_request
                      asked (length threads) st1).1,
                ))
                answered,
        key ∙ same,
        type',
        payload ∙ ap (λ r. r.0.0) reads,
        error ∙ ap (λ r. r.0.1) reads,
      )
