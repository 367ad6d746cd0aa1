-- ===== src/Anna/Server/Replication/Replay.antt =====
-- A request that waits is served as it would have been at once, in the two handlers of
-- src/dist/anna/src/kvs that serve requests.
use testbed.Prelude.{
  ℕ, ◌≡◌, ◌≢◌, refl, sym, ap, subst, Bool, true, false, ◌||◌, Option, some, none, List, [], ◌∷◌,
  ◌++◌, Bytes, bytes_eq, ◌==◌, Bool-cases, inl, inr,
}
use testbed.Anna.Lattice.MapLattice.{find}
use testbed.Anna.Kvs.{Serializer, KeyProperty}
use testbed.Anna.HashRing.Servers.{ServerThread}
use testbed.Anna.Server.Requests.{
  RequestType, KeyTuple, KeyRequest, KeyResponse, PendingRequest, ServerState, conflicts, put_tuple,
  process_tuple, answer_tuple, get_tuple, read_key, respond_with,
}
use testbed.Anna.Server.Replication.{
  Answers, answer_pending, replay_request, replay_requests, replay_tuple,
}

-- The requests of a tuple each, as they would wait for the key.
abbrev pub pending_of : KeyRequest → KeyTuple → PendingRequest
pending_of request tuple = record {
  type_ = request.type';
  lattice_type_ = tuple.lattice_type;
  payload_ = tuple.payload;
  addr_ = request.response_address;
  response_id_ = request.request_id;
}

-- The answers that are sent.
unfoldable pub answers_of : Option (Bytes × KeyResponse) → Answers
answers_of none = []
answers_of (some answer) = answer ∷ []

module _ {S : Type 0} (serializers : ℕ → Serializer S) (clock : ℕ → ℕ)
    (get_responsible_threads : Bytes → Option (List ServerThread))
    (is_self : ServerThread → ServerThread → Bool) (wt : ServerThread) where
  -- One request after the other, of a tuple each, at a thread that is responsible for the keys.
  unfoldable pub serve_at_once :
      ℕ → List (KeyRequest × KeyTuple) → ServerState S → Answers × ServerState S
  serve_at_once threads [] st = ([], st)
  serve_at_once threads ((request, tuple) ∷ rest) st =
      let (tuples, st) =
        answer_tuple serializers get_responsible_threads is_self wt clock request tuple threads
          st in
      let (more, st) = serve_at_once threads rest st in
      (answers_of (respond_with request tuples) ++ more, st)

  unfoldable pub pendings : List (KeyRequest × KeyTuple) → List PendingRequest
  pendings [] = []
  pendings ((request, tuple) ∷ rest) = pending_of request tuple ∷ pendings rest

  -- What the theorem is about: requests of the key with a type and an address, whose sender knows no
  -- addresses of the key yet.
  abbrev pub AreFor : Bytes → List (KeyRequest × KeyTuple) → Type 0
  AreFor key [] = Unit
  AreFor key ((request, tuple) ∷ rest) =
      (tuple.key ≡ key)
      × (tuple.address_cache_size ≡ 0)
      × (request.type' ≢ RequestType.rt_unspecified)
      × (bytes_eq request.response_address [] ≡ false)
      × AreFor key rest

  process_tuple-invalidate :
      (type' : RequestType) (key : Bytes) (lattice_type : ℕ) (payload : Bytes) (st : ServerState S)
      → (process_tuple serializers type' key lattice_type payload st).0.invalidate ≡ false
  unfolding process_tuple put_tuple get_tuple read_key
  process_tuple-invalidate RequestType.rt_unspecified key l p st = refl
  process_tuple-invalidate RequestType.get key l p st = by_property (find key st.stored_key_map)
    where
      by_property :
          (o : Option KeyProperty) → (get_tuple serializers key o st.store).0.invalidate ≡ false
      by_property none = refl
      by_property (some p) = elim (Bool-cases (p.type_ == 0)) [
        | inl e ↦ rw e refl
        | inr e ↦ rw e refl
      ]
  process_tuple-invalidate RequestType.put key l p st =
      elim (Bool-cases ((l == 0) || conflicts l (find key st.stored_key_map))) [
        | inl e ↦ rw e refl
        | inr e ↦ rw e refl
      ]

  replay_tuple-process_tuple :
      (type' : RequestType) (key : Bytes) (request : PendingRequest) (st : ServerState S)
      → type' ≢ RequestType.rt_unspecified
      → replay_tuple serializers clock key type' request st
        ≡ process_tuple serializers type' key request.lattice_type_ request.payload_ st
  unfolding replay_tuple process_tuple
  replay_tuple-process_tuple RequestType.rt_unspecified key request st h = absurd (h refl)
  replay_tuple-process_tuple RequestType.get key request st h = refl
  replay_tuple-process_tuple RequestType.put key request st h = refl

  replay_request-answer_tuple :
      (request : KeyRequest) (tuple : KeyTuple) (threads : ℕ) (st : ServerState S)
      → tuple.address_cache_size ≡ 0
      → request.type' ≢ RequestType.rt_unspecified
      → bytes_eq request.response_address [] ≡ false
      → (let (ts, st') =
            answer_tuple serializers get_responsible_threads is_self wt clock request tuple threads
              st in
          replay_request serializers clock true false tuple.key (pending_of request tuple) st
          ≡ (answers_of (respond_with request ts), st'))
  unfolding replay_request answer_tuple answer_pending respond_with answers_of
  replay_request-answer_tuple request tuple threads st fresh typed addressed =
      let (tp, st') =
        process_tuple serializers request.type' tuple.key tuple.lattice_type tuple.payload st in
      let kept : record tp { invalidate = false } ≡ tp =
        ap (λ b. record tp { invalidate = b })
          (sym (
            process_tuple-invalidate request.type' tuple.key tuple.lattice_type tuple.payload
              st)) in
      rw
        (
          replay_tuple-process_tuple request.type' tuple.key (pending_of request tuple) st typed,
          fresh,
          addressed,
          kept,
        )
        refl

  -- Requests that waited for the replication factors of a key are answered by the thread that turns out to
  -- be responsible for it with the same answers, in the same order and with the same effects on its state,
  -- as if it had taken them one by one when it knew the factors. This is for requests with a type and an
  -- address whose senders know no addresses of the key.
  pub replay_requests-at_once :
      (key : Bytes) (threads : ℕ) (requests : List (KeyRequest × KeyTuple)) (st : ServerState S)
      → AreFor key requests
      → replay_requests serializers clock true key (pendings requests) st
        ≡ serve_at_once threads requests st
  unfolding replay_requests pendings serve_at_once
  replay_requests-at_once key threads [] st h = refl
  replay_requests-at_once key threads ((request, tuple) ∷ rest) st
        (for_key, fresh, typed, addressed, h) =
      let (tuples, st') =
        answer_tuple serializers get_responsible_threads is_self wt clock request tuple threads
          st in
      let one =
        subst
          (λ k.
            replay_request serializers clock true false k (pending_of request tuple) st
            ≡ (answers_of (respond_with request tuples), st'))
          for_key (replay_request-answer_tuple request tuple threads st fresh typed addressed) in
      rw (addressed, one, replay_requests-at_once key threads rest st' h) refl
