-- ===== src/Anna/Server/Requests.antt =====
-- user_request_handler of src/dist/anna/src/kvs/user_request_handler.cpp, with the messages of
-- src/dist/anna/common/proto/anna.proto. A key's threads, get_responsible_threads, are a parameter, with no
-- threads where it fails; so are the clock and the serializers of the lattice types, by the type's number.
pub mod Answered
pub mod Refused
pub mod Stored
use testbed.Prelude.{
  ℕ, suc, ◌+◌, ◌%◌, Bool, true, false, ◌&&◌, ◌||◌, not, Option, some, none, List, [], ◌∷◌, ◌++◌,
  Bytes, bytes_eq, length, ltb, if◌then◌else◌, ◌==◌,
}
use testbed.Anna.Lattice.Interface.{Lattice}
use testbed.Anna.Lattice.Scalars.{u32_mod}
use testbed.Anna.Lattice.SetLattice.{StringSet, set_insert}
use testbed.Anna.Lattice.MapLattice.{StringMap, find, update, at}
use testbed.Anna.Kvs.{AnnaError, Serializer, KeyProperty, process_get, process_put}
use testbed.Anna.HashRing.Servers.{ServerThread}
use testbed.Anna.HashRing.Walk.{has}
use testbed.Anna.Metadata.{is_metadata}
use testbed.Anna.Cluster.{Handled, returned, thrown, overrun}

pub data RequestType : Type 0 where
  rt_unspecified : RequestType
  get : RequestType
  put : RequestType

-- A KeyTuple: a request's fields, and those that only a response sets.
pub record KeyTuple : Type 0 where
  pub key : Bytes
  pub lattice_type : ℕ
  pub error : AnnaError
  pub payload : Bytes
  pub address_cache_size : ℕ
  pub invalidate : Bool

pub record KeyRequest : Type 0 where
  pub type' : RequestType
  pub tuples : List KeyTuple
  pub response_address : Bytes
  pub request_id : Bytes

pub record KeyResponse : Type 0 where
  pub type' : RequestType
  pub tuples : List KeyTuple
  pub response_id : Bytes

pub record PendingRequest : Type 0 where
  pub type_ : RequestType
  pub lattice_type_ : ℕ
  pub payload_ : Bytes
  pub addr_ : Bytes
  pub response_id_ : Bytes

pub record ServerState (S : Type 0) : Type 0 where
  pub access_count : ℕ
  pub pending_requests : StringMap (List PendingRequest)
  pub key_access_tracker : StringMap (List ℕ)
  pub stored_key_map : StringMap KeyProperty
  pub local_changeset : StringSet
  pub store : S
  -- The keys whose replication factor was asked for.
  pub issued : List Bytes

-- `add_tuples` and `set_key`: the other fields have their default values.
abbrev pub blank : Bytes → KeyTuple
blank key = record {
  key = key;
  lattice_type = 0;
  error = AnnaError.no_error;
  payload = [];
  address_cache_size = 0;
  invalidate = false;
}

-- A missing entry of a map of lists is the empty list.
abbrev pub list_default : {A : Type 0} → Lattice (List A)
list_default = record { bottom = []; merge = λ xs ys. xs ++ ys }

-- `m[k].push_back(x)`, and the insertion into a multiset, whose order nothing reads.
unfoldable pub push_at : {A : Type 0} → Bytes → A → StringMap (List A) → StringMap (List A)
push_at k x m = let (there, m) = at list_default k m in update k (λ old. old ++ (x ∷ [])) m

-- Whether what is stored under the key conflicts with a lattice type.
unfoldable pub conflicts : ℕ → Option KeyProperty → Bool
conflicts lattice_type none = false
conflicts lattice_type (some p) = not (p.type_ == 0) && not (p.type_ == lattice_type)

unfoldable pub prepend_tuples :
    {S : Type 0}
    → List KeyTuple
    → Handled (List KeyTuple × ServerState S)
    → Handled (List KeyTuple × ServerState S)
prepend_tuples here (returned (more, st)) = returned (here ++ more, st)
prepend_tuples here thrown = thrown
prepend_tuples here overrun = overrun

unfoldable pub then_tuples :
    {S : Type 0}
    → Handled (List KeyTuple × ServerState S)
    → (ServerState S → Handled (List KeyTuple × ServerState S))
    → Handled (List KeyTuple × ServerState S)
then_tuples (returned (here, st)) next = prepend_tuples here (next st)
then_tuples thrown next = thrown
then_tuples overrun next = overrun

unfoldable pub respond_with : KeyRequest → List KeyTuple → Option (Bytes × KeyResponse)
respond_with request [] = none
respond_with request (tp ∷ tuples) =
    if bytes_eq request.response_address []
    then none
    else some (
      request.response_address,
      record { type' = request.type'; tuples = tp ∷ tuples; response_id = request.request_id },
    )

unfoldable pub respond :
    {S : Type 0}
    → KeyRequest
    → Handled (List KeyTuple × ServerState S)
    → Handled (Option (Bytes × KeyResponse) × ServerState S)
respond request (returned (tuples, st)) = returned (respond_with request tuples, st)
respond request thrown = thrown
respond request overrun = overrun

-- The lattice types that SerializerMap has a serializer of; any other entry is a null pointer.
unfoldable pub has_serializer : ℕ → Bool
has_serializer lattice_type = ltb 0 lattice_type && ltb lattice_type 7

-- Whether a request for a key of the thread comes to call a serializer that is missing.
unfoldable pub calls_null : RequestType → ℕ → Option KeyProperty → Bool
calls_null put lattice_type stored =
    not (lattice_type == 0)
    && not (conflicts lattice_type stored)
    && not (has_serializer lattice_type)
calls_null get lattice_type stored = false
calls_null rt_unspecified lattice_type stored = false

module _ {S : Type 0} (serializers : ℕ → Serializer S) where
  -- The branch of a GET: the type and value, or the error.
  unfoldable pub read_key : Bytes → ℕ → S → KeyTuple × S
  read_key key type_ s =
      let ((payload, error), s) = process_get (serializers type_) key s in
      (record (blank key) { lattice_type = type_; payload = payload; error = error }, s)

  unfoldable pub get_tuple : Bytes → Option KeyProperty → S → KeyTuple × S
  get_tuple key none s = (record (blank key) { error = AnnaError.key_dne }, s)
  get_tuple key (some p) s =
      if p.type_ == 0
      then (record (blank key) { error = AnnaError.key_dne }, s)
      else read_key key p.type_ s

  -- The branch of a PUT; a type that is missing or conflicts is logged. The type is one that has a
  -- serializer: `handle_tuple` sees to the others.
  unfoldable pub put_tuple : Bytes → ℕ → Bytes → ServerState S → KeyTuple × ServerState S
  put_tuple key lattice_type payload st =
      if (lattice_type == 0) || conflicts lattice_type (find key st.stored_key_map)
      then (blank key, st)
      else let (store, stored_key_map) =
          process_put (serializers lattice_type) key lattice_type payload st.store
            st.stored_key_map in
        (
          record (blank key) { lattice_type = lattice_type },
          record st {
            store = store;
            stored_key_map = stored_key_map;
            local_changeset = set_insert key st.local_changeset;
          },
        )

  unfoldable pub process_tuple :
      RequestType → Bytes → ℕ → Bytes → ServerState S → KeyTuple × ServerState S
  process_tuple get key lattice_type payload st =
      let (tp, store) = get_tuple key (find key st.stored_key_map) st.store in
      (tp, record st { store = store })
  process_tuple put key lattice_type payload st = put_tuple key lattice_type payload st
  process_tuple rt_unspecified key lattice_type payload st = (blank key, st)

  unfoldable pub track_access : Bytes → ℕ → ServerState S → ServerState S
  track_access key now st = record st {
    key_access_tracker = push_at key now st.key_access_tracker;
    access_count = (st.access_count + 1) % u32_mod;
  }

  module _ (get_responsible_threads : Bytes → Option (List ServerThread))
      (is_self : ServerThread → ServerThread → Bool) (wt : ServerThread) (clock : ℕ → ℕ) where
    -- A key that the thread is responsible for.
    unfoldable pub answer_tuple :
        KeyRequest → KeyTuple → ℕ → ServerState S → List KeyTuple × ServerState S
    answer_tuple request tuple threads st =
        let (tp, st) = process_tuple request.type' tuple.key tuple.lattice_type tuple.payload st in
        let stale = ltb 0 tuple.address_cache_size && not (tuple.address_cache_size == threads) in
        (record tp { invalidate = stale } ∷ [], track_access tuple.key (clock st.access_count) st)

    unfoldable pub suspend : KeyRequest → KeyTuple → ServerState S → ServerState S
    suspend request tuple st =
        let pending : PendingRequest = record {
          type_ = request.type';
          lattice_type_ = tuple.lattice_type;
          payload_ = tuple.payload;
          addr_ = request.response_address;
          response_id_ = request.request_id;
        } in
        record st { pending_requests = push_at tuple.key pending st.pending_requests }

    -- A key that other threads are responsible for.
    unfoldable pub turn_away :
        Bool → KeyRequest → KeyTuple → ServerState S → List KeyTuple × ServerState S
    turn_away true request tuple st = (
      record (blank tuple.key) { lattice_type = tuple.lattice_type; error = AnnaError.wrong_thread }
          ∷ [],
      st,
    )
    turn_away false request tuple st =
        ([], suspend request tuple (record st { issued = tuple.key ∷ st.issued }))

    unfoldable pub serve_tuple :
        Bool
        → Option (List ServerThread)
        → KeyRequest
        → KeyTuple
        → ServerState S
        → List KeyTuple × ServerState S
    serve_tuple metadata none request tuple st = ([], suspend request tuple st)
    serve_tuple metadata (some threads) request tuple st =
        if has is_self wt threads
        then answer_tuple request tuple (length threads) st
        else turn_away metadata request tuple st

    unfoldable pub is_own : Option (List ServerThread) → Bool
    is_own none = false
    is_own (some threads) = has is_self wt threads

    -- `is_metadata` reads past the end of a vector for some keys, and a PUT may call a null pointer.
    unfoldable pub handle_tuple :
        Option Bool
        → KeyRequest
        → KeyTuple
        → ServerState S
        → Handled (List KeyTuple × ServerState S)
    handle_tuple none request tuple st = overrun
    handle_tuple (some metadata) request tuple st =
        let threads = get_responsible_threads tuple.key in
        let stored = find tuple.key st.stored_key_map in
        if calls_null request.type' tuple.lattice_type stored && is_own threads
        then overrun
        else returned (serve_tuple metadata threads request tuple st)

    unfoldable pub handle_tuples :
        KeyRequest → List KeyTuple → ServerState S → Handled (List KeyTuple × ServerState S)
    handle_tuples request [] st = returned ([], st)
    handle_tuples request (tuple ∷ tuples) st =
        then_tuples (handle_tuple (is_metadata tuple.key) request tuple st)
          (handle_tuples request tuples)

    -- The response and the address that it is sent to, if one is sent.
    unfoldable pub user_request_handler :
        KeyRequest → ServerState S → Handled (Option (Bytes × KeyResponse) × ServerState S)
    user_request_handler request st = respond request (handle_tuples request request.tuples st)
