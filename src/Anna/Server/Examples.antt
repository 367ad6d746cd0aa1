-- ===== src/Anna/Server/Examples.antt =====
-- The theorems about a server's handlers at concrete states.
mod Moved
use testbed.Prelude.{
  ℕ, ◌+◌, ◌≡◌, ◌≢◌, refl, Bool, true, false, Option, some, none, List, [], ◌∷◌, Bytes, bytes_eq,
  take, ◌≤◌, if◌then◌else◌, arith, length, max, suc, ◌%◌, zero,
}
use testbed.Anna.Lattice.Interface.{Lattice}
use testbed.Anna.Lattice.Scalars.{u32_mod}
use testbed.Anna.Lattice.SetLattice.{StringSet, elem, set_insert}
use testbed.Anna.Lattice.MapLattice.{StringMap, find, contains}
use testbed.Anna.Kvs.{Serializer, AnnaError, KeyProperty, memory_serializer, process_put}
use testbed.Anna.Kvs.Store.{value_or}
use testbed.Anna.HashRing.Servers.{ServerThread}
use testbed.Anna.HashRing.Walk.{has}
use testbed.Anna.Cluster.{Handled, returned}
use testbed.Anna.Cluster.Rings.{GlobalRingMap}
use testbed.Anna.Cluster.Joining.{NodeState, hand_over_keys}
use testbed.Anna.Server.Maps.{set_at}
use testbed.Anna.Server.Caches.{CacheMaps, CacheTuple, cache_ip_response_handler, track_caches}
use testbed.Anna.Server.Caches.Mirror.{IsMirrored, caches-IsMirrored}
use testbed.Anna.Server.Gossip.{PutTuple, gossip_keys}
use testbed.Anna.Server.Redistribute.{Joins, collect, redistribute, redistribute_passes}
use testbed.Anna.Server.Redistribute.Passes.{ever_sent, redistribute_passes-stuck}
use testbed.Anna.Server.Requests.{
  handle_tuple, RequestType, KeyTuple, KeyRequest, KeyResponse, PendingRequest, ServerState,
  conflicts, answer_tuple, handle_tuples, respond_with, user_request_handler,
}
use testbed.Anna.Server.Requests.Answered.{key_count, waiting, handle_tuples-conserves}
use testbed.Anna.Server.Requests.Refused.{is_refused, refuses, Unchanged, handle_tuple-silent}
use testbed.Anna.Server.Requests.Stored.{user_requests-put_get}
use testbed.Anna.Server.Replication.{ReplicaState, KeyReplication, replay_requests}
use testbed.Anna.Server.Replication.Replay.{serve_at_once, pendings, replay_requests-at_once}
use testbed.Anna.Server.Replication.Change.{Change, ReplicationFactor, change_keys}
use testbed.Anna.Server.Replication.Handed.{IsHandedOver, hand_over_keys-IsHandedOver}
use testbed.Anna.Server.TakeGossip.{mismatches, gossip_handler}
use testbed.Anna.Server.TakeGossip.Merged.{gossip-merged}

abbrev pub key_a : Bytes
key_a = 97 ∷ []

abbrev pub key_b : Bytes
key_b = 98 ∷ []

abbrev pub counters : Lattice ℕ
counters = record { bottom = 0; merge = λ x y. max x y }

abbrev pub one_byte : ℕ → Bytes
one_byte n = n ∷ []

abbrev pub first_byte : Bytes → ℕ
first_byte [] = 0
first_byte (n ∷ rest) = n

first_byte-one_byte : (n : ℕ) → first_byte (one_byte n) ≡ n
first_byte-one_byte n = refl

abbrev pub is_zero : ℕ → Bool
is_zero zero = true
is_zero (suc n) = false

abbrev pub size_one : ℕ → ℕ
size_one n = 1

abbrev pub serializers : ℕ → Serializer (StringMap ℕ)
serializers t = memory_serializer counters is_zero size_one one_byte first_byte

abbrev pub thread_a : ServerThread
thread_a = record { public_ip = key_a; private_ip = key_a; tid = 0; virtual_num = 0 }

abbrev pub thread_b : ServerThread
thread_b = record { public_ip = key_b; private_ip = key_b; tid = 0; virtual_num = 0 }

abbrev pub same_ip : ServerThread → ServerThread → Bool
same_ip s t = bytes_eq s.private_ip t.private_ip

-- One thread for each key.
abbrev pub owners : Bytes → Option (List ServerThread)
owners key = if bytes_eq key key_a then some (thread_a ∷ []) else some (thread_b ∷ [])

abbrev pub clock : ℕ → ℕ
clock n = n

abbrev pub put_a : KeyTuple
put_a = record {
  key = key_a;
  lattice_type = 1;
  error = AnnaError.no_error;
  payload = one_byte 7;
  address_cache_size = 0;
  invalidate = false;
}

abbrev pub put_b : KeyTuple
put_b = record put_a { key = key_b }

abbrev pub put_request : KeyRequest
put_request = record {
  type' = RequestType.put;
  tuples = put_a ∷ [];
  response_address = 49 ∷ [];
  request_id = 50 ∷ [];
}

abbrev pub get_request : KeyRequest
get_request = record put_request { type' = RequestType.get }

abbrev pub started : ServerState (StringMap ℕ)
started = record {
  access_count = 0;
  pending_requests = [];
  key_access_tracker = [];
  stored_key_map = (key_a, record { size_ = 1; type_ = 1 }) ∷ [];
  local_changeset = [];
  store = (key_a, 5) ∷ [];
  issued = [];
}

a_known : owners key_a ≡ some (thread_a ∷ [])
unfolding bytes_eq
a_known = refl

a_has : has same_ip thread_a (thread_a ∷ []) ≡ true
unfolding has bytes_eq
a_has = refl

a_accepted : is_refused put_a started ≡ false
unfolding is_refused conflicts find bytes_eq refuses
a_accepted = refl

user_requests-put_get_example :
    (first : Option (Bytes × KeyResponse)) × (st1 : ServerState (StringMap ℕ))
    × (user_request_handler serializers owners same_ip thread_a clock put_request started
        ≡ returned (first, st1))
    × (tp : KeyTuple) × (st2 : ServerState (StringMap ℕ)) × (user_request_handler serializers owners
          same_ip thread_a clock get_request st1
        ≡ returned (respond_with get_request (tp ∷ []), st2))
    × (tp.key ≡ key_a)
    × (tp.lattice_type ≡ 1)
    × (tp.payload ≡ one_byte (max (value_or 0 (find key_a started.store)) 7))
    × (tp.error ≡ (
        if is_zero (max (value_or 0 (find key_a started.store)) 7)
        then AnnaError.key_dne
        else AnnaError.no_error))
user_requests-put_get_example =
    user_requests-put_get counters is_zero size_one one_byte first_byte first_byte-one_byte
      serializers owners same_ip thread_a clock put_request get_request put_a put_a 7
      (thread_a ∷ []) started refl refl refl refl refl (λ e. cc) (omega arith) a_known a_has
      a_accepted refl refl

handle_tuples-conserves_example :
    (ts : List KeyTuple) × (st' : ServerState (StringMap ℕ)) × (handle_tuples serializers owners
        same_ip thread_a clock put_request
        (put_a ∷ put_b ∷ [])
        started
      ≡ returned (ts, st'))
    × ((y : Bytes)
        → key_count y ts + waiting y st' ≡ key_count y (put_a ∷ put_b ∷ []) + waiting y started)
handle_tuples-conserves_example =
    handle_tuples-conserves serializers owners same_ip thread_a clock put_request
      (put_a ∷ put_b ∷ []) started (((λ e. cc), omega arith), (((λ e. cc), omega arith), tt))

-- The stored type is 1.
abbrev pub put_other : KeyTuple
put_other = record put_a { lattice_type = 2 }

handle_tuple-silent_example :
    (tp : KeyTuple) × (st' : ServerState (StringMap ℕ)) × (handle_tuple serializers owners same_ip
        thread_a clock
        (some true)
        put_request
        put_other
        started
      ≡ returned (tp ∷ [], st'))
    × (tp.error ≡ AnnaError.no_error)
    × (is_refused put_other started ≡ true → Unchanged started st')
    × (is_refused put_other started ≡ false
        → (let (store, stored_key_map) =
              process_put
                (serializers 2)
                key_a
                2
                (one_byte 7)
                started.store
                started.stored_key_map in
            (st'.store ≡ store)
            × (st'.stored_key_map ≡ stored_key_map)
            × (st'.local_changeset ≡ set_insert key_a started.local_changeset)))
    × (st'.access_count ≡ (started.access_count + 1) % u32_mod)
handle_tuple-silent_example =
    handle_tuple-silent serializers owners same_ip thread_a clock true put_request put_other
      (thread_a ∷ []) started refl (omega arith) a_known a_has

address_filled : bytes_eq put_request.response_address [] ≡ false
unfolding bytes_eq
address_filled = refl

replay_requests-at_once_example :
    replay_requests serializers clock true key_a
      (pendings serializers clock owners same_ip thread_a
        ((put_request, put_a) ∷ (get_request, put_a) ∷ []))
      started
    ≡ serve_at_once serializers clock owners same_ip thread_a 1
        ((put_request, put_a) ∷ (get_request, put_a) ∷ [])
        started
replay_requests-at_once_example =
    replay_requests-at_once serializers clock owners same_ip thread_a key_a 1
      ((put_request, put_a) ∷ (get_request, put_a) ∷ []) started
      (refl, refl, (λ e. cc), address_filled, (refl, refl, (λ e. cc), address_filled, tt))
