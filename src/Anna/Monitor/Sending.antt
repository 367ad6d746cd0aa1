-- ===== src/Anna/Monitor/Sending.antt =====
-- The requests of change_replication_factor of src/dist/anna/src/monitor/replication_helpers.cpp, with
-- receive and make_request of src/dist/anna/common/include/requests.hpp. What comes in at the socket is a
-- list of responses, with `none` for a timeout.
use testbed.Prelude.{
  ℕ, ◌+◌, ◌%◌, Bool, true, false, Option, some, none, List, [], ◌∷◌, ◌++◌, if◌then◌else◌, ◌==◌,
}
use testbed.Anna.Lattice.Scalars.{u32_mod}
use testbed.Anna.Lattice.SetLattice.{StringSet, elem, set_insert}
use testbed.Anna.Lattice.MapLattice.{StringMap}
use testbed.Anna.Kvs.{AnnaError}
use testbed.Anna.Metadata.{get_key_from_metadata}
use testbed.Anna.Server.Maps.{set_erase}
use testbed.Anna.Server.Redistribute.{is_empty}
use testbed.Anna.Server.Requests.{KeyTuple, KeyRequest, KeyResponse}

abbrev pub Inbox : Type 0
Inbox = List (Option KeyResponse)

-- Whether all responses are in, the responses, and what is left to be received. `none` while it waits.
unfoldable pub receive :
    Inbox → StringSet → ℕ → List KeyResponse → Option ((Bool × List KeyResponse) × Inbox)
receive [] request_ids timeout_limit responses = none
receive (some response ∷ messages) request_ids timeout_limit responses =
    let mine = elem response.response_id request_ids in
    let ids = if mine then set_erase response.response_id request_ids else request_ids in
    let got = if mine then responses ++ (response ∷ []) else responses in
    let rest = receive messages ids timeout_limit got in
    if is_empty ids then some ((true, got), messages) else rest
receive (none ∷ messages) request_ids timeout_limit responses =
    let limit = (timeout_limit + 4294967295) % u32_mod in
    let rest = receive messages request_ids limit responses in
    if limit == 0 then some ((false, []), messages) else rest

-- A request alone, of which one timeout is allowed.
unfoldable pub make_request : KeyRequest → Inbox → Option ((Bool × List KeyResponse) × Inbox)
make_request request messages = receive messages (request.request_id ∷ []) 1 []

-- The keys of the tuples of a request that was not answered.
unfoldable pub fail_all : List KeyTuple → StringSet → StringSet
fail_all [] failed_keys = failed_keys
fail_all (tuple ∷ tuples) failed_keys =
    fail_all tuples (set_insert (get_key_from_metadata tuple.key) failed_keys)

-- Error 2.
unfoldable pub is_wrong_thread : AnnaError → Bool
is_wrong_thread AnnaError.wrong_thread = true
is_wrong_thread _ = false

unfoldable pub fail_rejected : List KeyTuple → StringSet → StringSet
fail_rejected [] failed_keys = failed_keys
fail_rejected (tuple ∷ tuples) failed_keys =
    let failed =
      if is_wrong_thread tuple.error
      then set_insert (get_key_from_metadata tuple.key) failed_keys
      else failed_keys in
    fail_rejected tuples failed

unfoldable pub failed_of : KeyRequest → Bool × List KeyResponse → StringSet → StringSet
failed_of request (false, responses) failed_keys = fail_all request.tuples failed_keys
failed_of request (true, []) failed_keys = failed_keys
failed_of request (true, res ∷ responses) failed_keys = fail_rejected res.tuples failed_keys

-- The loop over `addr_request_map`.
unfoldable pub send_requests : StringMap KeyRequest → Inbox → StringSet → Option (StringSet × Inbox)
send_requests [] messages failed_keys = some (failed_keys, messages)
send_requests ((address, request) ∷ pairs) messages failed_keys =
    elim (make_request request messages) [
      | none ↦ none
      | some (outcome, messages) ↦
          send_requests pairs messages (failed_of request outcome failed_keys)
    ]
