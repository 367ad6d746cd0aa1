-- ===== src/Com/Process.antt =====
-- The event loop of src/com/socket_server.cpp: `process_func`, `event_handler` and `conn_close`. Printing
-- is left out.
pub mod Rounds
pub mod Serve
pub mod Measure
pub mod Termination
pub mod Idle
use testbed.Prelude.{
  ℕ, zero, suc, ◌+◌, ◌-◌, ◌%◌, Bool, true, false, [], ◌∷◌, Option, none, some, Bytes, length, take,
  drop, ltb, ◌==◌, if◌then◌else◌,
}
use testbed.Com.Header.{header_size}
use testbed.Com.Conn.{
  Connection, ConnStates, WorkStates, Socket, Written, write, TryReadResult, read_data_received,
  read_no_data_received, read_error, read_memory_error, conn_deal_with, conn_new_cmd, conn_waiting,
  conn_read, conn_closing, parse_head, read_key_value, store_kvobj, query_key, write_bcak, u64_mod,
  round_num, protocol_binary_req,
}
use testbed.Com.Parse.{
  Flow, goes, exits, faults, try_read_head_binary, ReadKeyValue, need_more, bad_instruction,
  was_read, try_read_key_value,
}
use testbed.Com.Reply.{OnSocket, con_ret_buf, send_batch}
use testbed.Com.Network.{reset_cmd_handler, try_read_network}
use testbed.Com.Table.{HashTable}

-- What a round of the loop acts on. `is_open` falls with `conn_close`: the connection is taken off its
-- event base and closed, and gets no more events.
pub record World (T : Type 0) : Type 0 where
  pub conn : Connection
  pub socket : Socket
  pub table : T
  pub is_open : Bool
  -- the bytes of the array `dummy`, `using_dummy` of them
  pub dummy : Bytes

-- A call of `exit`, or an access outside an object.
pub data Ending : Type 0 where
  exited faulted : Ending

-- One round of the loop: it goes on with a new `inst_count`, or `stop` has been set.
pub data Round (T : Type 0) : Type 0 where
  again : ℕ → World T → Round T
  stops : World T → Round T
  ends : Ending → Round T

unfoldable pub send_dummy : Socket → Bytes → Socket
send_dummy k [] = k
send_dummy k (b ∷ bs) = (write k (b ∷ bs)).socket

unfoldable pub count_read : Connection → Connection
count_read c = record c {
  count_processed_in_this_connection = (c.count_processed_in_this_connection + 1) % u64_mod;
  bytes_processed_in_this_connection =
      (c.bytes_processed_in_this_connection + c.recv_bytes) % u64_mod;
  conn_state = conn_waiting;
}

unfoldable pub plain_sent : Connection → Written → Connection
plain_sent c o =
    if o.ret == 0
    then record c { conn_state = if o.again then conn_waiting else conn_closing }
    else if o.ret == c.ret_bytes
    then record c {
      ret_buf_offset = 0;
      ret_bytes = 0;
      work_state = parse_head;
      conn_state = conn_new_cmd;
    }
    else record c {
      ret_buf_offset = c.ret_buf_offset + o.ret;
      ret_bytes = c.ret_bytes - o.ret;
      conn_state = conn_waiting;
    }

unfoldable pub waiting_next : WorkStates → ConnStates
waiting_next write_bcak = conn_deal_with
waiting_next parse_head = conn_read
waiting_next read_key_value = conn_read
waiting_next store_kvobj = conn_closing
waiting_next query_key = conn_closing

module _ {T : Type 0} where
  abbrev with_conn : World T → Connection → World T
  with_conn w c = record w { conn = c }

  abbrev jump : World T → ConnStates → World T
  jump w s = record w { conn = record w.conn { conn_state = s } }

  unfoldable pub after_read : ℕ → World T → TryReadResult × Connection × Socket → Round T
  after_read i w (read_no_data_received, c, k) =
      again i (record w { conn = record c { conn_state = conn_waiting }; socket = k })
  after_read i w (read_data_received, c, k) =
      again i (record w { conn = count_read c; socket = send_dummy k w.dummy })
  after_read i w (read_error, c, k) =
      again i (record w { conn = record c { conn_state = conn_closing }; socket = k })
  after_read i w (read_memory_error, c, k) = ends exited

  unfoldable pub on_new_cmd : ℕ → World T → Round T
  on_new_cmd i w =
      if ltb (i + 1) round_num
      then again (i + 1) (with_conn w (reset_cmd_handler w.conn))
      else stops w

  unfoldable pub after_head : ℕ → World T → Flow (Option Connection) → Round T
  after_head i w (goes none) = again i (jump w conn_waiting)
  after_head i w (goes (some c)) = again i (with_conn w c)
  after_head i w exits = ends exited
  after_head i w faults = ends faulted

  unfoldable pub on_magic : ℕ → World T → Bytes → Round T
  on_magic i w [] = ends faulted
  on_magic i w (b ∷ bs) =
      if b == protocol_binary_req then after_head i w (try_read_head_binary w.conn) else ends exited

  unfoldable pub on_parse_head : ℕ → World T → Round T
  on_parse_head i w =
      if ltb w.conn.remaining_bytes 1
      then again i (jump w conn_waiting)
      else on_magic i w (drop w.conn.working_buf w.conn.read_buf)

  unfoldable pub after_key_value : ℕ → World T → ReadKeyValue → Round T
  after_key_value i w need_more = again i (jump w conn_waiting)
  after_key_value i w bad_instruction = again i (jump w conn_closing)
  after_key_value i w (was_read c) = again i (with_conn w c)

  unfoldable pub on_read_key_value : ℕ → World T → Round T
  on_read_key_value i w = after_key_value i w (try_read_key_value w.conn)

  unfoldable pub lift_batch : ℕ → World T → Option OnSocket → Round T
  lift_batch i w none = ends faulted
  lift_batch i w (some (c, k)) = again i (record w { conn = c; socket = k })

  -- `write` reads `ret_bytes` bytes of the buffer, and faults behind its end.
  unfoldable pub send_plain : ℕ → World T → Round T
  send_plain i w =
      let c = w.conn in
      if ltb (length c.ret_buf) (c.ret_buf_offset + c.ret_bytes)
      then ends faulted
      else (let o = write w.socket (take c.ret_bytes (drop c.ret_buf_offset c.ret_buf)) in
          again i (record w { conn = plain_sent c o; socket = o.socket }))

  unfoldable pub on_write_bcak : ℕ → World T → Round T
  on_write_bcak i w =
      if w.conn.in_batch_get then lift_batch i w (send_batch w.conn w.socket) else send_plain i w

  unfoldable pub lift_reply : ℕ → World T → Option Connection → Round T
  lift_reply i w none = ends faulted
  lift_reply i w (some c) = again i (with_conn w c)

module _ (h : HashTable) where
  open h use {Table, insert_or_assign, find}

  unfoldable pub on_store_kvobj : ℕ → World Table → Round Table
  on_store_kvobj i w =
      let c = w.conn in
      again i (record w {
        table = insert_or_assign c.key c.value w.table;
        conn = record c {
          bytes_processed_in_this_connection =
              (c.bytes_processed_in_this_connection + header_size + c.binary_header.totalbodylen)
              % u64_mod;
          work_state = parse_head;
          conn_state = conn_new_cmd;
        };
      })

  -- `find(key, value)` assigns `value` on a hit only.
  unfoldable pub found : Connection → Option Bytes → Connection
  found c none = record c { query_hit = false }
  found c (some v) = record c { query_hit = true; value = v }

  unfoldable pub on_query_key : ℕ → World Table → Round Table
  on_query_key i w = lift_reply i w (con_ret_buf (found w.conn (find w.conn.key w.table)))

  unfoldable pub deal_with : WorkStates → ℕ → World Table → Round Table
  deal_with parse_head i w = on_parse_head i w
  deal_with read_key_value i w = on_read_key_value i w
  deal_with store_kvobj i w = on_store_kvobj i w
  deal_with query_key i w = on_query_key i w
  deal_with write_bcak i w = on_write_bcak i w

  -- The cases of `switch (c->conn_state)`. In a state with no case the loop goes round again.
  unfoldable pub process_case : ConnStates → ℕ → World Table → Round Table
  process_case conn_read i w = after_read i w (try_read_network w.conn w.socket)
  process_case conn_new_cmd i w = on_new_cmd i w
  process_case conn_deal_with i w = deal_with w.conn.work_state i w
  process_case conn_waiting i w = stops (jump w (waiting_next w.conn.work_state))
  process_case conn_closing i w = stops (record w { is_open = false })
  process_case _ i w = again i w

  unfoldable pub process_step : ℕ → World Table → Round Table
  process_step i w = process_case w.conn.conn_state i w

  -- How the loop leaves off; `out_of_fuel` shows where it stood.
  pub data Outcome : Type 0 where
    returns : World Table → Outcome
    stopped_by : Ending → Outcome
    out_of_fuel : ℕ → World Table → Outcome

  unfoldable pub process_loop : ℕ → ℕ → World Table → Outcome
  process_loop zero i w = out_of_fuel i w
  process_loop (suc fuel) i w = elim (process_step i w) [
    | again i' w' ↦ process_loop fuel i' w'
    | stops w' ↦ returns w'
    | ends f ↦ stopped_by f
  ]

  unfoldable pub process_func : ℕ → World Table → Outcome
  process_func fuel w = process_loop fuel 0 w

  -- The callback of libevent: a descriptor that is not the connection's own is refused.
  unfoldable pub event_handler : ℕ → ℕ → World Table → Outcome
  event_handler fuel fd w =
      let run = process_func fuel w in if fd == w.conn.sfd then run else returns w
