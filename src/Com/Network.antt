-- ===== src/Com/Network.antt =====
-- The network side of a connection in src/com/socket_server.cpp: `reset_cmd_handler`,
-- `try_read_network` and `conn_new`.
pub mod Framing
use testbed.Prelude.{
  ℕ, ltb, Option, some, none, ◌==◌, if◌then◌else◌, List, [], ◌∷◌, ◌++◌, Bytes, length, take, drop,
  false,
}
use testbed.Com.Conn.{
  max_conn, Connection, Socket, ReadAnswer, got, read_again, read_failed, TryReadResult,
  read_data_received, read_no_data_received, read_error, conn_deal_with, conn_waiting, conn_read,
  parse_head, init_read_buf_size, init_ret_buf_size,
}
use testbed.Com.Parse.{unparsed}

unfoldable pub reset_cmd_handler : Connection → Connection
reset_cmd_handler c = record c {
  conn_state = if ltb 0 c.remaining_bytes then conn_deal_with else conn_waiting;
}

-- `memmove` of the bytes that remain to the start of the buffer.
unfoldable pub move_to_front : Connection → Connection
move_to_front c = if c.working_buf == 0 then c else record c {
  read_buf = unparsed c ++ drop (length (unparsed c)) c.read_buf;
  working_buf = 0;
}

unfoldable pub received : Connection → Bytes → TryReadResult × Connection
received c [] = (read_error, c)
received c (b ∷ bs) =
    let n = length (b ∷ bs) in
    (
      read_data_received,
      record c {
        read_buf = (b ∷ bs) ++ drop n c.read_buf;
        recv_bytes = n;
        total_bytes = n;
        remaining_bytes = n;
        worked_bytes = 0;
      },
    )

-- `read` into the whole buffer, since `remaining_bytes` has just been set to 0.
unfoldable pub read_answered :
    Connection → Socket → List ReadAnswer → TryReadResult × Connection × Socket
read_answered c k [] = (read_no_data_received, c, k)
read_answered c k (got bs ∷ rest) =
    let (res, c') = received c (take c.read_buf_size bs) in (res, c', record k { reads = rest })
read_answered c k (read_again ∷ rest) = (read_no_data_received, c, record k { reads = rest })
read_answered c k (read_failed ∷ rest) = (read_no_data_received, c, record k { reads = rest })

unfoldable pub try_read_network : Connection → Socket → TryReadResult × Connection × Socket
try_read_network c k = read_answered (record (move_to_front c) { remaining_bytes = 0 }) k k.reads

-- The fields that `conn_new` sets. What `malloc` and `new` leave in the others comes from `blank`.
unfoldable pub new_conn : ℕ → ℕ → Connection → Connection
new_conn sfd thread_index blank = record blank {
  read_buf_size = init_read_buf_size;
  ret_buf_size = init_ret_buf_size;
  sfd = sfd;
  thread_index = thread_index;
  worked_bytes = 0;
  working_buf = 0;
  recv_bytes = 0;
  remaining_bytes = 0;
  bytes_processed_in_this_connection = 0;
  count_processed_in_this_connection = 0;
  query_hit = false;
  ret_buf_offset = 0;
  ret_bytes = 0;
  in_batch_get = false;
  batch_num = 0;
  batch_count = 0;
  conn_state = conn_read;
  work_state = parse_head;
}

-- `conn_new` on a descriptor with no earlier connection (`conns[sfd]` is never assigned, so there is
-- none). `none` where `assert(sfd >= 0 && sfd < MAX_CONN)` fails.
unfoldable pub conn_new : ℕ → ℕ → Connection → Option Connection
conn_new sfd thread_index blank =
    if ltb sfd max_conn then some (new_conn sfd thread_index blank) else none
