-- ===== src/Com/Conn.antt =====
-- The connection of src/com/server_define.h, the constants of src/com/settings.h, and the answers of the
-- operating system to `read` and `write`.
use testbed.Prelude.{ℕ, ◌^◌, Bool, true, List, [], ◌∷◌, ◌++◌, Bytes, length, take, min}
use testbed.Com.Header.{ProtocolBinaryRequestHeader}

pub data ConnStates : Type 0 where
  conn_parse_cmd conn_count conn_deal_with conn_new_cmd conn_waiting conn_read : ConnStates
  conn_write conn_nread conn_swallow conn_closing conn_mwrite conn_closed : ConnStates
  conn_watch conn_max_state : ConnStates

pub data WorkStates : Type 0 where
  parse_head read_key_value store_kvobj query_key write_bcak : WorkStates

-- A buffer of `batch_buf_size` bytes; `buf` holds the bytes that have been written to it.
pub record Batchbuf : Type 0 where
  pub buf : Bytes
  pub datalen : ℕ
  pub offset : ℕ

-- `working_buf`, a pointer into `read_buf`, is the distance from its start.
pub record Connection : Type 0 where
  pub sfd : ℕ
  pub thread_index : ℕ
  pub read_buf_size : ℕ
  pub read_buf : Bytes
  pub recv_bytes : ℕ
  pub total_bytes : ℕ
  pub working_buf : ℕ
  pub worked_bytes : ℕ
  pub remaining_bytes : ℕ
  pub ret_buf_size : ℕ
  pub ret_buf : Bytes
  pub ret_buf_offset : ℕ
  pub ret_bytes : ℕ
  pub batch_ret_vector : List Batchbuf
  pub bytes_processed_in_this_connection : ℕ
  pub count_processed_in_this_connection : ℕ
  pub conn_state : ConnStates
  pub work_state : WorkStates
  pub binary_header : ProtocolBinaryRequestHeader
  pub cmd : ℕ
  pub key : Bytes
  pub value : Bytes
  pub query_hit : Bool
  pub batch_num : ℕ
  pub batch_count : ℕ
  pub in_batch_get : Bool

abbrev pub batch_buf_size : ℕ
batch_buf_size = 1000000

abbrev pub init_read_buf_size : ℕ
init_read_buf_size = 5000

abbrev pub init_ret_buf_size : ℕ
init_ret_buf_size = 1000

abbrev pub max_conn : ℕ
max_conn = 65535

abbrev pub round_num : ℕ
round_num = 20

-- `unsigned long`
abbrev pub u64_mod : ℕ
u64_mod = 2 ^ 64

abbrev pub protocol_binary_req : ℕ
protocol_binary_req = 0x80

abbrev pub cmd_get : ℕ
cmd_get = 0x01

abbrev pub cmd_getbatch_head : ℕ
cmd_getbatch_head = 0x03

abbrev pub cmd_set : ℕ
cmd_set = 0x04

-- What `read` answers: bytes, of which as many are taken as there is room for, or -1 with EAGAIN,
-- or -1 with another error. End of file is `got []`.
pub data ReadAnswer : Type 0 where
  got : Bytes → ReadAnswer
  read_again read_failed : ReadAnswer

-- What `write` answers: the bytes that it is ready to take; where it takes none, `again` says whether
-- `errno` is EAGAIN or EWOULDBLOCK.
pub record WriteAnswer : Type 0 where
  pub count : ℕ
  pub again : Bool

-- The answers to come, and what the peer has been sent.
pub record Socket : Type 0 where
  pub reads : List ReadAnswer
  pub writes : List WriteAnswer
  pub sent : Bytes

pub record Written : Type 0 where
  pub ret : ℕ
  pub again : Bool
  pub socket : Socket

unfoldable pub answer_write : List WriteAnswer → Socket → Bytes → Written
answer_write [] k bs = record { ret = 0; again = true; socket = k }
answer_write (a ∷ rest) k bs = record {
  ret = min a.count (length bs);
  again = a.again;
  socket = record k { writes = rest; sent = k.sent ++ take (min a.count (length bs)) bs };
}

-- With no answer left the call would block.
unfoldable pub write : Socket → Bytes → Written
write k bs = answer_write k.writes k bs

pub data TryReadResult : Type 0 where
  read_data_received read_no_data_received read_error read_memory_error : TryReadResult
