-- ===== src/Com/Examples.antt =====
-- The theorems about the socket server at concrete connections, and runs of its functions.
use testbed.Prelude.{
  ◌≡◌, refl, true, false, [], ◌∷◌, ◌++◌, List, Option, some, none, arith, Bytes, bytes_eq,
  if◌then◌else◌, replicate,
}
use testbed.Com.Header.{ProtocolBinaryRequestHeader}
use testbed.Com.Header.ByteOrder.{IsHeader}
use testbed.Com.Conn.{
  Connection, Socket, WriteAnswer, got, conn_deal_with, conn_waiting, parse_head, write_bcak, write,
  answer_write,
}
use testbed.Com.Parse.{unparsed}
use testbed.Com.Parse.Requests.{set_request, get_request, IsSettable, IsGettable}
use testbed.Com.Reply.{
  send_batch, send_front, batch_sent, next_buffer, after_batch, count_batch_bytes,
}
use testbed.Com.Reply.Wire.{reply_header}
use testbed.Com.Reply.Sending.{pending, send_batch-conserves}
use testbed.Com.Network.{try_read_network}
use testbed.Com.Network.Framing.{IsBuffered, try_read_network-unparsed}
use testbed.Com.Table.{HashTable}
use testbed.Com.Process.{World, process_loop}
use testbed.Com.Process.Serve.{IsReady}
use testbed.Com.Process.Termination.{IsDone, process_loop-IsDone}
use testbed.Com.Network.{conn_new}
use testbed.Com.Process.Idle.{IdleOutcome, accepted, events, conn_new_idle}

-- A hash table as a list of pairs, the newest first.
assoc_find : Bytes → List (Bytes × Bytes) → Option Bytes
assoc_find k [] = none
assoc_find k ((j, v) ∷ t) = if bytes_eq j k then some v else assoc_find k t

assoc_find_insert :
    (k j v : Bytes) (t : List (Bytes × Bytes))
    → assoc_find j ((k, v) ∷ t) ≡ (if bytes_eq k j then some v else assoc_find j t)
unfolding assoc_find
assoc_find_insert k j v t = refl

abbrev assoc : HashTable
assoc = record {
  Table = List (Bytes × Bytes);
  insert_or_assign = λ k v t. (k, v) ∷ t;
  find = assoc_find;
  find-insert_or_assign = assoc_find_insert;
}

abbrev no_header : ProtocolBinaryRequestHeader
no_header = record {
  magic = 0;
  opcode = 0;
  keylen = 0;
  batchnum = 0;
  prehash = 0;
  reserved = 0;
  totalbodylen = 0;
}

abbrev the_key : Bytes
the_key = b'k' ∷ []

abbrev the_value : Bytes
the_value = b'v' ∷ b'a' ∷ b'l' ∷ b'u' ∷ b'e' ∷ b'1' ∷ b'2' ∷ b'3' ∷ []

-- A SET and the GET behind it are in the read buffer.
abbrev two_requests : Connection
two_requests = record {
  sfd = 7;
  thread_index = 0;
  read_buf_size = 34;
  read_buf = set_request 0 the_key the_value ++ (get_request 0 the_key ++ []);
  recv_bytes = 34;
  total_bytes = 34;
  working_buf = 0;
  worked_bytes = 0;
  remaining_bytes = 34;
  ret_buf_size = 64;
  ret_buf = replicate 64 0;
  ret_buf_offset = 0;
  ret_bytes = 0;
  batch_ret_vector = [];
  bytes_processed_in_this_connection = 0;
  count_processed_in_this_connection = 0;
  conn_state = conn_deal_with;
  work_state = parse_head;
  binary_header = no_header;
  cmd = 0;
  key = [];
  value = [];
  query_hit = false;
  batch_num = 0;
  batch_count = 0;
  in_batch_get = false;
}

abbrev willing : WriteAnswer
willing = record { count = 100; again = false }

abbrev on_wire : Socket
on_wire = record { reads = []; writes = willing ∷ []; sent = [] }

abbrev two_to_serve : World (List (Bytes × Bytes))
two_to_serve = record {
  conn = two_requests;
  socket = on_wire;
  table = [];
  is_open = true;
  dummy = [];
}

ready : IsReady two_to_serve
ready = record {
  dealing = refl;
  parsing = refl;
  plain = refl;
  nothing_at = refl;
  nothing_left = refl;
}

settable : IsSettable 0 the_key the_value
settable = record { key_there = omega arith; value_there = omega arith; fits = omega arith }

gettable : IsGettable 0 the_key
gettable = record { key_there = omega arith; fits = omega arith }

process_loop-IsDone_example : IsDone assoc (process_loop assoc 40 0 two_to_serve)
process_loop-IsDone_example = process_loop-IsDone assoc 40 0 two_to_serve tt (omega arith)

-- A batch that was announced with no requests, behind the reply to one.
abbrev stuck_conn : Connection
stuck_conn = record two_requests {
  work_state = write_bcak;
  in_batch_get = true;
  batch_num = 0;
  batch_count = 1;
}

abbrev stuck_world : World (List (Bytes × Bytes))
stuck_world = record two_to_serve { conn = stuck_conn }

conn_new_idle_example :
    (c : Connection) × (conn_new 7 0 two_requests ≡ some c)
    × IdleOutcome assoc
        (accepted assoc c on_wire [] [])
        (events assoc 3 2 (accepted assoc c on_wire [] []))
conn_new_idle_example =
    conn_new_idle assoc 3 2 7 0 two_requests on_wire [] [] (omega arith) (omega arith)

-- A connection that has looked up its key and found the value, and one that has not.
abbrev found_conn : Connection
found_conn = record two_requests { key = the_key; value = the_value; query_hit = true }

abbrev missed_conn : Connection
missed_conn = record found_conn { query_hit = false }

reply_ok : IsHeader (reply_header the_key 9)
reply_ok = omega arith

-- A return buffer of 16 bytes.
abbrev small_conn : Connection
small_conn = record missed_conn { ret_buf_size = 16; ret_buf = replicate 16 0 }

-- Five bytes of a request are left when three more bytes come.
abbrev half_read : Connection
half_read = record two_requests { working_buf = 10; remaining_bytes = 5 }

abbrev three_more : Socket
three_more = record { reads = got (1 ∷ 2 ∷ 3 ∷ []) ∷ []; writes = []; sent = [] }

try_read_network-unparsed_example :
    (unparsed (try_read_network half_read three_more).1 ≡ 1 ∷ 2 ∷ 3 ∷ [])
    × IsBuffered (try_read_network half_read three_more).1
try_read_network-unparsed_example =
    try_read_network-unparsed half_read three_more (1 ∷ 2 ∷ 3 ∷ []) []
      (record { sized = refl; inside = omega arith }) refl (λ e. cc)

-- Two buffers to send, the first of them in part.
abbrev sending : Connection
sending = record two_requests {
  work_state = write_bcak;
  in_batch_get = true;
  batch_num = 2;
  batch_count = 2;
  batch_ret_vector =
      record { buf = 1 ∷ 2 ∷ 3 ∷ []; datalen = 3; offset = 1 }
      ∷ record { buf = 4 ∷ []; datalen = 1; offset = 0 }
      ∷ [];
}

abbrev one_byte : Socket
one_byte = record { reads = []; writes = record { count = 1; again = false } ∷ []; sent = 1 ∷ [] }

abbrev sent_one : Connection
sent_one = record sending {
  bytes_processed_in_this_connection = 12;
  batch_ret_vector =
      record { buf = 1 ∷ 2 ∷ 3 ∷ []; datalen = 3; offset = 2 }
      ∷ record { buf = 4 ∷ []; datalen = 1; offset = 0 }
      ∷ [];
  conn_state = conn_waiting;
}

send_batch-conserves_example :
    (1 ∷ 2 ∷ []) ++ pending sent_one.batch_ret_vector ≡ (1 ∷ []) ++ pending sending.batch_ret_vector
send_batch-conserves_example =
    send_batch-conserves sending sent_one one_byte
      (record { reads = []; writes = []; sent = 1 ∷ 2 ∷ [] }) (omega arith)
      (unfold send_batch send_front batch_sent next_buffer after_batch count_batch_bytes write
          answer_write in
        refl)
