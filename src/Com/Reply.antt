-- ===== src/Com/Reply.antt =====
-- The replies of src/com/socket_server.cpp: `con_ret_buf` and `send_batch`.
pub mod Wire
pub mod Sending
use testbed.Prelude.{
  ℕ, ◌+◌, ◌-◌, ◌%◌, false, List, [], ◌∷◌, ◌++◌, Option, none, some, Bytes, length, take, drop, ltb,
  leb, ◌==◌, if◌then◌else◌,
}
use testbed.Com.Header.{ProtocolBinaryRequestHeader, header_size, header_image, htons, htonl}
use testbed.Com.Conn.{
  Connection, Batchbuf, Socket, Written, write, batch_buf_size, u64_mod, write_bcak, parse_head,
  conn_closing, conn_waiting, conn_new_cmd,
}
use testbed.Com.Parse.{fresh_batchbuf}

-- "NOTFOUND"
abbrev pub notfound_ans : Bytes
notfound_ans = b'N' ∷ b'O' ∷ b'T' ∷ b'F' ∷ b'O' ∷ b'U' ∷ b'N' ∷ b'D' ∷ []

-- What is copied behind the key.
unfoldable pub answer : Connection → Bytes
answer c = if c.query_hit then c.value else notfound_ans

-- The fields as the host keeps them; `batchnum` of a batch is not exchanged by `htons`.
unfoldable pub resp_head : Connection → ProtocolBinaryRequestHeader
resp_head c = record {
  magic = 0x81;
  opcode = 0x01;
  keylen = htons (length c.key % 65536);
  batchnum = if c.in_batch_get then c.batch_count else htons 1;
  prehash = 0;
  reserved = 0;
  totalbodylen = htonl ((length c.key + length c.value) % 4294967296);
}

-- The bytes that the three copies write, one behind the other.
unfoldable pub reply_image : Connection → Bytes
reply_image c = header_image (resp_head c) ++ (c.key ++ answer c)

-- A copy into a buffer, which faults where it would leave it.
unfoldable pub memcpy : Bytes → ℕ → Bytes → Option Bytes
memcpy buf at_ src =
    if leb (at_ + length src) (length buf)
    then some (take at_ buf ++ (src ++ drop (at_ + length src) buf))
    else none

-- On a miss `ret_bytes` is increased here, in a batch too, and once more behind it if not in a batch.
unfoldable pub count_miss : Connection → Connection
count_miss c =
    if c.query_hit
    then c
    else record c { ret_bytes = c.ret_bytes + (header_size + length c.key + length notfound_ans) }

unfoldable pub back : List Batchbuf → Option Batchbuf
back [] = none
back (b ∷ []) = some b
back (b ∷ b' ∷ bs) = back (b' ∷ bs)

unfoldable pub set_back : List Batchbuf → Batchbuf → List Batchbuf
set_back [] x = []
set_back (b ∷ []) x = x ∷ []
set_back (b ∷ b' ∷ bs) x = b ∷ set_back (b' ∷ bs) x

unfoldable pub plain_reply : Connection → Option Bytes → Option Connection
plain_reply c none = none
plain_reply c (some buf) = some (record (count_miss c) {
  ret_buf = buf;
  ret_bytes = (count_miss c).ret_bytes + (header_size + length c.key + length (answer c));
  work_state = write_bcak;
})

-- The test for a new buffer counts the stored `value`, also on a miss.
unfoldable pub room : Connection → Batchbuf → List Batchbuf → List Batchbuf
room c b bufs =
    if ltb batch_buf_size (b.datalen + header_size + length c.key + length c.value)
    then bufs ++ fresh_batchbuf ∷ []
    else bufs

unfoldable pub append_reply : Connection → List Batchbuf → Option Batchbuf → Option Connection
append_reply c bufs none = none
append_reply c bufs (some b) =
    if leb (b.datalen + length (reply_image c)) batch_buf_size
    then some (record (count_miss c) {
      batch_count = (c.batch_count + 1) % 65536;
      batch_ret_vector = set_back bufs (record b {
        buf = take b.datalen b.buf ++ reply_image c;
        datalen = b.datalen + (header_size + length c.key + length (answer c));
      });
      work_state = write_bcak;
    })
    else none

unfoldable pub batch_reply : Connection → Option Batchbuf → Option Connection
batch_reply c none = none
batch_reply c (some b) =
    append_reply c (room c b c.batch_ret_vector) (back (room c b c.batch_ret_vector))

-- `none` is a fault: `back` of an empty vector, or a copy that leaves its buffer.
unfoldable pub con_ret_buf : Connection → Option Connection
con_ret_buf c =
    if c.in_batch_get
    then batch_reply c (back c.batch_ret_vector)
    else plain_reply c (memcpy c.ret_buf c.ret_buf_offset (reply_image c))

abbrev pub OnSocket : Type 0
OnSocket = Connection × Socket

-- What is left to send of a buffer.
abbrev pub unsent : Batchbuf → Bytes
unsent b = take (b.datalen - b.offset) (drop b.offset b.buf)

unfoldable pub after_batch : Connection → Connection
after_batch c = record c {
  in_batch_get = false;
  batch_num = 0;
  batch_count = 0;
  work_state = parse_head;
  conn_state = conn_new_cmd;
}

-- The first buffer is erased, and the batch is over with the last one.
unfoldable pub next_buffer : Connection → List Batchbuf → Connection
next_buffer c [] = after_batch (record c { batch_ret_vector = [] })
next_buffer c (x ∷ xs) = record c { batch_ret_vector = x ∷ xs; conn_state = conn_waiting }

-- `write` has answered for the first buffer `b`.
unfoldable pub batch_sent : Connection → Batchbuf → List Batchbuf → Written → OnSocket
batch_sent c b rest w =
    if w.ret == 0
    then (record c { conn_state = if w.again then conn_waiting else conn_closing }, w.socket)
    else if w.ret == b.datalen - b.offset
    then (next_buffer c rest, w.socket)
    else (
      record c {
        batch_ret_vector = record b { offset = b.offset + w.ret } ∷ rest;
        conn_state = conn_waiting;
      },
      w.socket,
    )

unfoldable pub send_front : Connection → Socket → List Batchbuf → Option OnSocket
send_front c k [] = none
send_front c k (b ∷ rest) = some (batch_sent c b rest (write k (unsent b)))

unfoldable pub count_batch_bytes : Connection → Connection
count_batch_bytes c = record c {
  bytes_processed_in_this_connection =
      (c.bytes_processed_in_this_connection + header_size + c.binary_header.keylen) % u64_mod;
}

-- `none` is a fault: the first buffer of an empty vector.
unfoldable pub send_batch : Connection → Socket → Option OnSocket
send_batch c k =
    let c' = count_batch_bytes c in
    if ltb c.batch_count c.batch_num
    then some (record c' { work_state = parse_head; conn_state = conn_new_cmd }, k)
    else if c.batch_count == c.batch_num
    then send_front c' k c'.batch_ret_vector
    else some (c', k)
