-- ===== src/Com/Parse.antt =====
-- The parser of src/com/socket_server.cpp: `try_read_head_binary`, `dispatch_bin_command` and
-- `try_read_key_value`.
pub mod Requests
use testbed.Prelude.{
  ℕ, ◌+◌, ◌-◌, Bool, true, false, ◌&&◌, not, List, [], ◌∷◌, ◌++◌, Option, none, some, Bytes, length,
  take, drop, ltb, leb, ◌==◌, if◌then◌else◌,
}
use testbed.Com.Header.{ProtocolBinaryRequestHeader, header_size, header_at, ntohs, ntohl}
use testbed.Com.Conn.{
  Connection, Batchbuf, parse_head, read_key_value, store_kvobj, query_key, conn_closing, cmd_get,
  cmd_getbatch_head, cmd_set,
}

-- What the parser still has before it: `remaining_bytes` bytes from `working_buf` on.
abbrev pub unparsed : Connection → Bytes
unparsed c = take c.remaining_bytes (drop c.working_buf c.read_buf)

-- `working_buf`, `remaining_bytes` and `worked_bytes` move together.
unfoldable pub advance : ℕ → Connection → Connection
advance n c = record c {
  remaining_bytes = c.remaining_bytes - n;
  working_buf = c.working_buf + n;
  worked_bytes = c.worked_bytes + n;
}

-- `exits` is a call of `exit`; `faults` is an access outside an object.
pub data Flow {ℓ} (A : Type ℓ) : Type ℓ where
  goes : A → Flow A
  exits : Flow A
  faults : Flow A

abbrev pub fresh_batchbuf : Batchbuf
fresh_batchbuf = record { buf = []; datalen = 0; offset = 0 }

unfoldable pub dispatch_bin_command : Connection → Connection
dispatch_bin_command c =
    let keylen = c.binary_header.keylen in
    let bodylen = c.binary_header.totalbodylen in
    if ltb bodylen keylen
    then record c { conn_state = conn_closing }
    else if c.cmd == cmd_set
    then (if not (keylen == 0) && leb (keylen + 8) bodylen
        then record c { work_state = read_key_value }
        else c)
    else if c.cmd == cmd_getbatch_head
    then record c {
      batch_num = c.binary_header.batchnum;
      batch_count = 0;
      in_batch_get = true;
      batch_ret_vector = c.batch_ret_vector ++ fresh_batchbuf ∷ [];
      work_state = parse_head;
    }
    else if c.cmd == cmd_get
    then (if not (keylen == 0) && bodylen == keylen
        then record c { work_state = read_key_value }
        else c)
    else c

-- The header is copied, but for `reserved`.
unfoldable pub take_header : ProtocolBinaryRequestHeader → Connection → Connection
take_header req c = record c {
  binary_header = record {
    magic = req.magic;
    opcode = req.opcode;
    keylen = ntohs req.keylen;
    batchnum = ntohs req.batchnum;
    prehash = req.prehash;
    reserved = c.binary_header.reserved;
    totalbodylen = ntohl req.totalbodylen;
  };
  cmd = req.opcode;
}

-- `none` is the result 0, that more data is needed.
unfoldable pub accept_header : Connection → Flow (Option Connection)
accept_header c =
    if c.in_batch_get && not (c.batch_count == c.binary_header.batchnum)
    then exits
    else goes (some (advance header_size (dispatch_bin_command c)))

unfoldable pub try_read_head_binary : Connection → Flow (Option Connection)
try_read_head_binary c =
    if ltb c.remaining_bytes header_size
    then goes none
    else elim (header_at (drop c.working_buf c.read_buf)) [
      | none ↦ faults
      | some req ↦ accept_header (take_header req c)
    ]

-- The results 0, -1 and 1 of `try_read_key_value`.
pub data ReadKeyValue : Type 0 where
  need_more : ReadKeyValue
  bad_instruction : ReadKeyValue
  was_read : Connection → ReadKeyValue

-- Both reads of `std::string(working_buf, n)` stay inside the `remaining_bytes` that are there, by the
-- test above them.
unfoldable pub try_read_key_value : Connection → ReadKeyValue
try_read_key_value c =
    let keylen = c.binary_header.keylen in
    let kvbytes = c.binary_header.totalbodylen in
    let at_work = drop c.working_buf c.read_buf in
    if c.cmd == cmd_set
    then (if ltb c.remaining_bytes kvbytes
        then need_more
        else was_read (
            advance kvbytes (record c {
              key = take keylen at_work;
              value = take (kvbytes - keylen) (drop keylen at_work);
              work_state = store_kvobj;
            })))
    else if c.cmd == cmd_get
    then (if ltb c.remaining_bytes keylen
        then need_more
        else was_read
            (advance keylen (record c { key = take keylen at_work; work_state = query_key })))
    else bad_instruction
