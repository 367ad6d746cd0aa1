-- ===== src/Com/Parse/Requests.antt =====
-- The parser of src/com/socket_server.cpp on a request that a client sends.
use testbed.Prelude.{
  ℕ, ◌+◌, ◌-◌, ◌≤◌, ◌<◌, ◌≡◌, ◌⊎◌, refl, ◌∙◌, false, ◌++◌, some, arith, Bytes, length, take, drop,
  le→ltb, append_assoc, drop-drop, length-append, drop-length_append, take-length_append,
}
use testbed.Com.Header.{ProtocolBinaryRequestHeader, header_size}
use testbed.Com.Header.ByteOrder.{
  IsHeader, wire_header, exchanged, header_at-wire_header, ntohs-htons, ntohl-htonl,
}
use testbed.Com.Conn.{Connection, read_key_value, store_kvobj, query_key, cmd_get, cmd_set}
use testbed.Com.Parse.{
  goes, advance, dispatch_bin_command, take_header, accept_header, try_read_head_binary, was_read,
  try_read_key_value,
}

-- The connection after its header fields have been read.
abbrev pub with_header : ProtocolBinaryRequestHeader → Connection → Connection
with_header h c = record c {
  binary_header = record h { reserved = c.binary_header.reserved };
  cmd = h.opcode;
}

take_header-exchanged :
    (h : ProtocolBinaryRequestHeader) (c : Connection)
    → IsHeader h
    → take_header (exchanged h) c ≡ with_header h c
unfolding take_header
take_header-exchanged h c fits = cc (
  ntohs-htons h.keylen fits.keylen_fits,
  ntohs-htons h.batchnum fits.batchnum_fits,
  ntohl-htonl h.totalbodylen fits.totalbodylen_fits,
)

accept_header-counted :
    (c : Connection)
    → (c.in_batch_get ≡ false) ⊎ (c.batch_count ≡ c.binary_header.batchnum)
    → accept_header c ≡ goes (some (advance header_size (dispatch_bin_command c)))
unfolding accept_header
accept_header-counted c batch = ground arith

-- Outside a batch, and in one whose count the header has, the header is taken and dispatched.
pub try_read_head_binary-wire :
    (h : ProtocolBinaryRequestHeader) (c : Connection) (rest : Bytes)
    → IsHeader h
    → drop c.working_buf c.read_buf ≡ wire_header h ++ rest
    → header_size ≤ c.remaining_bytes
    → (c.in_batch_get ≡ false) ⊎ (c.batch_count ≡ h.batchnum)
    → try_read_head_binary c
      ≡ goes (some (advance header_size (dispatch_bin_command (with_header h c))))
try_read_head_binary-wire h c rest fits window enough batch =
    unfold try_read_head_binary in
    rw (window, header_at-wire_header h rest fits, le→ltb _ _ enough, try_read_head_binary)
      (rw (take_header-exchanged h c fits) (accept_header-counted (with_header h c) batch))

-- The three requests. `batchnum` is the position in a batch, or its size in a batch head.
abbrev pub set_header : ℕ → Bytes → Bytes → ProtocolBinaryRequestHeader
set_header batchnum key value = record {
  magic = 0x80;
  opcode = cmd_set;
  keylen = length key;
  batchnum = batchnum;
  prehash = 0;
  reserved = 0;
  totalbodylen = length key + length value;
}

abbrev pub get_header : ℕ → Bytes → ProtocolBinaryRequestHeader
get_header batchnum key = record {
  magic = 0x80;
  opcode = cmd_get;
  keylen = length key;
  batchnum = batchnum;
  prehash = 0;
  reserved = 0;
  totalbodylen = length key;
}

abbrev pub set_request : ℕ → Bytes → Bytes → Bytes
set_request batchnum key value = wire_header (set_header batchnum key value) ++ (key ++ value)

abbrev pub get_request : ℕ → Bytes → Bytes
get_request batchnum key = wire_header (get_header batchnum key) ++ key

-- The sizes that the protocol allows. The server refuses a SET whose value is shorter than 8 bytes.
pub record IsSettable (batchnum : ℕ) (key value : Bytes) : Type 0 where
  pub key_there : 0 < length key
  pub value_there : 8 ≤ length value
  pub fits : IsHeader (set_header batchnum key value)

pub record IsGettable (batchnum : ℕ) (key : Bytes) : Type 0 where
  pub key_there : 0 < length key
  pub fits : IsHeader (get_header batchnum key)

-- The bytes from `working_buf` on, which the parser reads.
abbrev pub window : Connection → Bytes
window c = drop c.working_buf c.read_buf

dispatch-set :
    (n : ℕ) (key value : Bytes) (c : Connection)
    → IsSettable n key value
    → dispatch_bin_command (with_header (set_header n key value) c)
      ≡ record (with_header (set_header n key value) c) { work_state = read_key_value }
unfolding dispatch_bin_command
dispatch-set n key value c ok = ground arith

dispatch-get :
    (n : ℕ) (key : Bytes) (c : Connection)
    → IsGettable n key
    → dispatch_bin_command (with_header (get_header n key) c)
      ≡ record (with_header (get_header n key) c) { work_state = read_key_value }
unfolding dispatch_bin_command
dispatch-get n key c ok = ground arith

-- The connection behind a header that announces a key.
abbrev pub at_body : ProtocolBinaryRequestHeader → Connection → Connection
at_body h c = record c {
  binary_header = record h { reserved = c.binary_header.reserved };
  cmd = h.opcode;
  work_state = read_key_value;
  remaining_bytes = c.remaining_bytes - header_size;
  working_buf = c.working_buf + header_size;
  worked_bytes = c.worked_bytes + header_size;
}

abbrev pub set_read : ℕ → Bytes → Bytes → Connection → Connection
set_read n key value c = record (at_body (set_header n key value) c) {
  key = key;
  value = value;
  work_state = store_kvobj;
  remaining_bytes = c.remaining_bytes - header_size - (length key + length value);
  working_buf = c.working_buf + header_size + (length key + length value);
  worked_bytes = c.worked_bytes + header_size + (length key + length value);
}

abbrev pub get_read : ℕ → Bytes → Connection → Connection
get_read n key c = record (at_body (get_header n key) c) {
  key = key;
  work_state = query_key;
  remaining_bytes = c.remaining_bytes - header_size - length key;
  working_buf = c.working_buf + header_size + length key;
  worked_bytes = c.worked_bytes + header_size + length key;
}

window-advance :
    (c : Connection) (bs rest : Bytes) (n : ℕ)
    → window c ≡ bs ++ rest
    → length bs ≡ n
    → drop (c.working_buf + n) c.read_buf ≡ rest
window-advance c bs rest n w e =
    rw (← drop-drop c.working_buf n c.read_buf, w, ← e) (drop-length_append bs rest)

pub try_read_head_binary-set :
    (n : ℕ) (key value : Bytes) (c : Connection) (rest : Bytes)
    → IsSettable n key value
    → window c ≡ set_request n key value ++ rest
    → header_size ≤ c.remaining_bytes
    → (c.in_batch_get ≡ false) ⊎ (c.batch_count ≡ n)
    → try_read_head_binary c ≡ goes (some (at_body (set_header n key value) c))
unfolding advance
try_read_head_binary-set n key value c rest ok w enough batch =
    try_read_head_binary-wire (set_header n key value) c ((key ++ value) ++ rest) ok.fits w enough
      batch
    ∙ rw (dispatch-set n key value c ok)

key_and_value :
    (key value rest : Bytes)
    → (take (length key) ((key ++ value) ++ rest) ≡ key)
      × (take (length key + length value - length key) (drop (length key) ((key ++ value) ++ rest))
          ≡ value)
key_and_value key value rest =
    let n : length key + length value - length key ≡ length value = omega arith in
    rw append_assoc (
      take-length_append key (value ++ rest),
      rw (n, drop-length_append key (value ++ rest)) (take-length_append value rest),
    )

pub try_read_key_value-set :
    (n : ℕ) (key value : Bytes) (c : Connection) (rest : Bytes)
    → window c ≡ set_request n key value ++ rest
    → header_size + (length key + length value) ≤ c.remaining_bytes
    → try_read_key_value (at_body (set_header n key value) c) ≡ was_read (set_read n key value c)
unfolding try_read_key_value advance
try_read_key_value-set n key value c rest w enough =
    let body =
      window-advance c (wire_header (set_header n key value)) ((key ++ value) ++ rest) 12 w refl in
    let parts = key_and_value key value rest in
    rw (body, le→ltb (c.remaining_bytes - 12) (length key + length value) (omega arith))
      (cc (parts.0, parts.1))

pub try_read_head_binary-get :
    (n : ℕ) (key : Bytes) (c : Connection) (rest : Bytes)
    → IsGettable n key
    → window c ≡ get_request n key ++ rest
    → header_size ≤ c.remaining_bytes
    → (c.in_batch_get ≡ false) ⊎ (c.batch_count ≡ n)
    → try_read_head_binary c ≡ goes (some (at_body (get_header n key) c))
unfolding advance
try_read_head_binary-get n key c rest ok w enough batch =
    try_read_head_binary-wire (get_header n key) c (key ++ rest) ok.fits w enough batch
    ∙ rw (dispatch-get n key c ok)

pub try_read_key_value-get :
    (n : ℕ) (key : Bytes) (c : Connection) (rest : Bytes)
    → window c ≡ get_request n key ++ rest
    → header_size + length key ≤ c.remaining_bytes
    → try_read_key_value (at_body (get_header n key) c) ≡ was_read (get_read n key c)
unfolding try_read_key_value advance
try_read_key_value-get n key c rest w enough =
    let body = window-advance c (wire_header (get_header n key)) (key ++ rest) 12 w refl in
    rw (body, le→ltb (c.remaining_bytes - 12) (length key) (omega arith))
      (cc (take-length_append key rest))

-- What a SET leaves before the parser.
pub window-set_read :
    (n : ℕ) (key value : Bytes) (c : Connection) (rest : Bytes)
    → window c ≡ set_request n key value ++ rest
    → window (set_read n key value c) ≡ rest
window-set_read n key value c rest w =
    let body =
      window-advance c (wire_header (set_header n key value)) ((key ++ value) ++ rest) 12 w refl in
    window-advance (at_body (set_header n key value) c) (key ++ value) rest _ body
      (length-append key value)

pub window-get_read :
    (n : ℕ) (key : Bytes) (c : Connection) (rest : Bytes)
    → window c ≡ get_request n key ++ rest
    → window (get_read n key c) ≡ rest
window-get_read n key c rest w =
    let body = window-advance c (wire_header (get_header n key)) (key ++ rest) 12 w refl in
    window-advance (at_body (get_header n key) c) key rest _ body refl
