-- ===== src/Com/Process/Measure.antt =====
-- What each round of `process_func` uses up: bytes to parse, or rank among the states.
use testbed.Prelude.{
  ℕ, ◌+◌, ◌≤◌, ◌<◌, ◌≡◌, ◌⊎◌, inl, inr, refl, true, [], ◌∷◌, Bytes, some, none, arith, Option, drop,
  List, ltb, ◌==◌, Bool-cases,
}
use testbed.Com.Header.{ProtocolBinaryRequestHeader, header_size, header_at}
use testbed.Com.Conn.{
  Socket, Batchbuf, TryReadResult, read_data_received, read_no_data_received, read_error,
  read_memory_error, Connection, ConnStates, WorkStates, conn_deal_with, conn_new_cmd, conn_waiting,
  conn_read, conn_closing, protocol_binary_req, parse_head, read_key_value, store_kvobj, query_key,
  write_bcak,
}
use testbed.Com.Parse.{
  Flow, goes, exits, faults, advance, dispatch_bin_command, take_header, accept_header,
  try_read_head_binary, ReadKeyValue, need_more, bad_instruction, was_read, try_read_key_value,
}
use testbed.Com.Reply.{
  con_ret_buf, plain_reply, batch_reply, append_reply, count_miss, send_batch, send_front,
  batch_sent, after_batch, next_buffer, count_batch_bytes,
}
use testbed.Com.Network.{reset_cmd_handler, try_read_network}
use testbed.Com.Process.{
  World, Round, again, stops, ends, on_parse_head, on_magic, after_head, after_key_value,
  lift_reply, on_write_bcak, lift_batch, send_plain, plain_sent, on_new_cmd, after_read, count_read,
}

-- The states that the code sets. A new command is announced with the parser at its start.
abbrev pub IsHandled : ConnStates → WorkStates → Type 0
IsHandled conn_read t = Unit
IsHandled conn_waiting t = Unit
IsHandled conn_closing t = Unit
IsHandled conn_deal_with t = Unit
IsHandled conn_new_cmd t = t ≡ parse_head
IsHandled _ t = ⊥

abbrev pub work_rank : WorkStates → ℕ
work_rank parse_head = 3
work_rank read_key_value = 8
work_rank store_kvobj = 7
work_rank query_key = 7
work_rank write_bcak = 6

-- Parsing uses up bytes; all else falls in rank.
abbrev pub measure_at : ConnStates → WorkStates → ℕ → ℕ
measure_at conn_read t n = 2
measure_at conn_deal_with t n = n + work_rank t
measure_at conn_new_cmd t n = n + 5
measure_at _ t n = 1

abbrev pub IsHandledConn : Connection → Type 0
IsHandledConn c = IsHandled c.conn_state c.work_state

abbrev pub measure : Connection → ℕ
measure c = measure_at c.conn_state c.work_state c.remaining_bytes

-- A batch in which more replies have been counted than it was announced to have.
pub record IsStuck (c : Connection) : Type 0 where
  pub dealing : c.conn_state ≡ conn_deal_with
  pub writing : c.work_state ≡ write_bcak
  pub batching : c.in_batch_get ≡ true
  pub passed : c.batch_num < c.batch_count

-- `m` is the measure before the round.
abbrev pub Falls : {T : Type 0} → ℕ → Round T → Type 0
Falls m (again i w) = IsHandledConn w.conn × (measure w.conn < m)
Falls m (stops w) = IsHandledConn w.conn
Falls m (ends e) = Unit

dispatch_falls :
    (c : Connection)
    → c.conn_state ≡ conn_deal_with
    → c.work_state ≡ parse_head
    → header_size ≤ c.remaining_bytes
    → IsHandledConn (advance header_size (dispatch_bin_command c))
      × (measure (advance header_size (dispatch_bin_command c)) < c.remaining_bytes + 3)
unfolding advance dispatch_bin_command
dispatch_falls c s t enough = ground arith

pub key_value_falls :
    (c c' : Connection)
    → c.conn_state ≡ conn_deal_with
    → try_read_key_value c ≡ was_read c'
    → IsHandledConn c' × (measure c' < c.remaining_bytes + 8)
unfolding try_read_key_value advance
key_value_falls c c' s e = ground arith

pub reply_falls :
    (c c' : Connection)
    → c.conn_state ≡ conn_deal_with
    → con_ret_buf c ≡ some c'
    → IsHandledConn c' × (measure c' < c.remaining_bytes + 7)
unfolding con_ret_buf plain_reply batch_reply append_reply count_miss
reply_falls c c' s e = ground arith

accept_falls :
    (c c' : Connection)
    → c.conn_state ≡ conn_deal_with
    → c.work_state ≡ parse_head
    → header_size ≤ c.remaining_bytes
    → accept_header c ≡ goes (some c')
    → IsHandledConn c' × (measure c' < c.remaining_bytes + 3)
unfolding accept_header
accept_falls c c' s t enough e = ground (arith, dispatch_falls c)

head_falls :
    (c c' : Connection) (o : Option ProtocolBinaryRequestHeader)
    → header_at (drop c.working_buf c.read_buf) ≡ o
    → c.conn_state ≡ conn_deal_with
    → c.work_state ≡ parse_head
    → try_read_head_binary c ≡ goes (some c')
    → IsHandledConn c' × (measure c' < c.remaining_bytes + 3)
unfolding try_read_head_binary take_header
head_falls c c' none o s t e = ground arith
head_falls c c' (some req) o s t e = ground (arith, accept_falls (take_header req c) c')

-- What `try_read_head_binary` leaves, if it reads a header.
abbrev pub HeadFalls : ℕ → Flow (Option Connection) → Type 0
HeadFalls n (goes (some c)) = IsHandledConn c × (measure c < n + 3)
HeadFalls n (goes none) = Unit
HeadFalls n exits = Unit
HeadFalls n faults = Unit

head_cases :
    (c : Connection)
    → c.conn_state ≡ conn_deal_with
    → c.work_state ≡ parse_head
    → HeadFalls c.remaining_bytes (try_read_head_binary c)
head_cases c s t = cases (try_read_head_binary c) refl
  where
    cases :
        (r : Flow (Option Connection)) → try_read_head_binary c ≡ r → HeadFalls c.remaining_bytes r
    cases (goes (some c')) e = head_falls c c' _ refl s t e
    cases (goes none) e = tt
    cases exits e = tt
    cases faults e = tt

module _ {T : Type 0} where
  pub value_cases :
      (i : ℕ) (w : World T) (r : ReadKeyValue)
      → w.conn.conn_state ≡ conn_deal_with
      → ((c' : Connection)
          → w.conn.conn_state ≡ conn_deal_with
          → r ≡ was_read c'
          → IsHandledConn c' × (measure c' < w.conn.remaining_bytes + 8))
      → Falls (w.conn.remaining_bytes + 8) (after_key_value i w r)
  unfolding after_key_value
  value_cases i w need_more s f = (tt, omega arith)
  value_cases i w bad_instruction s f = (tt, omega arith)
  value_cases i w (was_read c) s f = f c s refl

  pub reply_cases :
      (i : ℕ) (w : World T) (o : Option Connection)
      → ((c' : Connection)
          → o ≡ some c'
          → IsHandledConn c' × (measure c' < w.conn.remaining_bytes + 7))
      → Falls (w.conn.remaining_bytes + 7) (lift_reply i w o)
  unfolding lift_reply
  reply_cases i w none f = tt
  reply_cases i w (some c) f = f c refl

  after_head-Falls :
      (i : ℕ) (w : World T) (r : Flow (Option Connection))
      → HeadFalls w.conn.remaining_bytes r
      → Falls (w.conn.remaining_bytes + 3) (after_head i w r)
  unfolding after_head
  after_head-Falls i w (goes (some c)) f = f
  after_head-Falls i w (goes none) f = (tt, omega arith)
  after_head-Falls i w exits f = tt
  after_head-Falls i w faults f = tt

  magic-Falls :
      (i : ℕ) (w : World T) (bs : Bytes)
      → HeadFalls w.conn.remaining_bytes (try_read_head_binary w.conn)
      → Falls (w.conn.remaining_bytes + 3) (on_magic i w bs)
  unfolding on_magic
  magic-Falls i w [] f = tt
  magic-Falls i w (b ∷ bs) f = elim (Bool-cases (b == protocol_binary_req)) [
    | inl e ↦ rw e (after_head-Falls i w _ f)
    | inr e ↦ rw e tt
  ]

  pub parse-Falls :
      (i : ℕ) (w : World T)
      → w.conn.conn_state ≡ conn_deal_with
      → w.conn.work_state ≡ parse_head
      → Falls (w.conn.remaining_bytes + 3) (on_parse_head i w)
  unfolding on_parse_head
  parse-Falls i w s t =
      let f = magic-Falls i w (drop w.conn.working_buf w.conn.read_buf) (head_cases w.conn s t) in
      elim (Bool-cases (ltb w.conn.remaining_bytes 1)) [
        | inl e ↦ rw e (tt, omega arith)
        | inr e ↦ rw e f
      ]

  plain-Falls :
      (i : ℕ) (w : World T)
      → w.conn.conn_state ≡ conn_deal_with
      → w.conn.work_state ≡ write_bcak
      → Falls (w.conn.remaining_bytes + 6) (send_plain i w)
  unfolding send_plain plain_sent
  plain-Falls i w s t = ground arith

  pub new_cmd-Falls :
      (i : ℕ) (w : World T)
      → w.conn.conn_state ≡ conn_new_cmd
      → w.conn.work_state ≡ parse_head
      → Falls (w.conn.remaining_bytes + 5) (on_new_cmd i w)
  unfolding on_new_cmd reset_cmd_handler
  new_cmd-Falls i w s t = ground arith

  front-Falls :
      (i : ℕ) (w : World T) (c : Connection) (k : Socket) (bufs : List Batchbuf)
      → c.remaining_bytes ≡ w.conn.remaining_bytes
      → Falls (w.conn.remaining_bytes + 6) (lift_batch i w (send_front c k bufs))
  unfolding lift_batch send_front batch_sent next_buffer after_batch
  front-Falls i w c k [] e = tt
  front-Falls i w c k (b ∷ []) e = ground arith
  front-Falls i w c k (b ∷ b' ∷ bs) e = ground arith

  batch-Falls :
      (i : ℕ) (w : World T)
      → w.conn.conn_state ≡ conn_deal_with
      → w.conn.work_state ≡ write_bcak
      → w.conn.in_batch_get ≡ true
      → Falls (w.conn.remaining_bytes + 6) (lift_batch i w (send_batch w.conn w.socket))
        ⊎ IsStuck w.conn
  unfolding send_batch count_batch_bytes
  batch-Falls i w s t b =
      let c = w.conn in
      elim (Bool-cases (ltb c.batch_count c.batch_num)) [
        | inl e ↦ inl (rw e (unfold lift_batch in (refl, omega arith)))
        | inr e ↦ elim (Bool-cases (c.batch_count == c.batch_num)) [
          | inl f ↦
              inl
                (rw (e, f) (front-Falls i w (count_batch_bytes c) w.socket c.batch_ret_vector refl))
          | inr f ↦ inr (record { dealing = s; writing = t; batching = b; passed = ground arith })
        ]
      ]

  pub write-Falls :
      (i : ℕ) (w : World T)
      → w.conn.conn_state ≡ conn_deal_with
      → w.conn.work_state ≡ write_bcak
      → Falls (w.conn.remaining_bytes + 6) (on_write_bcak i w) ⊎ IsStuck w.conn
  unfolding on_write_bcak
  write-Falls i w s t = elim (Bool-cases w.conn.in_batch_get) [
    | inl b ↦ simp b (batch-Falls i w s t b)
    | inr b ↦ simp b (inl (plain-Falls i w s t))
  ]

  pub read-Falls :
      (i : ℕ) (w : World T) → Falls 2 (after_read i w (try_read_network w.conn w.socket))
  read-Falls i w = cases (try_read_network w.conn w.socket)
    where
      cases : (r : TryReadResult × Connection × Socket) → Falls 2 (after_read i w r)
      cases (read_data_received, c, k) = unfold after_read count_read in (tt, omega arith)
      cases (read_no_data_received, c, k) = unfold after_read in (tt, omega arith)
      cases (read_error, c, k) = unfold after_read in (tt, omega arith)
      cases (read_memory_error, c, k) = unfold after_read in tt
