-- ===== src/Com/Process/Rounds.antt =====
-- One round of `process_func` for each state, as a rewriting of the world.
use testbed.Prelude.{
  ℕ, suc, ◌+◌, ◌%◌, ◌≤◌, ◌<◌, ◌≡◌, false, ◌∷◌, some, arith, Bytes, length, take, drop,
}
use testbed.Com.Header.{header_size}
use testbed.Com.Conn.{
  Connection, Socket, write, conn_deal_with, conn_new_cmd, parse_head, read_key_value, store_kvobj,
  query_key, write_bcak, u64_mod, round_num, protocol_binary_req,
}
use testbed.Com.Parse.{goes, try_read_head_binary, was_read, try_read_key_value}
use testbed.Com.Reply.{con_ret_buf}
use testbed.Com.Network.{reset_cmd_handler}
use testbed.Com.Table.{HashTable}
use testbed.Com.Process.{
  World, again, with_conn, process_step, process_case, process_loop, deal_with, on_parse_head,
  on_magic, after_head, on_read_key_value, after_key_value, on_store_kvobj, on_query_key, found,
  lift_reply, on_write_bcak, send_plain, plain_sent, on_new_cmd,
}

module _ (h : HashTable) where
  open h use {Table, insert_or_assign, find}

  pub loop_again :
      (fuel i i' : ℕ) (w w' : World Table)
      → process_step h i w ≡ again i' w'
      → process_loop h (suc fuel) i w ≡ process_loop h fuel i' w'
  unfolding process_loop
  loop_again fuel i i' w w' e = rw (e, process_loop)

  step_dealing :
      (i : ℕ) (w : World Table)
      → w.conn.conn_state ≡ conn_deal_with
      → process_step h i w ≡ deal_with h w.conn.work_state i w
  unfolding process_step process_case
  step_dealing i w e = rw e

  -- A header that is read in full makes the parser go on with what it leaves.
  pub step_head :
      (i : ℕ) (w : World Table) (c : Connection) (rest : Bytes)
      → w.conn.conn_state ≡ conn_deal_with
      → w.conn.work_state ≡ parse_head
      → 1 ≤ w.conn.remaining_bytes
      → drop w.conn.working_buf w.conn.read_buf ≡ protocol_binary_req ∷ rest
      → try_read_head_binary w.conn ≡ goes (some c)
      → process_step h i w ≡ again i (with_conn w c)
  unfolding process_step process_case deal_with on_parse_head on_magic after_head
  step_head i w c rest s t enough magic e = ground arith

  pub step_key_value :
      (i : ℕ) (w : World Table) (c : Connection)
      → w.conn.conn_state ≡ conn_deal_with
      → w.conn.work_state ≡ read_key_value
      → try_read_key_value w.conn ≡ was_read c
      → process_step h i w ≡ again i (with_conn w c)
  unfolding process_step process_case deal_with on_read_key_value after_key_value
  step_key_value i w c s t e = ground arith

  -- The world behind a stored request.
  abbrev pub stored : World Table → World Table
  stored w = record w {
    table = insert_or_assign w.conn.key w.conn.value w.table;
    conn = record w.conn {
      bytes_processed_in_this_connection =
          (w.conn.bytes_processed_in_this_connection + header_size
            + w.conn.binary_header.totalbodylen)
          % u64_mod;
      work_state = parse_head;
      conn_state = conn_new_cmd;
    };
  }

  pub step_store :
      (i : ℕ) (w : World Table)
      → w.conn.conn_state ≡ conn_deal_with
      → w.conn.work_state ≡ store_kvobj
      → process_step h i w ≡ again i (stored w)
  unfolding process_step process_case deal_with on_store_kvobj
  step_store i w s t = ground arith

  pub step_query :
      (i : ℕ) (w : World Table) (c : Connection)
      → w.conn.conn_state ≡ conn_deal_with
      → w.conn.work_state ≡ query_key
      → con_ret_buf (found h w.conn (find w.conn.key w.table)) ≡ some c
      → process_step h i w ≡ again i (with_conn w c)
  unfolding process_step process_case deal_with on_query_key lift_reply
  step_query i w c s t e = ground arith

  -- The world behind a reply that the peer has taken whole.
  abbrev pub replied : World Table → Socket → World Table
  replied w k = record w {
    conn = record w.conn {
      ret_buf_offset = 0;
      ret_bytes = 0;
      work_state = parse_head;
      conn_state = conn_new_cmd;
    };
    socket = k;
  }

  pub step_write :
      (i : ℕ) (w : World Table)
      → w.conn.conn_state ≡ conn_deal_with
      → w.conn.work_state ≡ write_bcak
      → w.conn.in_batch_get ≡ false
      → w.conn.ret_buf_offset + w.conn.ret_bytes ≤ length w.conn.ret_buf
      → 0 < w.conn.ret_bytes
      → (write w.socket (take w.conn.ret_bytes (drop w.conn.ret_buf_offset w.conn.ret_buf))).ret
        ≡ w.conn.ret_bytes
      → process_step h i w
        ≡ again i (
            replied w
              (write w.socket
                (take w.conn.ret_bytes (drop w.conn.ret_buf_offset w.conn.ret_buf))).socket)
  unfolding process_step process_case deal_with on_write_bcak send_plain plain_sent
  step_write i w s t plain inside some_bytes taken = ground arith

  pub step_new_cmd :
      (i : ℕ) (w : World Table)
      → w.conn.conn_state ≡ conn_new_cmd
      → i + 1 < round_num
      → process_step h i w ≡ again (i + 1) (with_conn w (reset_cmd_handler w.conn))
  unfolding process_step process_case on_new_cmd
  step_new_cmd i w s early = ground arith
