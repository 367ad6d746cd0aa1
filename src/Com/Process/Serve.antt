-- ===== src/Com/Process/Serve.antt =====
-- Several rounds of `process_func` of src/com/socket_server.cpp together, on SET and GET requests.
use testbed.Prelude.{
  ℕ, suc, ◌+◌, ◌-◌, ◌≤◌, ◌<◌, ◌≡◌, inl, refl, ap, sym, ◌∙◌, true, false, List, ◌∷◌, ◌++◌, some,
  arith, Bytes, length, take, drop, lt→ltb, if◌then◌else◌, bytes_eq, bytes_eq_iff, length-append,
  take_of_length_le, length-take, length-drop, take-length_append, min,
}
use testbed.Com.Header.{header_size}
use testbed.Com.Header.ByteOrder.{IsHeader}
use testbed.Com.Conn.{
  Connection, Socket, WriteAnswer, write, answer_write, Written, conn_deal_with, parse_head,
  write_bcak, round_num,
}
use testbed.Com.Parse.Requests.{
  window, set_header, get_header, set_request, get_request, IsSettable, IsGettable, at_body,
  set_read, get_read, try_read_head_binary-set, try_read_head_binary-get, try_read_key_value-set,
  try_read_key_value-get, window-set_read, window-get_read,
}
use testbed.Com.Reply.{con_ret_buf}
use testbed.Com.Reply.Wire.{reply_header, hit_reply, spliced, con_ret_buf-hit}
use testbed.Com.Network.{reset_cmd_handler}
use testbed.Com.Table.{HashTable}
use testbed.Com.Process.{World, with_conn, process_loop, found}
use testbed.Com.Process.Rounds.{
  loop_again, step_head, step_key_value, step_store, step_query, step_write, step_new_cmd, stored,
  replied,
}

-- The loop is about to parse a request, outside a batch and with no reply left to send.
pub record IsReady {T : Type 0} (w : World T) : Type 0 where
  pub dealing : w.conn.conn_state ≡ conn_deal_with
  pub parsing : w.conn.work_state ≡ parse_head
  pub plain : w.conn.in_batch_get ≡ false
  pub nothing_at : w.conn.ret_buf_offset ≡ 0
  pub nothing_left : w.conn.ret_bytes ≡ 0

length-spliced :
    (buf : Bytes) (at_ : ℕ) (src : Bytes)
    → at_ + length src ≤ length buf
    → length (spliced buf at_ src) ≡ length buf
length-spliced buf at_ src room =
    let behind = drop (at_ + length src) buf in
    omega (
      arith,
      length-append (take at_ buf) (src ++ behind),
      length-append src behind,
      length-take at_ buf,
      length-drop (at_ + length src) buf,
    )

-- A peer that is ready for all of the bytes is sent all of them.
write_all :
    (k : Socket) (bs : Bytes) (a : WriteAnswer) (more : List WriteAnswer)
    → k.writes ≡ a ∷ more
    → length bs ≤ a.count
    → write k bs ≡ record {
      ret = length bs;
      again = a.again;
      socket = record k { writes = more; sent = k.sent ++ bs };
    }
unfolding write answer_write
write_all k bs a more e fits =
    let n : min a.count (length bs) ≡ length bs = omega arith in
    rw (e, answer_write, n, take_of_length_le (length bs) bs (omega arith))

-- The reply to a GET fits its header, since the SET's body did.
reply_fits :
    (n : ℕ) (key value : Bytes)
    → IsSettable n key value
    → IsHeader (reply_header key (length key + length value))
reply_fits n key value ok = record {
  magic_fits = omega arith;
  opcode_fits = omega arith;
  keylen_fits = ok.fits.keylen_fits;
  batchnum_fits = omega arith;
  prehash_fits = omega arith;
  reserved_fits = omega arith;
  totalbodylen_fits = ok.fits.totalbodylen_fits;
}

module _ (h : HashTable) where
  open h use {Table, insert_or_assign, find, find-insert_or_assign}

  abbrev pub set_world : ℕ → Bytes → Bytes → World Table → World Table
  set_world n key value w =
      let w' = stored h (with_conn w (set_read n key value w.conn)) in
      with_conn w' (reset_cmd_handler w'.conn)

  -- Four rounds serve a SET.
  pub serve_set :
      (fuel i n : ℕ) (key value rest : Bytes) (w : World Table)
      → IsReady w
      → IsSettable n key value
      → window w.conn ≡ set_request n key value ++ rest
      → header_size + (length key + length value) ≤ w.conn.remaining_bytes
      → i + 1 < round_num
      → process_loop h (suc (suc (suc (suc fuel)))) i w
        ≡ process_loop h fuel (i + 1) (set_world n key value w)
  serve_set fuel i n key value rest w ready ok bytes enough early =
      let w1 = with_conn w (at_body (set_header n key value) w.conn) in
      let w2 = with_conn w (set_read n key value w.conn) in
      let w3 = stored h w2 in
      loop_again h (suc (suc (suc fuel))) i i w w1 (
        step_head h i w w1.conn _ ready.dealing ready.parsing (omega arith) bytes (
          try_read_head_binary-set n key value w.conn rest ok bytes (omega arith)
            (inl ready.plain)))
      ∙ loop_again h (suc (suc fuel)) i i w1 w2 (
          step_key_value h i w1 w2.conn ready.dealing refl
            (try_read_key_value-set n key value w.conn rest bytes enough))
      ∙ loop_again h (suc fuel) i i w2 w3 (step_store h i w2 ready.dealing refl)
      ∙ loop_again h fuel i (i + 1) w3 (set_world n key value w) (step_new_cmd h i w3 refl early)

  -- The connection when the table has answered with `value`, and its reply is in the buffer.
  abbrev answered : ℕ → Bytes → Bytes → Connection → Connection
  answered n key value c = record (get_read n key c) {
    query_hit = true;
    value = value;
    ret_buf = spliced c.ret_buf c.ret_buf_offset (hit_reply key value);
    ret_bytes = c.ret_bytes + (header_size + length key + length value);
    work_state = write_bcak;
  }

  answer_hit :
      (n : ℕ) (key value : Bytes) (w : World Table)
      → IsReady w
      → IsHeader (reply_header key (length key + length value))
      → header_size + (length key + length value) ≤ length w.conn.ret_buf
      → find key w.table ≡ some value
      → con_ret_buf (found h (get_read n key w.conn) (find key w.table))
        ≡ some (answered n key value w.conn)
  unfolding found
  answer_hit n key value w ready fits room hit = rw hit (
      con_ret_buf-hit (record (get_read n key w.conn) { query_hit = true; value = value })
        ready.plain refl fits (rw ready.nothing_at (omega arith)))

  -- The buffer that is handed to `write` is the reply.
  handed_over :
      (buf src : Bytes) (at_ n : ℕ)
      → at_ ≡ 0
      → n ≡ length src
      → take n (drop at_ (spliced buf at_ src)) ≡ src
  handed_over buf src at_ n e l = rw (e, l) (take-length_append src _)

  -- Five rounds serve a GET whose key is stored, when the peer takes the whole reply.
  pub serve_get :
      (fuel i n : ℕ) (key value rest : Bytes) (w : World Table) (a : WriteAnswer)
      (more : List WriteAnswer)
      → IsReady w
      → IsGettable n key
      → window w.conn ≡ get_request n key ++ rest
      → header_size + length key ≤ w.conn.remaining_bytes
      → find key w.table ≡ some value
      → IsHeader (reply_header key (length key + length value))
      → header_size + (length key + length value) ≤ length w.conn.ret_buf
      → w.socket.writes ≡ a ∷ more
      → header_size + (length key + length value) ≤ a.count
      → i + 1 < round_num
      → (w' : World Table) × (process_loop h (suc (suc (suc (suc (suc fuel))))) i w
          ≡ process_loop h fuel (i + 1) w')
        × (w'.socket.sent ≡ w.socket.sent ++ hit_reply key value)
        × (w'.socket.writes ≡ more)
        × (w'.table ≡ w.table)
        × (window w'.conn ≡ rest)
        × (w'.conn.remaining_bytes ≡ w.conn.remaining_bytes - header_size - length key)
        × (w'.conn.work_state ≡ parse_head)
  serve_get fuel i n key value rest w a more ready ok bytes enough hit fits room takes all_of_it
        early =
      let w1 = with_conn w (at_body (get_header n key) w.conn) in
      let w2 = with_conn w (get_read n key w.conn) in
      let w3 = with_conn w (answered n key value w.conn) in
      let reply = hit_reply key value in
      let n3 : w3.conn.ret_bytes ≡ length reply =
        omega (arith, length-append key value, ready.nothing_left) in
      let bs = take w3.conn.ret_bytes (drop w3.conn.ret_buf_offset w3.conn.ret_buf) in
      let handed : bs ≡ reply =
        handed_over w.conn.ret_buf reply w.conn.ret_buf_offset _ ready.nothing_at n3 in
      let inside : w3.conn.ret_buf_offset + w3.conn.ret_bytes ≤ length w3.conn.ret_buf = omega (
        arith,
        length-append key value,
        length-spliced w.conn.ret_buf w.conn.ret_buf_offset reply,
        ready.nothing_at,
        ready.nothing_left,
      ) in
      let o = write w.socket bs in
      let wrote : o ≡ record {
        ret = length reply;
        again = a.again;
        socket = record w.socket { writes = more; sent = w.socket.sent ++ reply };
      } =
        ap (write w.socket) handed
        ∙ write_all w.socket reply a more takes (omega (arith, length-append key value)) in
      let w4 = replied h w3 o.socket in
      let w5 = with_conn w4 (reset_cmd_handler w4.conn) in
      (
        w5,
        loop_again h (suc (suc (suc (suc fuel)))) i i w w1 (
              step_head h i w w1.conn _ ready.dealing ready.parsing (omega arith) bytes (
                try_read_head_binary-get n key w.conn rest ok bytes (omega arith)
                  (inl ready.plain)))
            ∙ loop_again h (suc (suc (suc fuel))) i i w1 w2 (
                step_key_value h i w1 w2.conn ready.dealing refl
                  (try_read_key_value-get n key w.conn rest bytes enough))
            ∙ loop_again h (suc (suc fuel)) i i w2 w3 (
                step_query h i w2 w3.conn ready.dealing refl
                  (answer_hit n key value w ready fits room hit))
            ∙ loop_again h (suc fuel) i i w3 w4 (
                step_write h i w3 ready.dealing refl ready.plain inside (omega arith)
                  (ap (λ (x : Written). x.ret) wrote ∙ sym n3))
            ∙ loop_again h fuel i (i + 1) w4 w5 (step_new_cmd h i w4 refl early),
        ap (λ (x : Written). x.socket.sent) wrote,
        ap (λ (x : Written). x.socket.writes) wrote,
        refl,
        (unfold reset_cmd_handler in window-get_read n key w.conn rest bytes),
        (unfold reset_cmd_handler in refl),
        (unfold reset_cmd_handler in refl),
      )

  set_world-IsReady :
      (n : ℕ) (key value : Bytes) (w : World Table)
      → IsReady w
      → header_size + (length key + length value) < w.conn.remaining_bytes
      → IsReady (set_world n key value w)
  unfolding reset_cmd_handler
  set_world-IsReady n key value w ready more_left = record {
    dealing = rw (
        lt→ltb 0 (w.conn.remaining_bytes - header_size - (length key + length value))
          (omega arith));
    parsing = refl;
    plain = ready.plain;
    nothing_at = ready.nothing_at;
    nothing_left = ready.nothing_left;
  }

  find-set_world :
      (n : ℕ) (key value : Bytes) (w : World Table)
      → find key (set_world n key value w).table ≡ some value
  find-set_world n key value w =
      rw (find-insert_or_assign key key value w.table, (bytes_eq_iff key key).1 refl)

  -- A SET and the GET of its key behind it, in one buffer: nine rounds send the value that was set, and
  -- store it under its key alone.
  pub set_then_get :
      (fuel i n m : ℕ) (key value rest : Bytes) (w : World Table) (a : WriteAnswer)
      (more : List WriteAnswer)
      → IsReady w
      → IsSettable n key value
      → IsGettable m key
      → window w.conn ≡ set_request n key value ++ (get_request m key ++ rest)
      → header_size + (length key + length value) + (header_size + length key)
        ≤ w.conn.remaining_bytes
      → header_size + (length key + length value) ≤ length w.conn.ret_buf
      → w.socket.writes ≡ a ∷ more
      → header_size + (length key + length value) ≤ a.count
      → i + 2 < round_num
      → (w' : World Table) × (process_loop h
            (suc (suc (suc (suc (suc (suc (suc (suc (suc fuel)))))))))
            i
            w
          ≡ process_loop h fuel (i + 2) w')
        × (w'.socket.sent ≡ w.socket.sent ++ hit_reply key value)
        × ((j : Bytes) → find j w'.table ≡ (if bytes_eq key j then some value else find j w.table))
        × (window w'.conn ≡ rest)
        × (w'.conn.remaining_bytes
              + (header_size + (length key + length value) + (header_size + length key))
            ≡ w.conn.remaining_bytes)
  set_then_get fuel i n m key value rest w a more ready set_ok get_ok bytes enough room takes
        all_of_it early =
      let sw = set_world n key value w in
      let behind : window sw.conn ≡ get_request m key ++ rest =
        (unfold reset_cmd_handler in
          window-set_read n key value w.conn (get_request m key ++ rest) bytes) in
      let left : sw.conn.remaining_bytes
          ≡ w.conn.remaining_bytes - header_size - (length key + length value) =
        (unfold reset_cmd_handler in refl) in
      let g =
        serve_get fuel (i + 1) m key value rest sw a more
          (set_world-IsReady n key value w ready (omega arith)) get_ok behind (omega arith)
          (find-set_world n key value w) (reply_fits n key value set_ok)
          (unfold reset_cmd_handler in room) takes all_of_it (omega arith) in
      (
        g.0,
        serve_set (suc (suc (suc (suc (suc fuel))))) i n key value (get_request m key ++ rest) w
              ready set_ok bytes (omega arith) (omega arith)
            ∙ g.1
            ∙ ap (λ (j : ℕ). process_loop h fuel j g.0)
                (let e : i + 1 + 1 ≡ i + 2 = omega arith in e),
        g.2,
        (λ j. ap (find j) g.4 ∙ find-insert_or_assign key j value w.table),
        g.5,
        omega (arith, g.6),
      )
