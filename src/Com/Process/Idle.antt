-- ===== src/Com/Process/Idle.antt =====
-- `process_func` and `event_handler` of src/com/socket_server.cpp from a connection as `conn_new` makes it.
use testbed.Prelude.{
  ℕ, zero, suc, ◌≤◌, ◌<◌, some, ◌≡◌, ◌⊎◌, ◌≢◌, inl, inr, refl, ◌∙◌, true, false, List, [], ◌∷◌,
  arith, if◌then◌else◌, Bytes, take, ==_iff, Bool-cases,
}
use testbed.Com.Conn.{
  max_conn, Connection, ConnStates, Socket, ReadAnswer, got, read_again, read_failed, TryReadResult,
  read_data_received, read_no_data_received, read_error, read_memory_error, conn_waiting, conn_read,
  conn_closing, parse_head,
}
use testbed.Com.Network.{
  try_read_network, read_answered, received, move_to_front, conn_new, new_conn,
}
use testbed.Com.Table.{HashTable}
use testbed.Com.Process.Rounds.{loop_again}
use testbed.Com.Process.{
  World, stops, Outcome, returns, stopped_by, out_of_fuel, process_step, process_case, process_loop,
  process_func, event_handler, after_read, count_read, waiting_next,
}

-- Where a connection stands between two events.
abbrev pub IsResting : ConnStates → Type 0
IsResting s = (s ≡ conn_read) ⊎ (s ≡ conn_closing)

-- No command has been parsed, stored, looked up or answered since `c`.
pub record IsUntouched (c c' : Connection) : Type 0 where
  pub parsing : c'.work_state ≡ parse_head
  pub same_key : c'.key ≡ c.key
  pub same_value : c'.value ≡ c.value
  pub same_reply : c'.ret_buf ≡ c.ret_buf
  pub no_reply : c'.ret_bytes ≡ c.ret_bytes

-- A read that returns changes the read buffer and its bounds alone.
read-IsUntouched :
    (c : Connection) (k : Socket) (answers : List ReadAnswer)
    → c.work_state ≡ parse_head
    → IsUntouched c (read_answered c k answers).1
unfolding read_answered received
read-IsUntouched c k [] t = ground arith
read-IsUntouched c k (got bs ∷ rest) t = fresh (take c.read_buf_size bs)
  where
    fresh : (new : Bytes) → IsUntouched c (received c new).1
    fresh [] = ground arith
    fresh (b ∷ bs) = ground arith
read-IsUntouched c k (read_again ∷ rest) t = ground arith
read-IsUntouched c k (read_failed ∷ rest) t = ground arith

moved-IsUntouched : (c : Connection) → c.work_state ≡ parse_head → IsUntouched c (move_to_front c)
unfolding move_to_front
moved-IsUntouched c t = ground arith

IsUntouched-refl : (c : Connection) → c.work_state ≡ parse_head → IsUntouched c c
IsUntouched-refl c t = record {
  parsing = t;
  same_key = refl;
  same_value = refl;
  same_reply = refl;
  no_reply = refl;
}

IsUntouched-trans : {a b c : Connection} → IsUntouched a b → IsUntouched b c → IsUntouched a c
IsUntouched-trans u v = record {
  parsing = v.parsing;
  same_key = v.same_key ∙ u.same_key;
  same_value = v.same_value ∙ u.same_value;
  same_reply = v.same_reply ∙ u.same_reply;
  no_reply = v.no_reply ∙ u.no_reply;
}

network-IsUntouched :
    (c : Connection) (k : Socket)
    → c.work_state ≡ parse_head
    → IsUntouched c (try_read_network c k).1
unfolding try_read_network
network-IsUntouched c k t =
    let u = moved-IsUntouched c t in
    let emptied : Connection = record (move_to_front c) { remaining_bytes = 0 } in
    let v : IsUntouched (move_to_front c) emptied = ground arith in
    IsUntouched-trans (IsUntouched-trans u v) (read-IsUntouched emptied k k.reads u.parsing)

module _ (h : HashTable) where
  open h use {Table}

  -- An event has returned, and the connection rests with nothing done.
  pub record IsIdleEvent (w w' : World Table) : Type 0 where
    pub untouched : IsUntouched w.conn w'.conn
    pub resting : IsResting w'.conn.conn_state
    pub same_table : w'.table ≡ w.table

  abbrev pub IdleOutcome : World Table → Outcome h → Type 0
  IdleOutcome w (returns w') = IsIdleEvent w w'
  IdleOutcome w (stopped_by e) = ⊥
  IdleOutcome w (out_of_fuel i w') = ⊥

  waiting_idle :
      (fuel i : ℕ) (w w' : World Table)
      → w'.conn.conn_state ≡ conn_waiting
      → IsUntouched w.conn w'.conn
      → w'.table ≡ w.table
      → IdleOutcome w (process_loop h (suc fuel) i w')
  unfolding process_loop
  waiting_idle fuel i w w' s u t =
      let next = record w' { conn = record w'.conn { conn_state = conn_read } } in
      let e : process_step h i w' ≡ stops next =
        (unfold process_step process_case waiting_next in ground (arith, u.parsing)) in
      rw (e, process_loop)
        (record {
          untouched = record {
            parsing = u.parsing;
            same_key = u.same_key;
            same_value = u.same_value;
            same_reply = u.same_reply;
            no_reply = u.no_reply;
          };
          resting = inl refl;
          same_table = t;
        })

  closing_idle :
      (fuel i : ℕ) (w w' : World Table)
      → w'.conn.conn_state ≡ conn_closing
      → IsUntouched w.conn w'.conn
      → w'.table ≡ w.table
      → IdleOutcome w (process_loop h (suc fuel) i w')
  unfolding process_loop
  closing_idle fuel i w w' s u t =
      let e : process_step h i w' ≡ stops (record w' { is_open = false }) =
        (unfold process_step process_case in ground arith) in
      rw (e, process_loop) (record { untouched = u; resting = inr s; same_table = t })

  read_idle :
      (fuel i : ℕ) (w : World Table) (r : TryReadResult × Connection × Socket)
      → process_step h i w ≡ after_read i w r
      → r.0 ≢ read_memory_error
      → IsUntouched w.conn r.1
      → IdleOutcome w (process_loop h (suc (suc fuel)) i w)
  unfolding after_read
  read_idle fuel i w (read_data_received, c, k) e n u = rw (loop_again h (suc fuel) i i w _ e) (
      waiting_idle fuel i w _ (unfold count_read in refl)
        (unfold count_read in
          record {
            parsing = u.parsing;
            same_key = u.same_key;
            same_value = u.same_value;
            same_reply = u.same_reply;
            no_reply = u.no_reply;
          })
        refl)
  read_idle fuel i w (read_no_data_received, c, k) e n u = rw (loop_again h (suc fuel) i i w _ e) (
      waiting_idle fuel i w _ refl
        (record {
          parsing = u.parsing;
          same_key = u.same_key;
          same_value = u.same_value;
          same_reply = u.same_reply;
          no_reply = u.no_reply;
        })
        refl)
  read_idle fuel i w (read_error, c, k) e n u = rw (loop_again h (suc fuel) i i w _ e) (
      closing_idle fuel i w _ refl
        (record {
          parsing = u.parsing;
          same_key = u.same_key;
          same_value = u.same_value;
          same_reply = u.same_reply;
          no_reply = u.no_reply;
        })
        refl)
  read_idle fuel i w (read_memory_error, c, k) e n u = absurd (n refl)

  -- `read` never answers that memory has run out.
  no_memory_error : (c : Connection) (k : Socket) → (try_read_network c k).0 ≢ read_memory_error
  unfolding try_read_network
  no_memory_error c k = answers (record (move_to_front c) { remaining_bytes = 0 }) k.reads
    where
      fresh : (c' : Connection) (bs : Bytes) → (received c' bs).0 ≢ read_memory_error
      fresh c' [] = unfold received in λ e. cc
      fresh c' (b ∷ bs) = unfold received in λ e. cc

      answers :
          (c' : Connection) (rs : List ReadAnswer) → (read_answered c' k rs).0 ≢ read_memory_error
      answers c' [] = unfold read_answered in λ e. cc
      answers c' (got bs ∷ rest) = unfold read_answered in fresh c' (take c'.read_buf_size bs)
      answers c' (read_again ∷ rest) = unfold read_answered in λ e. cc
      answers c' (read_failed ∷ rest) = unfold read_answered in λ e. cc

  idle_process :
      (fuel : ℕ) (w : World Table)
      → w.conn.work_state ≡ parse_head
      → IsResting w.conn.conn_state
      → 2 ≤ fuel
      → IdleOutcome w (process_func h fuel w)
  unfolding process_func
  idle_process zero w t r f = absurd (omega arith)
  idle_process (suc zero) w t r f = absurd (omega arith)
  idle_process (suc (suc fuel)) w t (inl s) f =
      read_idle fuel 0 w (try_read_network w.conn w.socket)
        (unfold process_step process_case in ground arith) (no_memory_error w.conn w.socket)
        (network-IsUntouched w.conn w.socket t)
  idle_process (suc (suc fuel)) w t (inr s) f =
      closing_idle (suc fuel) 0 w w s (IsUntouched-refl w.conn t) refl

  -- Events on the connection, one after the other, until it has been closed or the process has ended.
  pub events : ℕ → ℕ → World Table → Outcome h
  events zero fuel w = returns w
  events (suc n) fuel w = elim (event_handler h fuel w.conn.sfd w) [
    | returns w' ↦ if w'.is_open then events n fuel w' else returns w'
    | stopped_by e ↦ stopped_by e
    | out_of_fuel i w' ↦ out_of_fuel i w'
  ]

  event_handler_own :
      (fuel : ℕ) (w : World Table) → event_handler h fuel w.conn.sfd w ≡ process_func h fuel w
  unfolding event_handler
  event_handler_own fuel w = rw ((==_iff w.conn.sfd w.conn.sfd).1 refl)

  idle_trans :
      (w w' : World Table) (o : Outcome h) → IsIdleEvent w w' → IdleOutcome w' o → IdleOutcome w o
  idle_trans w w' (returns x) u v = record {
    untouched = IsUntouched-trans u.untouched v.untouched;
    resting = v.resting;
    same_table = v.same_table ∙ u.same_table;
  }
  idle_trans w w' (stopped_by e) u v = v
  idle_trans w w' (out_of_fuel i x) u v = v

  idle_events :
      (n fuel : ℕ) (w : World Table)
      → w.conn.work_state ≡ parse_head
      → IsResting w.conn.conn_state
      → 2 ≤ fuel
      → IdleOutcome w (events n fuel w)
  unfolding events
  idle_events zero fuel w t r f = record {
    untouched = IsUntouched-refl w.conn t;
    resting = r;
    same_table = refl;
  }
  idle_events (suc n) fuel w t r f =
      rw (event_handler_own fuel w, events)
        (cases (process_func h fuel w) (idle_process fuel w t r f)
          (λ w' t' r'. idle_events n fuel w' t' r' f))
    where
      cases :
          (o : Outcome h)
          → IdleOutcome w o
          → ((w' : World Table)
              → w'.conn.work_state ≡ parse_head
              → IsResting w'.conn.conn_state
              → IdleOutcome w' (events n fuel w'))
          → IdleOutcome w (elim o [
            | returns w' ↦ if w'.is_open then events n fuel w' else returns w'
            | stopped_by e ↦ stopped_by e
            | out_of_fuel i w' ↦ out_of_fuel i w'
          ])
      cases (returns w') u rest = elim (Bool-cases w'.is_open) [
        | inl b ↦
            simp b (idle_trans w w' (events n fuel w') u (rest w' u.untouched.parsing u.resting))
        | inr b ↦ simp b u
      ]
      cases (stopped_by e) u rest = u
      cases (out_of_fuel i w') u rest = u

  -- The world of a connection that has just been accepted.
  abbrev pub accepted : Connection → Socket → Table → Bytes → World Table
  accepted c k t dummy = record { conn = c; socket = k; table = t; is_open = true; dummy = dummy }

  -- From `conn_new` on, which makes a connection of every descriptor below MAX_CONN, whatever the peer sends
  -- and however many events come, every event returns within two rounds, and no request is parsed, stored or
  -- answered.
  pub conn_new_idle :
      (n fuel sfd thread_index : ℕ) (blank : Connection) (k : Socket) (t : Table) (dummy : Bytes)
      → sfd < max_conn
      → 2 ≤ fuel
      → (c : Connection) × (conn_new sfd thread_index blank ≡ some c)
        × IdleOutcome (accepted c k t dummy) (events n fuel (accepted c k t dummy))
  unfolding conn_new new_conn
  conn_new_idle n fuel sfd thread_index blank k t dummy small f =
      let c = new_conn sfd thread_index blank in
      (c, ground (arith, small), idle_events n fuel (accepted c k t dummy) refl (inl refl) f)
