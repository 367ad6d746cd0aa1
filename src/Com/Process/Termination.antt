-- ===== src/Com/Process/Termination.antt =====
-- When `process_func` of src/com/socket_server.cpp leaves its loop.
use testbed.Prelude.{ℕ, zero, suc, ◌+◌, ◌<◌, ◌≡◌, ◌⊎◌, inl, inr, refl, subst, sym, arith}
use testbed.Com.Conn.{
  ConnStates, WorkStates, conn_deal_with, conn_new_cmd, conn_waiting, conn_read, conn_closing,
  parse_head, read_key_value, store_kvobj, query_key, write_bcak,
}
use testbed.Com.Reply.{send_batch, count_batch_bytes}
use testbed.Com.Table.{HashTable}
use testbed.Com.Process.{
  World, Round, again, stops, ends, Outcome, returns, stopped_by, out_of_fuel, process_step,
  process_case, process_loop, deal_with, on_read_key_value, on_store_kvobj, on_query_key, found,
  on_write_bcak, lift_batch, waiting_next,
}
use testbed.Com.Process.Measure.{
  IsHandled, IsHandledConn, work_rank, measure_at, measure, IsStuck, Falls, parse-Falls,
  write-Falls, new_cmd-Falls, read-Falls, value_cases, reply_cases, key_value_falls, reply_falls,
}

module _ (h : HashTable) where
  open h use {Table, find}

  deal-Falls :
      (t : WorkStates) (i : ℕ) (w : World Table)
      → w.conn.conn_state ≡ conn_deal_with
      → w.conn.work_state ≡ t
      → Falls (w.conn.remaining_bytes + work_rank t) (deal_with h t i w) ⊎ IsStuck w.conn
  unfolding deal_with
  deal-Falls parse_head i w s t = inl (parse-Falls i w s t)
  deal-Falls read_key_value i w s t =
      inl (unfold on_read_key_value in value_cases i w _ s (key_value_falls w.conn))
  deal-Falls store_kvobj i w s t = inl (unfold on_store_kvobj in (refl, omega arith))
  deal-Falls query_key i w s t = inl (
      unfold on_query_key found in
      reply_cases i w _
        (λ c e. ground (arith, reply_falls (found h w.conn (find w.conn.key w.table)) c)))
  deal-Falls write_bcak i w s t = write-Falls i w s t

  waiting-IsHandled : (t t' : WorkStates) → IsHandled (waiting_next t) t'
  unfolding waiting_next
  waiting-IsHandled parse_head t' = tt
  waiting-IsHandled read_key_value t' = tt
  waiting-IsHandled store_kvobj t' = tt
  waiting-IsHandled query_key t' = tt
  waiting-IsHandled write_bcak t' = tt

  case-Falls :
      (s : ConnStates) (i : ℕ) (w : World Table)
      → w.conn.conn_state ≡ s
      → IsHandled s w.conn.work_state
      → Falls (measure_at s w.conn.work_state w.conn.remaining_bytes) (process_case h s i w)
        ⊎ IsStuck w.conn
  unfolding process_case
  case-Falls conn_read i w es ok = inl (read-Falls i w)
  case-Falls conn_waiting i w es ok = inl (waiting-IsHandled w.conn.work_state w.conn.work_state)
  case-Falls conn_closing i w es ok = inl (subst (λ s. IsHandled s w.conn.work_state) (sym es) tt)
  case-Falls conn_deal_with i w es ok = deal-Falls w.conn.work_state i w es refl
  case-Falls conn_new_cmd i w es ok = inl (new_cmd-Falls i w es ok)
  case-Falls _ i w es ok = elim ok [ ]

  step-Falls :
      (i : ℕ) (w : World Table)
      → IsHandledConn w.conn
      → Falls (measure w.conn) (process_step h i w) ⊎ IsStuck w.conn
  unfolding process_step
  step-Falls i w ok = case-Falls w.conn.conn_state i w refl ok

  -- The loop has returned, in a state from which the next event is handled; or the process has ended; or
  -- the loop stands at a batch whose replies have passed its size.
  abbrev pub IsDone : Outcome h → Type 0
  IsDone (returns w) = IsHandledConn w.conn
  IsDone (stopped_by e) = Unit
  IsDone (out_of_fuel i w) = IsStuck w.conn

  -- A stuck connection stays so in every round: the loop never ends.
  IsStuck-step :
      (i : ℕ) (w : World Table)
      → IsStuck w.conn
      → (w' : World Table) × (process_step h i w ≡ again i w') × IsStuck w'.conn
  unfolding process_step process_case deal_with on_write_bcak lift_batch send_batch
      count_batch_bytes
  IsStuck-step i w z = (record w { conn = count_batch_bytes w.conn }, ground arith, ground arith)

  -- From a batch in which more replies are counted than were announced, the loop is out of fuel
  -- whatever fuel it has, and the connection is still in such a batch.
  pub IsStuck-forever :
      (fuel i : ℕ) (w : World Table)
      → IsStuck w.conn
      → (i' : ℕ) × (w' : World Table) × (process_loop h fuel i w ≡ out_of_fuel i' w')
        × IsStuck w'.conn
  unfolding process_loop
  IsStuck-forever zero i w z = (i, w, refl, z)
  IsStuck-forever (suc fuel) i w z =
      let (w', e, z') = IsStuck-step i w z in rw (e, process_loop) (IsStuck-forever fuel i w' z')

  IsDone-cases :
      (fuel i m : ℕ) (w : World Table) (r : Round Table)
      → process_step h i w ≡ r
      → Falls m r
      → m < suc fuel
      → ((i' : ℕ) (w' : World Table)
          → IsHandledConn w'.conn
          → measure w'.conn < fuel
          → IsDone (process_loop h fuel i' w'))
      → IsDone (process_loop h (suc fuel) i w)
  unfolding process_loop
  IsDone-cases fuel i m w (again i' w') e f enough rest =
      rw (e, process_loop) (rest i' w' f.0 (omega (arith, f.1)))
  IsDone-cases fuel i m w (stops w') e f enough rest = rw (e, process_loop) f
  IsDone-cases fuel i m w (ends x) e f enough rest = rw (e, process_loop) tt

  -- From a connection in a state that process_func handles, with fuel above the measure, the loop ends:
  -- it stops, or is out of fuel only in a stuck batch.
  pub process_loop-IsDone :
      (fuel i : ℕ) (w : World Table)
      → IsHandledConn w.conn
      → measure w.conn < fuel
      → IsDone (process_loop h fuel i w)
  process_loop-IsDone zero i w ok enough = absurd (omega arith)
  process_loop-IsDone (suc fuel) i w ok enough = elim (step-Falls i w ok) [
    | inl f ↦
        IsDone-cases fuel i (measure w.conn) w (process_step h i w) refl f enough
          (process_loop-IsDone fuel)
    | inr z ↦ let (i', w', e, z') = IsStuck-forever (suc fuel) i w z in rw e z'
  ]
