-- ===== src/Com/Accept/Wakes.antt =====
-- That the threads of src/com/socket_server.cpp drain their queues of new connections.
use testbed.Prelude.{
  ℕ, zero, suc, ◌≡◌, refl, sym, ap, subst, ◌∙◌, Bool, true, false, none, List, [], ◌∷◌, ◌++◌,
  append-nil, length, if◌then◌else◌, ◌==◌, arith,
}
use testbed.Com.Accept.{
  ConnItem, ThreadInfo, notify_byte, pop_item, thread_libevent_process, System, wake, Reached,
}
use testbed.Com.Accept.Delivery.{
  pending, sockets_of, IsDelivered, IsSound, with_pending, wake-IsSound, Reached-IsSound,
}

-- A thread that is woken `n` times.
unfoldable pub wakes : ℕ → ℕ → System → System
wakes zero t s = s
wakes (suc n) t s = wakes n t (wake t s)

process-notify_pipe :
    (pipe : List ℕ) (queue : List ConnItem) (n : ℕ)
    → length pipe ≡ suc n
    → length
        (thread_libevent_process
          (record { notify_pipe = pipe; conn_queue_list = queue })).1.notify_pipe
      ≡ n
unfolding thread_libevent_process pop_item
process-notify_pipe [] queue n e = absurd (omega arith)
process-notify_pipe (b ∷ bs) queue n e = go (b == notify_byte) queue
  where
    go :
        (c : Bool) (q : List ConnItem)
        → length
            (if c
              then pop_item (record { notify_pipe = bs; conn_queue_list = q })
              else ([], record { notify_pipe = bs; conn_queue_list = q })).1.notify_pipe
          ≡ n
    go true [] = omega arith
    go true (citem ∷ rest) = omega arith
    go false q = omega arith

wake-notify_pipe :
    (t n : ℕ) (s : System)
    → length (s.threads t).notify_pipe ≡ suc n
    → length ((wake t s).threads t).notify_pipe ≡ n
unfolding wake
wake-notify_pipe t n s e =
    let yes : (t == t) ≡ true = ground arith in
    rw yes (process-notify_pipe (s.threads t).notify_pipe (s.threads t).conn_queue_list n e)

-- What a wake-up leaves as it is.
wake_keeps :
    (t : ℕ) (s : System)
    → ((wake t s).notifying ≡ s.notifying)
      × ((wake t s).unnotified ≡ s.unnotified)
      × ((wake t s).dispatched ≡ s.dispatched)
unfolding wake
wake_keeps t s = (refl, refl, refl)

drained :
    (me : ThreadInfo) (d v : List ℕ) → IsDelivered me 0 d v 0 → length me.notify_pipe ≡ 0 → v ≡ d
unfolding sockets_of
drained me d v h e = go me.conn_queue_list (omega (arith, h.counted)) h.in_order
  where
    go : (q : List ConnItem) → length q ≡ 0 → v ++ sockets_of q ≡ d → v ≡ d
    go [] z o = sym (append-nil v) ∙ o
    go (citem ∷ rest) z o = absurd (omega arith)

wakes-drained :
    (n t : ℕ) (s : System)
    → IsSound s
    → s.notifying ≡ none
    → s.unnotified t ≡ 0
    → length (s.threads t).notify_pipe ≡ n
    → (wakes n t s).served t ≡ s.dispatched t
unfolding wakes pending
wakes-drained zero t s sound idle all_written e =
    drained (s.threads t) (s.dispatched t) (s.served t)
      (subst (IsDelivered (s.threads t) 0 (s.dispatched t) (s.served t)) all_written
        (with_pending t s none idle sound))
      e
wakes-drained (suc n) t s sound idle all_written e =
    let (keeps_idle, keeps_written, keeps_dispatched) = wake_keeps t s in
    wakes-drained n t (wake t s) (wake-IsSound t s sound) (keeps_idle ∙ idle)
      (ap (λ (f : ℕ → ℕ). f t) keeps_written ∙ all_written) (wake-notify_pipe t n s e)
    ∙ ap (λ (f : ℕ → List ℕ). f t) keeps_dispatched

-- A thread that is woken once for each byte in its pipe has called conn_new with every socket dispatched to
-- it, once each and in order. The state is one that can be reached, no write to the thread's pipe failed, and
-- the listening thread has written after its last push.
pub wakes-served :
    (t : ℕ) (s : System)
    → Reached s
    → s.notifying ≡ none
    → s.unnotified t ≡ 0
    → (wakes (length (s.threads t).notify_pipe) t s).served t ≡ s.dispatched t
wakes-served t s r idle all_written =
    wakes-drained (length (s.threads t).notify_pipe) t s (Reached-IsSound s r) idle all_written refl
