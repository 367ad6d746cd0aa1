-- ===== src/Com/Accept/Delivery.antt =====
-- That every connection of src/com/socket_server.cpp is handed to conn_new once and in order.
use testbed.Prelude.{
  ℕ, suc, ◌+◌, ◌≡◌, refl, sym, ap, subst, ◌∙◌, Bool, true, false, Option, some, none, List, [], ◌∷◌,
  ◌++◌, append-nil, append_assoc, length, length-append, if◌then◌else◌, ◌==◌, arith, Bool-cases,
  inl, inr, ltb,
}
use testbed.Com.Accept.{
  ConnQueueItemModes, queue_new_conn, queue_redispatch, ConnItem, ThreadInfo, notify_byte,
  AcceptAnswer, accepted, accept_again, too_many_files, accept_failed, Dispatch, pushed, returned,
  process_exit, take_connection, push_item, notify, new_socket, pop_item, thread_libevent_process,
  System, started, push_to, notify_to, wake, Step, by_push, by_notify, by_wake, Reached, at_start,
  after_step,
}

-- Whether conn_dispatch has pushed to a thread and not yet written to its pipe.
unfoldable pub pending : ℕ → Option ℕ → ℕ
pending t none = 0
pending t (some n) = if n == t then 1 else 0

-- The sockets of a queue, of which all are new connections.
unfoldable pub sockets_of : List ConnItem → List ℕ
sockets_of [] = []
sockets_of (citem ∷ rest) = citem.sfd ∷ sockets_of rest

unfoldable pub AreNew : List ConnItem → Type 0
AreNew [] = Unit
AreNew (citem ∷ rest) = (citem.mode ≡ queue_new_conn) × AreNew rest

unfoldable pub AreNotices : List ℕ → Type 0
AreNotices [] = Unit
AreNotices (b ∷ bs) = (b ≡ notify_byte) × AreNotices bs

-- Of a thread: what was served and what waits is what was dispatched, in order, and there is a byte in the
-- pipe, or one to be written, for every connection that waits, but for the writes that failed.
pub record IsDelivered (me : ThreadInfo) (waiting : ℕ) (dispatched served : List ℕ) (unnotified : ℕ)
    : Type 0 where
  pub in_order : served ++ sockets_of me.conn_queue_list ≡ dispatched
  pub are_new : AreNew me.conn_queue_list
  pub are_notices : AreNotices me.notify_pipe
  pub counted : length me.conn_queue_list ≡ length me.notify_pipe + waiting + unnotified

unfoldable pub IsSound : System → Type 0
IsSound s =
    (t : ℕ)
    → IsDelivered (s.threads t) (pending t s.notifying) (s.dispatched t) (s.served t)
        (s.unnotified t)

started-IsSound : IsSound started
unfolding IsSound sockets_of AreNew AreNotices pending
started-IsSound t = record {
  in_order = refl;
  are_new = tt;
  are_notices = tt;
  counted = omega arith;
}

AreNew-append :
    (items : List ConnItem) (citem : ConnItem)
    → AreNew items
    → citem.mode ≡ queue_new_conn
    → AreNew (items ++ (citem ∷ []))
unfolding AreNew
AreNew-append [] citem a e = (e, tt)
AreNew-append (i ∷ items) citem (e', a) e = (e', AreNew-append items citem a e)

AreNotices-append : (bs : List ℕ) → AreNotices bs → AreNotices (bs ++ (notify_byte ∷ []))
unfolding AreNotices
AreNotices-append [] a = (refl, tt)
AreNotices-append (b ∷ bs) (e, a) = (e, AreNotices-append bs a)

sockets_of-append :
    (items : List ConnItem) (citem : ConnItem)
    → sockets_of (items ++ (citem ∷ [])) ≡ sockets_of items ++ (citem.sfd ∷ [])
unfolding sockets_of
sockets_of-append [] citem = refl
sockets_of-append (i ∷ items) citem = ap (λ (q : List ℕ). i.sfd ∷ q) (sockets_of-append items citem)

take_connection-new :
    (answer : AcceptAnswer) (citem : ConnItem)
    → take_connection answer ≡ pushed citem
    → citem.mode ≡ queue_new_conn
unfolding take_connection
take_connection-new answer citem e = sym (ap mode_of e) ∙ new answer
  where
    mode_of : Dispatch → ConnQueueItemModes
    mode_of (pushed c) = c.mode
    mode_of returned = queue_new_conn
    mode_of process_exit = queue_new_conn

    new : (a : AcceptAnswer) → mode_of (take_connection a) ≡ queue_new_conn
    new (accepted fd true) = elim (Bool-cases (ltb 2 fd)) [ inl e ↦ rw e refl | inr e ↦ rw e refl ]
    new (accepted fd false) = refl
    new accept_again = refl
    new too_many_files = refl
    new accept_failed = refl

new_socket-new :
    (citem : ConnItem) → citem.mode ≡ queue_new_conn → new_socket citem ≡ citem.sfd ∷ []
unfolding new_socket
new_socket-new citem e =
    ap
      (λ (m : ConnQueueItemModes). elim m [
        | queue_new_conn ↦ citem.sfd ∷ []
        | queue_redispatch ↦ []
      ])
      e

-- Pushing, on the thread that is pushed to.
push_item-IsDelivered :
    (me : ThreadInfo) (d v : List ℕ) (u : ℕ) (citem : ConnItem)
    → IsDelivered me 0 d v u
    → citem.mode ≡ queue_new_conn
    → IsDelivered (push_item citem me) 1 (d ++ new_socket citem) v u
unfolding push_item
push_item-IsDelivered me d v u citem h new = record {
  in_order =
      ap (λ (q : List ℕ). v ++ q) (sockets_of-append me.conn_queue_list citem)
      ∙ sym (append_assoc v (sockets_of me.conn_queue_list) (citem.sfd ∷ []))
      ∙ ap (λ (q : List ℕ). q ++ (citem.sfd ∷ [])) h.in_order
      ∙ ap (λ (q : List ℕ). d ++ q) (sym (new_socket-new citem new));
  are_new = AreNew-append me.conn_queue_list citem h.are_new new;
  are_notices = h.are_notices;
  counted = omega (arith, h.counted, length-append me.conn_queue_list (citem ∷ []));
}

notify-IsDelivered :
    (me : ThreadInfo) (d v : List ℕ) (u : ℕ) (written : Bool)
    → IsDelivered me 1 d v u
    → IsDelivered (notify written me) 0 d v (if written then u else suc u)
unfolding notify
notify-IsDelivered me d v u true h = record {
  in_order = h.in_order;
  are_new = h.are_new;
  are_notices = AreNotices-append me.notify_pipe h.are_notices;
  counted = omega (arith, h.counted, length-append me.notify_pipe (notify_byte ∷ []));
}
notify-IsDelivered me d v u false h = record {
  in_order = h.in_order;
  are_new = h.are_new;
  are_notices = h.are_notices;
  counted = omega (arith, h.counted);
}

-- A wake-up, on the thread that wakes.
wake-IsDelivered :
    (pipe : List ℕ) (queue : List ConnItem) (w : ℕ) (d v : List ℕ) (u : ℕ)
    → (let me : ThreadInfo = record { notify_pipe = pipe; conn_queue_list = queue } in
        IsDelivered me w d v u
        → IsDelivered (thread_libevent_process me).1 w d (v ++ (thread_libevent_process me).0) u)
unfolding thread_libevent_process pop_item AreNew AreNotices sockets_of
wake-IsDelivered [] queue w d v u h = rw (append-nil v) h
wake-IsDelivered (b ∷ bs) [] w d v u h = absurd (omega (arith, h.counted))
wake-IsDelivered (b ∷ bs) (citem ∷ rest) w d v u h =
    let c : (b == notify_byte) ≡ true = ground (arith, h.are_notices.0) in
    let s : new_socket citem ≡ citem.sfd ∷ [] = new_socket-new citem h.are_new.0 in
    rw (c, s)
      (record {
        in_order = append_assoc v (citem.sfd ∷ []) (sockets_of rest) ∙ h.in_order;
        are_new = h.are_new.1;
        are_notices = h.are_notices.1;
        counted = omega (arith, h.counted);
      })

-- The thread as it is, when nothing is to be written, or something to another thread or to this one.
pub with_pending :
    (c : ℕ) (s : System) (n : Option ℕ)
    → s.notifying ≡ n
    → IsSound s
    → IsDelivered (s.threads c) (pending c n) (s.dispatched c) (s.served c) (s.unnotified c)
unfolding IsSound
with_pending c s n e sound =
    subst
      (λ (o : Option ℕ).
        IsDelivered (s.threads c) (pending c o) (s.dispatched c) (s.served c) (s.unnotified c))
      e (sound c)

push_to-IsSound :
    (t : ℕ) (citem : ConnItem) (s : System)
    → s.notifying ≡ none
    → citem.mode ≡ queue_new_conn
    → IsSound s
    → IsSound (push_to t citem s)
unfolding push_to IsSound pending
push_to-IsSound t citem s idle new sound c = elim (Bool-cases (c == t)) [
  | inl here ↦
      let same : c ≡ t = ground (arith, here) in
      let yes : (t == t) ≡ true = ground arith in
      rw (same, yes)
        (push_item-IsDelivered (s.threads t) (s.dispatched t) (s.served t) (s.unnotified t) citem
          (with_pending t s none idle sound) new)
  | inr other ↦
      let back : (t == c) ≡ false = ground (arith, other) in
      rw (other, back) (with_pending c s none idle sound)
]

notify_to-IsSound :
    (t : ℕ) (written : Bool) (s : System)
    → s.notifying ≡ some t
    → IsSound s
    → IsSound (notify_to t written s)
unfolding notify_to IsSound pending
notify_to-IsSound t written s busy sound c = elim (Bool-cases (c == t)) [
  | inl here ↦
      let same : c ≡ t = ground (arith, here) in
      let yes : (t == t) ≡ true = ground arith in
      let h : IsDelivered (s.threads t) 1 (s.dispatched t) (s.served t) (s.unnotified t) =
        subst
          (λ (k : ℕ). IsDelivered (s.threads t) k (s.dispatched t) (s.served t) (s.unnotified t))
          (ap (λ (b : Bool). if b then 1 else 0) yes) (with_pending t s (some t) busy sound) in
      rw (same, yes)
        (notify-IsDelivered (s.threads t) (s.dispatched t) (s.served t) (s.unnotified t) written h)
  | inr other ↦
      let back : (t == c) ≡ false = ground (arith, other) in
      let h : IsDelivered (s.threads c) 0 (s.dispatched c) (s.served c) (s.unnotified c) =
        subst
          (λ (k : ℕ). IsDelivered (s.threads c) k (s.dispatched c) (s.served c) (s.unnotified c))
          (ap (λ (b : Bool). if b then 1 else 0) back) (with_pending c s (some t) busy sound) in
      rw other h
]

pub wake-IsSound : (t : ℕ) (s : System) → IsSound s → IsSound (wake t s)
unfolding wake IsSound
wake-IsSound t s sound c = elim (Bool-cases (c == t)) [
  | inl here ↦
      let same : c ≡ t = ground (arith, here) in
      let yes : (t == t) ≡ true = ground arith in
      rw (same, yes)
        (wake-IsDelivered (s.threads t).notify_pipe (s.threads t).conn_queue_list
          (pending t s.notifying) (s.dispatched t) (s.served t) (s.unnotified t) (sound t))
  | inr other ↦ rw other (sound c)
]

-- Whatever the order in which the listening thread and the workers act, and whichever writes to pipes fail:
-- the sockets that each thread has called conn_new with and those that wait in its queue are, in order, those
-- dispatched to it, and as many wait as there are bytes in its pipe, a byte about to be written, and writes
-- that failed.
pub Reached-IsSound : (s : System) → Reached s → IsSound s
Reached-IsSound s at_start = started-IsSound
Reached-IsSound s' (after_step s s'' r step) = by_step s s' step (Reached-IsSound s r)
  where
    by_step : (a b : System) → Step a b → IsSound a → IsSound b
    by_step a b (by_push t answer citem _ idle e) sound =
        push_to-IsSound t citem a idle (take_connection-new answer citem e) sound
    by_step a b (by_notify t written _ busy) sound = notify_to-IsSound t written a busy sound
    by_step a b (by_wake t _) sound = wake-IsSound t a sound
