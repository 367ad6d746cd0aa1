-- ===== src/Com/Accept.antt =====
-- How a new connection of src/com/socket_server.cpp comes to its thread: conn_dispatch puts it into the
-- thread's queue and a byte into the thread's pipe, and thread_libevent_process takes both out.
pub mod Delivery
pub mod Wakes
mod Examples
use testbed.Prelude.{
  ℕ, zero, suc, ◌+◌, ◌≡◌, Bool, true, false, Option, some, none, List, [], ◌∷◌, ◌++◌, if◌then◌else◌,
  ◌==◌, put, ltb,
}

pub data ConnQueueItemModes : Type 0 where
  queue_new_conn queue_redispatch : ConnQueueItemModes

pub record ConnItem : Type 0 where
  pub sfd : ℕ
  pub mode : ConnQueueItemModes

-- The bytes in the notify pipe and the queue of new connections.
pub record ThreadInfo : Type 0 where
  pub notify_pipe : List ℕ
  pub conn_queue_list : List ConnItem

-- 'c'.
abbrev pub notify_byte : ℕ
notify_byte = 99

-- What accept, and then fcntl, answer.
pub data AcceptAnswer : Type 0 where
  accepted : ℕ → Bool → AcceptAnswer
  accept_again too_many_files accept_failed : AcceptAnswer

pub data Dispatch : Type 0 where
  pushed : ConnItem → Dispatch
  returned process_exit : Dispatch

-- conn_dispatch up to the push; a failed `assert(fd > 2)` ends the process.
unfoldable pub take_connection : AcceptAnswer → Dispatch
take_connection (accepted fd true) =
    if ltb 2 fd then pushed (record { sfd = fd; mode = queue_new_conn }) else process_exit
take_connection (accepted fd false) = returned
take_connection accept_again = returned
take_connection too_many_files = process_exit
take_connection accept_failed = returned

unfoldable pub push_item : ConnItem → ThreadInfo → ThreadInfo
push_item citem me = record me { conn_queue_list = me.conn_queue_list ++ (citem ∷ []) }

-- The write to the pipe, which may fail.
unfoldable pub notify : Bool → ThreadInfo → ThreadInfo
notify written me =
    if written then record me { notify_pipe = me.notify_pipe ++ (notify_byte ∷ []) } else me

-- The switch on an item's mode: the socket that conn_new is called with.
unfoldable pub new_socket : ConnItem → List ℕ
new_socket citem = elim citem.mode [ queue_new_conn ↦ citem.sfd ∷ [] | queue_redispatch ↦ [] ]

-- The front of the queue, taken under its lock.
unfoldable pub pop_item : ThreadInfo → List ℕ × ThreadInfo
pop_item me = elim me.conn_queue_list [
  | [] ↦ ([], me)
  | citem ∷ rest ↦ (new_socket citem, record me { conn_queue_list = rest })
]

-- The sockets that conn_new is called with, one or none, and the thread afterwards.
unfoldable pub thread_libevent_process : ThreadInfo → List ℕ × ThreadInfo
thread_libevent_process me = elim me.notify_pipe [
  | [] ↦ ([], me)
  | b ∷ rest ↦
      let me' = record me { notify_pipe = rest } in
      let popped = pop_item me' in if b == notify_byte then popped else ([], me')
]

-- All threads, the one that conn_dispatch has pushed to and not yet notified, and what has happened to each
-- thread: the sockets pushed for it, those that conn_new was called with, and the writes that failed.
pub record System : Type 0 where
  pub threads : ℕ → ThreadInfo
  pub notifying : Option ℕ
  pub dispatched : ℕ → List ℕ
  pub served : ℕ → List ℕ
  pub unnotified : ℕ → ℕ

abbrev pub started : System
started = record {
  threads = λ t. record { notify_pipe = []; conn_queue_list = [] };
  notifying = none;
  dispatched = λ t. [];
  served = λ t. [];
  unnotified = λ t. 0;
}

unfoldable pub push_to : ℕ → ConnItem → System → System
push_to t citem s = record s {
  threads = put t (push_item citem (s.threads t)) s.threads;
  notifying = some t;
  dispatched = put t (s.dispatched t ++ new_socket citem) s.dispatched;
}

unfoldable pub notify_to : ℕ → Bool → System → System
notify_to t written s = record s {
  threads = put t (notify written (s.threads t)) s.threads;
  notifying = none;
  unnotified = put t (if written then s.unnotified t else suc (s.unnotified t)) s.unnotified;
}

unfoldable pub wake : ℕ → System → System
wake t s =
    let (sockets, me) = thread_libevent_process (s.threads t) in
    record s { threads = put t me s.threads; served = put t (s.served t ++ sockets) s.served }

-- The listening thread dispatches one connection after the other; the threads run at any time between its
-- two actions.
pub data Step : System → System → Type 0 where
  by_push :
      (t : ℕ) (answer : AcceptAnswer) (citem : ConnItem) (s : System)
      → s.notifying ≡ none
      → take_connection answer ≡ pushed citem
      → Step s (push_to t citem s)
  by_notify :
      (t : ℕ) (written : Bool) (s : System) → s.notifying ≡ some t → Step s (notify_to t written s)
  by_wake : (t : ℕ) (s : System) → Step s (wake t s)

pub data Reached : System → Type 0 where
  at_start : Reached started
  after_step : (s s' : System) → Reached s → Step s s' → Reached s'
