-- ===== src/Com/Accept/Examples.antt =====
-- The theorems about new connections at a server that accepts one.
use testbed.Prelude.{◌≡◌, refl, true, none, some, length}
use testbed.Com.Accept.{
  queue_new_conn, ConnItem, accepted, pushed, take_connection, System, started, push_to, notify_to,
  by_push, by_notify, Reached, at_start, after_step,
}
use testbed.Com.Accept.Delivery.{IsSound, Reached-IsSound}
use testbed.Com.Accept.Wakes.{wakes, wakes-served}

abbrev socket_7 : ConnItem
socket_7 = record { sfd = 7; mode = queue_new_conn }

abbrev pushed_once : System
pushed_once = push_to 0 socket_7 started

abbrev notified : System
notified = notify_to 0 true pushed_once

taken : take_connection (accepted 7 true) ≡ pushed socket_7
unfolding take_connection
taken = refl

notifying_0 : pushed_once.notifying ≡ some 0
unfolding push_to
notifying_0 = refl

notified_idle : notified.notifying ≡ none
unfolding notify_to
notified_idle = refl

notified_written : notified.unnotified 0 ≡ 0
unfolding notify_to push_to
notified_written = refl

pushed_once-Reached : Reached pushed_once
pushed_once-Reached =
    after_step started pushed_once at_start
      (by_push 0 (accepted 7 true) socket_7 started refl taken)

notified-Reached : Reached notified
notified-Reached =
    after_step pushed_once notified pushed_once-Reached (by_notify 0 true pushed_once notifying_0)

Reached-IsSound_example : IsSound notified
Reached-IsSound_example = Reached-IsSound notified notified-Reached

wakes-served_example :
    (wakes (length (notified.threads 0).notify_pipe) 0 notified).served 0 ≡ notified.dispatched 0
wakes-served_example = wakes-served 0 notified notified-Reached notified_idle notified_written
