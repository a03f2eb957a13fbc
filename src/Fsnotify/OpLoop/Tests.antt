-- ===== src/Fsnotify/OpLoop/Tests.antt =====
-- Runs of a query's thread, and the theorems at concrete inputs.
use hotload.Prelude.{
  ◌≡◌, ◌≢◌, String, refl, true, false, ◌⊎◌, some, none, [], ◌∷◌, ◌++◌, ◌≤◌, length, arith,
}
use hotload.Fsnotify.{PendingOperation, send, QueryWatch}
use hotload.Fsnotify.OpLoop.{
  OpLoop, idle, stuck, start, capacity, enqueue, close_chan, process, check, begin_send, hand_over,
  recover, enqueues, closes, processes, begins, hands_over, recovers, Reach, here, next,
}
use hotload.Fsnotify.OpLoop.Fifo.{sends, in_flight, Reach-IsFifo}

abbrev query : QueryWatch
query = record { path_query = "q"; update_chan = some 7; oper_chan = [] }

abbrev first : PendingOperation
first = send "a"

-- One value was received, another is in the buffer.
abbrev received_one : OpLoop
received_one = record {
  watch = record query { oper_chan = send "b" ∷ [] };
  phase = idle;
  closed = false;
  received = "a" ∷ [];
  closures = [];
  enqueued = first ∷ send "b" ∷ [];
  dropped = [];
}

received_one_reached : Reach (start query) received_one
unfolding start enqueue process check begin_send hand_over
received_one_reached =
    let s0 = start query in
    let s1 = enqueue s0 first in
    let s2 = process s1 first [] in
    let s3 = enqueue s2 (send "b") in
    let s4 = begin_send s3 (some 7) "a" in
    let r1 : Reach s0 s1 = next here (enqueues s0 first (omega arith)) in
    let r2 : Reach s0 s2 = next r1 (processes s1 first [] refl refl) in
    let r3 : Reach s0 s3 = next r2 (enqueues s2 (send "b") (omega arith)) in
    let r4 : Reach s0 s4 = next r3 (begins s3 "a" refl) in next r4 (hands_over s4 "a" refl refl)

-- A Close between the test of the channel and the send leaves the thread blocked on a nil channel.
abbrev left_stuck : OpLoop
left_stuck = record {
  watch = record query { update_chan = none };
  phase = stuck "a";
  closed = true;
  received = [];
  closures = [];
  enqueued = first ∷ [];
  dropped = [];
}

left_stuck_reached : Reach (start query) left_stuck
unfolding start enqueue process check begin_send close_chan
left_stuck_reached =
    let s0 = start query in
    let s1 = enqueue s0 first in
    let s2 = process s1 first [] in
    let s3 = close_chan s2 in
    let r1 : Reach s0 s1 = next here (enqueues s0 first (omega arith)) in
    let r2 : Reach s0 s2 = next r1 (processes s1 first [] refl refl) in
    let r3 : Reach s0 s3 = next r2 (closes s2 7 refl) in next r3 (begins s3 "a" refl)

-- A close during the send drops the value.
abbrev dropped_one : OpLoop
dropped_one = record left_stuck { phase = idle; dropped = "a" ∷ [] }

dropped_one_reached : Reach (start query) dropped_one
unfolding start enqueue process check begin_send close_chan recover
dropped_one_reached =
    let s0 = start query in
    let s1 = enqueue s0 first in
    let s2 = process s1 first [] in
    let s3 = begin_send s2 (some 7) "a" in
    let s4 = close_chan s3 in
    let r1 : Reach s0 s1 = next here (enqueues s0 first (omega arith)) in
    let r2 : Reach s0 s2 = next r1 (processes s1 first [] refl refl) in
    let r3 : Reach s0 s3 = next r2 (begins s2 "a" refl) in
    let r4 : Reach s0 s4 = next r3 (closes s3 7 refl) in next r4 (recovers s4 "a" refl refl)

Reach-IsFifo_example :
    (sends dropped_one.enqueued
      ≡ dropped_one.received
        ++ (dropped_one.dropped
            ++ (in_flight dropped_one.phase ++ sends dropped_one.watch.oper_chan)))
    × ((dropped_one.closed ≡ true)
        ⊎ ((dropped_one.dropped ≡ []) × ((v : String) → dropped_one.phase ≢ stuck v)))
    × (length dropped_one.watch.oper_chan ≤ capacity)
Reach-IsFifo_example = Reach-IsFifo query 7 dropped_one refl (omega arith) dropped_one_reached
