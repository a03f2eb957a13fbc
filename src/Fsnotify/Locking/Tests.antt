-- ===== src/Fsnotify/Locking/Tests.antt =====
-- Runs of the strategy's mutex and threads, and the theorems at concrete inputs.
use hotload.Prelude.{
  ℕ, zero, suc, ◌≤◌, ◌+◌, ◌≡◌, ◌⊎◌, inl, refl, false, true, some, List, [], ◌∷◌, arith, update,
}
use hotload.Fsnotify.{PendingOperation, send, close, QueryWatch}
use hotload.Fsnotify.OpLoop.{start, enqueue, process}
use hotload.Fsnotify.Locking.{
  free, sending, waits, System, new_system, send_next, take_op, unlocks, sends_next, takes, SetVal,
  set_vals, Call, sets, closes_watch, stops, Works, done, works, Runs, begun, worked, called,
}
use hotload.Fsnotify.Locking.Measure.{measure}
use hotload.Fsnotify.Locking.Stopping.{AtRest, Wedged}
use hotload.Fsnotify.Locking.Ending.{Runs-settles, Wedged-forever}
use hotload.Fsnotify.Locking.Wedging.{SetOne, WedgedOn, Stalled-wedges}

abbrev queries : ℕ → QueryWatch
queries i = record { path_query = "q"; update_chan = some i; oper_chan = [] }

-- setVal has the mutex for two queries, and then has sent to the first.
abbrev called_once : System
called_once = record (new_system queries) { lock = sending (send "a") (0 ∷ 1 ∷ []) }

abbrev sent_once : System
sent_once = send_next called_once (send "a") 0 (1 ∷ [])

calls_once : SetVal 2 (new_system queries) called_once
unfolding new_system
calls_once = set_vals (new_system queries) "a" (0 ∷ 1 ∷ []) refl (omega arith, (omega arith, tt))

sends_once : Works 2 called_once 1 sent_once
unfolding new_system start
sends_once =
    works done (sends_next called_once (send "a") 0 (1 ∷ []) (omega arith) refl (omega arith))

Runs-settles_example :
    (j : ℕ) × (u : System) × Works 2 sent_once j u
    × (1 + j ≤ measure 2 called_once)
    × (AtRest 2 u ⊎ Wedged 2 u)
Runs-settles_example =
    Runs-settles 2 queries called_once 1 sent_once (called begun (sets calls_once)) sends_once

-- One query whose thread has taken a close and is before the mutex.
abbrev closing : PendingOperation
closing = close "/a" "q"

abbrev asked : System
asked = record (new_system queries) { lock = sending closing (0 ∷ []) }

abbrev put : System
put = record (send_next asked closing 0 []) { lock = free }

abbrev waiting : System
waiting = take_op put 0 closing []

waiting_reached : Runs 1 (Call 1) (new_system queries) waiting
unfolding new_system start send_next enqueue
waiting_reached =
    let s1 = send_next asked closing 0 [] in
    let r1 : Runs 1 (Call 1) (new_system queries) asked =
      called begun (closes_watch (new_system queries) "/a" "q" 0 refl (omega arith)) in
    let r2 : Runs 1 (Call 1) (new_system queries) s1 =
      worked r1 (sends_next asked closing 0 [] (omega arith) refl (omega arith)) in
    let r3 : Runs 1 (Call 1) (new_system queries) put = worked r2 (unlocks s1 closing refl) in
    worked r3 (takes put 0 closing [] (omega arith) refl refl refl)

Stalled-wedges_example : (t : System) × Runs 1 (SetOne 1 0) waiting t × WedgedOn 1 0 "b" t
unfolding take_op new_system start send_next enqueue process
Stalled-wedges_example = Stalled-wedges 1 0 "b" waiting (omega arith) refl (inl (refl, refl))

-- The buffer is full, its thread is before the mutex, and setVal holds it.
abbrev fill : ℕ → List PendingOperation
fill zero = []
fill (suc k) = send "b" ∷ fill k

abbrev wedged : System
wedged = record {
  thread = λ i. start (record (queries i) { oper_chan = fill 30 });
  place = λ i. waits;
  listens = λ i. true;
  lock = sending (send "c") (0 ∷ []);
}

wedged-Wedged : Wedged 1 wedged
unfolding start
wedged-Wedged = record {
  op = send "c";
  query = 0;
  rest = [];
  below = omega arith;
  held = refl;
  full = omega arith;
  why = inl (refl, refl);
}

abbrev wedged_deaf : System
wedged_deaf = record wedged { listens = update wedged.listens 0 false }

Wedged-forever_example : Wedged 1 wedged_deaf × (wedged_deaf.lock ≡ wedged.lock)
Wedged-forever_example =
    Wedged-forever 1 wedged wedged_deaf wedged-Wedged (called begun (stops wedged 0))
