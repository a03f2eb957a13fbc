-- ===== src/Fsnotify/OpLoop.antt =====
-- fsnotify/filewatcher.go: the thread opLoop of one query, with sendUpdate. The moves of the thread
-- interleave with those of the strategy and of the receiver.
pub mod Fifo
pub mod Draining
mod Tests
use hotload.Prelude.{
  ℕ, ◌<◌, ◌≡◌, String, Bool, true, false, Option, none, some, List, [], ◌∷◌, ◌++◌, length,
}
use hotload.Fsnotify.{PendingOperation, send, close, QueryWatch}

-- Where the thread is: waiting for an operation; in sendUpdate, past the test of the channel;
-- blocked on the channel; or blocked on a nil channel, which never ends.
pub data Phase : Type 0 where
  idle : Phase
  checked blocked stuck : String → Phase

-- `watch` is shared with the strategy. `closed` is whether the update channel was closed, `received`
-- what its receiver took, oldest first, and `closures` the calls of processWatchClosure. `enqueued`
-- and `dropped` record the operations put into the buffer, and the values that sendUpdate gave up.
pub record OpLoop : Type 0 where
  pub watch : QueryWatch
  pub phase : Phase
  pub closed : Bool
  pub received : List String
  pub closures : List (String × String)
  pub enqueued : List PendingOperation
  pub dropped : List String

-- `make(chan pendingOperation, 30)`
abbrev pub capacity : ℕ
capacity = 30

-- `go qryW.opLoop()`
unfoldable pub start : QueryWatch → OpLoop
start q = record {
  watch = q;
  phase = idle;
  closed = false;
  received = [];
  closures = [];
  enqueued = q.oper_chan;
  dropped = [];
}

-- `qryW.operChan <- pendOp`, in setVal and CloseWatch.
unfoldable pub enqueue : OpLoop → PendingOperation → OpLoop
enqueue s op = record s {
  watch = record (s.watch) { oper_chan = s.watch.oper_chan ++ (op ∷ []) };
  enqueued = s.enqueued ++ (op ∷ []);
}

-- `closeUpdateChan`, by whoever calls it.
unfoldable pub close_chan : OpLoop → OpLoop
close_chan s = record s { watch = record (s.watch) { update_chan = none }; closed = true }

-- The test at the head of sendUpdate.
unfoldable pub check : OpLoop → Option ℕ → String → OpLoop
check s none v = record s { dropped = s.dropped ++ (v ∷ []) }
check s (some c) v = record s { phase = checked v }

-- The body of the loop for an operation, which leaves `rest` in the buffer. What
-- processWatchClosure does to the channel is a move of its own.
unfoldable pub process : OpLoop → PendingOperation → List PendingOperation → OpLoop
unfolding check
process s (send v) rest =
    check (record s { watch = record (s.watch) { oper_chan = rest } }) s.watch.update_chan v
process s (close pth qry) rest = record s {
  watch = record (s.watch) { oper_chan = rest };
  closures = s.closures ++ ((pth, qry) ∷ []);
}

-- `qw.updateChan <- val` reads the field again: it may be nil by now.
unfoldable pub begin_send : OpLoop → Option ℕ → String → OpLoop
begin_send s none v = record s { phase = stuck v }
begin_send s (some c) v = record s { phase = blocked v }

-- The receiver takes the value.
unfoldable pub hand_over : OpLoop → String → OpLoop
hand_over s v = record s { phase = idle; received = s.received ++ (v ∷ []) }

-- The send panics on the closed channel, and the deferred function recovers.
unfoldable pub recover : OpLoop → String → OpLoop
recover s v = record s { phase = idle; dropped = s.dropped ++ (v ∷ []) }

pub data Step : OpLoop → OpLoop → Type 0 where
  enqueues :
      (s : OpLoop) (op : PendingOperation)
      → length s.watch.oper_chan < capacity
      → Step s (enqueue s op)
  closes : (s : OpLoop) (c : ℕ) → s.watch.update_chan ≡ some c → Step s (close_chan s)
  processes :
      (s : OpLoop) (op : PendingOperation) (rest : List PendingOperation)
      → s.phase ≡ idle
      → s.watch.oper_chan ≡ op ∷ rest
      → Step s (process s op rest)
  begins :
      (s : OpLoop) (v : String) → s.phase ≡ checked v → Step s (begin_send s s.watch.update_chan v)
  hands_over :
      (s : OpLoop) (v : String) → s.phase ≡ blocked v → s.closed ≡ false → Step s (hand_over s v)
  recovers :
      (s : OpLoop) (v : String) → s.phase ≡ blocked v → s.closed ≡ true → Step s (recover s v)

pub data Reach (s : OpLoop) : OpLoop → Type 0 where
  here : Reach s s
  next : {t u : OpLoop} → Reach s t → Step t u → Reach s u
