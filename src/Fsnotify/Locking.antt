-- ===== src/Fsnotify/Locking.antt =====
-- fsnotify/filewatcher.go: the strategy's mutex and the threads that wait for it. setVal and
-- CloseWatch send to the buffers of the queries while they hold it, and a query's opLoop takes it
-- in processWatchClosure. Which queries a call concerns is left open.
pub mod Measure
pub mod Kept
pub mod Stopping
pub mod Ending
pub mod Tracking
pub mod Quiet
pub mod Delivering
pub mod Wedging
pub mod Carrying
mod Tests
use hotload.Prelude.{
  ℕ, ◌<◌, ◌+◌, ◌≡◌, String, Bool, true, false, Option, none, some, List, [], ◌∷◌, All, length,
  update,
}
use hotload.Fsnotify.{PendingOperation, send, close, QueryWatch}
use hotload.Fsnotify.OpLoop.{
  OpLoop, idle, checked, blocked, start, capacity, enqueue, close_chan, process, begin_send,
  hand_over, recover,
}

-- Who holds the mutex: nobody; setVal or CloseWatch, with an operation that is still to be sent to
-- some queries; or who closes channels, processWatchClosure of a query's thread or else Close.
pub data Lock : Type 0 where
  free : Lock
  sending : PendingOperation → List ℕ → Lock
  shutting : Option ℕ → Lock

-- Where a thread is in processWatchClosure: not there, before the mutex, or past it.
pub data Place : Type 0 where
  away waits inside : Place

-- The threads by their queries' numbers. `listens` is whether a query's receiver still receives:
-- runLoop of its group does until it returns.
pub record System : Type 0 where
  pub thread : ℕ → OpLoop
  pub place : ℕ → Place
  pub listens : ℕ → Bool
  pub lock : Lock

unfoldable pub new_system : (ℕ → QueryWatch) → System
unfolding start
new_system q = record {
  thread = λ i. start (q i);
  place = λ i. away;
  listens = λ i. true;
  lock = free;
}

abbrev pub set_thread : System → ℕ → OpLoop → System
set_thread s i t = record s { thread = update s.thread i t }

-- One send of setVal or CloseWatch.
unfoldable pub send_next : System → PendingOperation → ℕ → List ℕ → System
unfolding enqueue
send_next s op i rest = record (set_thread s i (enqueue (s.thread i) op)) { lock = sending op rest }

-- The thread takes an operation. For a close it comes to the `s.mu.Lock()` of processWatchClosure.
unfoldable pub take_op : System → ℕ → PendingOperation → List PendingOperation → System
unfolding process
take_op s i (send v) rest = set_thread s i (process (s.thread i) (send v) rest)
take_op s i (close pth qry) rest =
    record (set_thread s i (process (s.thread i) (close pth qry) rest)) {
      place = update s.place i waits;
    }

unfoldable pub acquire : System → ℕ → System
acquire s i = record s { place = update s.place i inside; lock = shutting (some i) }

-- The deferred `s.mu.Unlock()` of processWatchClosure or Close.
unfoldable pub leave : System → Option ℕ → System
leave s none = record s { lock = free }
leave s (some i) = record s { place = update s.place i away; lock = free }

-- The moves of the threads below n, of their receivers and of whoever holds the mutex.
pub data Work (n : ℕ) : System → System → Type 0 where
  unlocks :
      (s : System) (op : PendingOperation)
      → s.lock ≡ sending op []
      → Work n s (record s { lock = free })
  sends_next :
      (s : System) (op : PendingOperation) (i : ℕ) (rest : List ℕ)
      → i < n
      → s.lock ≡ sending op (i ∷ rest)
      → length (s.thread i).watch.oper_chan < capacity
      → Work n s (send_next s op i rest)
  takes :
      (s : System) (i : ℕ) (op : PendingOperation) (rest : List PendingOperation)
      → i < n
      → s.place i ≡ away
      → (s.thread i).phase ≡ idle
      → (s.thread i).watch.oper_chan ≡ op ∷ rest
      → Work n s (take_op s i op rest)
  begins :
      (s : System) (i : ℕ) (v : String)
      → i < n
      → (s.thread i).phase ≡ checked v
      → Work n s (set_thread s i (begin_send (s.thread i) (s.thread i).watch.update_chan v))
  hands_over :
      (s : System) (i : ℕ) (v : String)
      → i < n
      → (s.thread i).phase ≡ blocked v
      → (s.thread i).closed ≡ false
      → s.listens i ≡ true
      → Work n s (set_thread s i (hand_over (s.thread i) v))
  recovers :
      (s : System) (i : ℕ) (v : String)
      → i < n
      → (s.thread i).phase ≡ blocked v
      → (s.thread i).closed ≡ true
      → Work n s (set_thread s i (recover (s.thread i) v))
  locks : (s : System) (i : ℕ) → i < n → s.place i ≡ waits → s.lock ≡ free → Work n s (acquire s i)
  shuts :
      (s : System) (who : Option ℕ) (i c : ℕ)
      → i < n
      → s.lock ≡ shutting who
      → (s.thread i).watch.update_chan ≡ some c
      → Work n s (set_thread s i (close_chan (s.thread i)))
  leaves : (s : System) (who : Option ℕ) → s.lock ≡ shutting who → Work n s (leave s who)

-- setVal, once it has the mutex and has found the path, whose queries these are.
pub data SetVal (n : ℕ) : System → System → Type 0 where
  set_vals :
      (s : System) (v : String) (is : List ℕ)
      → s.lock ≡ free
      → All (λ i. i < n) is
      → SetVal n s (record s { lock = sending (send v) is })

-- Any call that has the mutex, and the end of a receiver.
pub data Call (n : ℕ) : System → System → Type 0 where
  sets : {s t : System} → SetVal n s t → Call n s t
  closes_watch :
      (s : System) (pth qry : String) (i : ℕ)
      → s.lock ≡ free
      → i < n
      → Call n s (record s { lock = sending (close pth qry) (i ∷ []) })
  closes_all : (s : System) → s.lock ≡ free → Call n s (record s { lock = shutting none })
  stops : (s : System) (i : ℕ) → Call n s (record s { listens = update s.listens i false })

-- Moves in a row, counted.
pub data Works (n : ℕ) (s : System) : ℕ → System → Type 0 where
  done : Works n s 0 s
  works : {k : ℕ} {t u : System} → Works n s k t → Work n t u → Works n s (k + 1) u

-- What moves and calls of a kind make of the system.
pub data Runs (n : ℕ) (C : System → System → Type 0) (s : System) : System → Type 0 where
  begun : Runs n C s s
  worked : {t u : System} → Runs n C s t → Work n t u → Runs n C s u
  called : {t u : System} → Runs n C s t → C t u → Runs n C s u
