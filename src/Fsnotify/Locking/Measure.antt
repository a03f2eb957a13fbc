-- ===== src/Fsnotify/Locking/Measure.antt =====
-- fsnotify/filewatcher.go: the moves between two calls come to an end.
use hotload.Prelude.{
  ℕ, ◌<◌, ◌≤◌, ◌+◌, ◌*◌, ◌≡◌, String, Option, none, some, List, [], ◌∷◌, length, length-append,
  update, arith, total_below, total_below-change, total_below-le, Option-cases, inl, inr,
}
use hotload.Fsnotify.{PendingOperation, send, close}
use hotload.Fsnotify.OpLoop.{
  Phase, idle, checked, blocked, stuck, OpLoop, enqueue, close_chan, process, check, begin_send,
  hand_over, recover,
}
use hotload.Fsnotify.Locking.{
  Lock, free, sending, shutting, Place, away, waits, inside, System, set_thread, send_next, take_op,
  acquire, leave, Work, unlocks, sends_next, takes, begins, hands_over, recovers, locks, shuts,
  leaves, Works, done, works,
}

abbrev phase_weight : Phase → ℕ
phase_weight idle = 0
phase_weight (checked v) = 2
phase_weight (blocked v) = 1
phase_weight (stuck v) = 0

abbrev place_weight : Place → ℕ
place_weight away = 0
place_weight waits = 3
place_weight inside = 1

abbrev chan_weight : Option ℕ → ℕ
chan_weight none = 0
chan_weight (some c) = 1

abbrev lock_weight : Lock → ℕ
lock_weight free = 0
lock_weight (sending op is) = 1 + 5 * length is
lock_weight (shutting who) = 1

abbrev thread_weight : OpLoop → ℕ
thread_weight t =
    4 * length t.watch.oper_chan + phase_weight t.phase + chan_weight t.watch.update_chan

abbrev weight : System → ℕ → ℕ
weight s i = thread_weight (s.thread i) + place_weight (s.place i)

-- Five for each send that is still to be made, up to four for each operation in a buffer, and
-- something for each thread on its way.
abbrev pub measure : ℕ → System → ℕ
measure n s = total_below n (weight s) + lock_weight s.lock

module _ (n i : ℕ) (s : System) (u : OpLoop) (l : i < n) where
  -- A move of one thread, which may be in another place and change the mutex.
  thread_lighter :
      (p : Place) (k : Lock)
      → thread_weight u + place_weight p + lock_weight k < weight s i + lock_weight s.lock
      → measure n (record (set_thread s i u) { place = update s.place i p; lock = k }) < measure n s
  thread_lighter p k h =
      let t : System = record (set_thread s i u) { place = update s.place i p; lock = k } in
      let e : weight t i ≡ thread_weight u + place_weight p = ground arith in
      omega (arith, total_below-change n i (weight s) (weight t) l (λ j ne. ground arith))

  set_thread-lighter :
      (k : Lock)
      → thread_weight u + lock_weight k < thread_weight (s.thread i) + lock_weight s.lock
      → measure n (record (set_thread s i u) { lock = k }) < measure n s
  set_thread-lighter k h =
      let t : System = record (set_thread s i u) { lock = k } in
      let e : weight t i ≡ thread_weight u + place_weight (s.place i) = ground arith in
      omega (arith, total_below-change n i (weight s) (weight t) l (λ j ne. ground arith))

place_lighter :
    (n i : ℕ) (s : System) (p : Place) (k : Lock)
    → i < n
    → place_weight p + lock_weight k < place_weight (s.place i) + lock_weight s.lock
    → measure n (record s { place = update s.place i p; lock = k }) < measure n s
place_lighter n i s p k l h =
    let t : System = record s { place = update s.place i p; lock = k } in
    let e : weight t i ≡ thread_weight (s.thread i) + place_weight p = ground arith in
    omega (arith, total_below-change n i (weight s) (weight t) l (λ j ne. ground arith))

enqueue-weight :
    (t : OpLoop) (op : PendingOperation) → thread_weight (enqueue t op) ≡ thread_weight t + 4
unfolding enqueue
enqueue-weight t op = omega (arith, length-append t.watch.oper_chan (op ∷ []))

begin_send-weight :
    (t : OpLoop) (o : Option ℕ) (v : String)
    → t.phase ≡ checked v
    → thread_weight (begin_send t o v) < thread_weight t
unfolding begin_send
begin_send-weight t none v e = rw e (omega arith)
begin_send-weight t (some c) v e = rw e (omega arith)

process-weight :
    (t : OpLoop) (op : PendingOperation) (rest : List PendingOperation)
    → t.phase ≡ idle
    → t.watch.oper_chan ≡ op ∷ rest
    → thread_weight (process t op rest) + 2 ≤ thread_weight t
unfolding process check
process-weight t (send v) rest e q = elim (Option-cases t.watch.update_chan) [
  | inl o ↦ rw (o, e, q) (omega arith)
  | inr (c, o) ↦ rw (o, e, q) (omega arith)
]
process-weight t (close pth qry) rest e q = rw (e, q) (omega arith)

pub Work-lighter : (n : ℕ) {s t : System} → Work n s t → measure n t < measure n s
unfolding send_next take_op acquire leave hand_over recover close_chan
Work-lighter n (unlocks s op e) = rw e (omega arith)
Work-lighter n (sends_next s op i rest l e b) =
    set_thread-lighter n i s (enqueue (s.thread i) op) l (sending op rest)
      (rw e (omega (arith, enqueue-weight (s.thread i) op)))
Work-lighter n (takes s i (send v) rest l p f q) =
    set_thread-lighter n i s (process (s.thread i) (send v) rest) l s.lock
      (omega (arith, process-weight (s.thread i) (send v) rest f q))
Work-lighter n (takes s i (close pth qry) rest l p f q) =
    thread_lighter n i s (process (s.thread i) (close pth qry) rest) l waits s.lock
      (rw p (omega (arith, process-weight (s.thread i) (close pth qry) rest f q)))
Work-lighter n (begins s i v l f) =
    set_thread-lighter n i s _ l s.lock
      (omega (arith, begin_send-weight (s.thread i) (s.thread i).watch.update_chan v f))
Work-lighter n (hands_over s i v l f o h) =
    set_thread-lighter n i s (hand_over (s.thread i) v) l s.lock (rw f (omega arith))
Work-lighter n (recovers s i v l f o) =
    set_thread-lighter n i s (recover (s.thread i) v) l s.lock (rw f (omega arith))
Work-lighter n (locks s i l p f) =
    place_lighter n i s inside (shutting (some i)) l (rw (p, f) (omega arith))
Work-lighter n (shuts s who i c l f e) =
    set_thread-lighter n i s (close_chan (s.thread i)) l s.lock (rw e (omega arith))
Work-lighter n (leaves s none f) = rw f (omega arith)
Work-lighter n (leaves s (some i) f) = rw f (
    omega (
      arith,
      total_below-le n (weight s) (weight (record s { place = update s.place i away; lock = free }))
          (λ j. ground arith),
    ))

-- Between two calls of the strategy, whatever the threads and their receivers do, there are at most
-- as many moves as the measure says.
pub Works-bounded :
    (n : ℕ) {s : System} {k : ℕ} {t : System} → Works n s k t → k + measure n t ≤ measure n s
Works-bounded n done = omega arith
Works-bounded n (works w m) = omega (arith, Works-bounded n w, Work-lighter n m)
