-- ===== src/Fsnotify/Locking/Wedging.antt =====
-- fsnotify/filewatcher.go: how a thread that takes no operation blocks the strategy.
use hotload.Prelude.{
  ℕ, zero, suc, ◌<◌, ◌≤◌, ◌+◌, ◌≡◌, refl, String, [], ◌∷◌, length, length-append, arith, inl, inr,
  Bool-cases, ltb,
}
use hotload.Fsnotify.{send}
use hotload.Fsnotify.OpLoop.{capacity, enqueue}
use hotload.Fsnotify.Locking.{
  Lock, free, sending, System, set_thread, send_next, unlocks, sends_next, SetVal, set_vals, Runs,
  begun, worked, called,
}
use hotload.Fsnotify.Locking.Stopping.{Stalled, sticks, unheard, Wedged}

-- setVal for a path that one query watches.
pub data SetOne (n i : ℕ) : System → System → Type 0 where
  set_one :
      (s : System) (v : String)
      → s.lock ≡ free
      → i < n
      → SetOne n i s (record s { lock = sending (send v) (i ∷ []) })

pub SetOne-SetVal : (n i : ℕ) {s t : System} → SetOne n i s t → SetVal n s t
SetOne-SetVal n i (set_one s v f l) = set_vals s v (i ∷ []) f (l, tt)

-- One of those calls holds the mutex in t, and waits for room in the query's full buffer for good.
abbrev pub WedgedOn : ℕ → ℕ → String → System → Type 0
WedgedOn n i v t = (w : Wedged n t) × (w.query ≡ i) × (t.lock ≡ sending (send v) (i ∷ []))

Runs-trans :
    (n : ℕ) (C : System → System → Type 0) (s : System) {t : System}
    → Runs n C s t
    → {u : System} → Runs n C t u
    → Runs n C s u
Runs-trans n C s r begun = r
Runs-trans n C s r (worked r' w) = worked (Runs-trans n C s r r') w
Runs-trans n C s r (called r' c) = called (Runs-trans n C s r r') c

-- The state after a call of setVal for the query, where the buffer has room.
abbrev sent : System → ℕ → String → System
sent s i v = record (set_thread s i (enqueue (s.thread i) (send v))) { lock = free }

sent-Stalled : (s : System) (i : ℕ) (v : String) → Stalled s i → Stalled (sent s i v) i
unfolding enqueue
sent-Stalled s i v (inl (p, f)) = inl (p, ground (arith, f))
sent-Stalled s i v (inr (sticks u f)) = inr (sticks u (ground (arith, f)))
sent-Stalled s i v (inr (unheard u f c d)) =
    inr (unheard u (ground (arith, f)) (ground (arith, c)) d)

held-Stalled : (s : System) (i : ℕ) (k : Lock) → Stalled s i → Stalled (record s { lock = k }) i
held-Stalled s i k (inl h) = inl h
held-Stalled s i k (inr (sticks u f)) = inr (sticks u f)
held-Stalled s i k (inr (unheard u f c d)) = inr (unheard u f c d)

sent-length :
    (s : System) (i : ℕ) (v : String)
    → length ((sent s i v).thread i).watch.oper_chan ≡ length (s.thread i).watch.oper_chan + 1
unfolding enqueue
sent-length s i v = ground (arith, length-append (s.thread i).watch.oper_chan (send v ∷ []))

call_one :
    (n i : ℕ) (v : String) (s : System)
    → i < n
    → s.lock ≡ free
    → length (s.thread i).watch.oper_chan < capacity
    → Runs n (SetOne n i) s (sent s i v)
unfolding send_next
call_one n i v s l f b =
    let a : System = record s { lock = sending (send v) (i ∷ []) } in
    let r : Runs n (SetOne n i) s a = called begun (set_one s v f l) in
    worked (worked r (sends_next a (send v) i [] l refl b))
      (unlocks (send_next a (send v) i []) (send v) refl)

wedge_full :
    (n i : ℕ) (v : String) (s : System)
    → i < n
    → s.lock ≡ free
    → capacity ≤ length (s.thread i).watch.oper_chan
    → Stalled s i
    → (t : System) × Runs n (SetOne n i) s t × WedgedOn n i v t
wedge_full n i v s l f b d = (
  record s { lock = sending (send v) (i ∷ []) },
  called begun (set_one s v f l),
  (
    record {
      op = send v;
      query = i;
      rest = [];
      below = l;
      held = refl;
      full = b;
      why = held-Stalled s i _ d;
    },
    refl,
    refl,
  ),
)

wedge :
    (n i : ℕ) (v : String) (room : ℕ) (s : System)
    → i < n
    → s.lock ≡ free
    → capacity ≤ length (s.thread i).watch.oper_chan + room
    → Stalled s i
    → (t : System) × Runs n (SetOne n i) s t × WedgedOn n i v t
wedge n i v zero s l f b d = wedge_full n i v s l f (omega arith) d
wedge n i v (suc room) s l f b d =
    elim (Bool-cases (ltb (length (s.thread i).watch.oper_chan) capacity)) [
      | inr k ↦ wedge_full n i v s l f (ground arith) d
      | inl k ↦
          let (t, r, w) =
            wedge n i v room (sent s i v) l refl (omega (arith, sent-length s i v))
              (sent-Stalled s i v d) in
          (t, Runs-trans n (SetOne n i) s (call_one n i v s l f (ground arith)) r, w)
    ]

-- If the mutex is free and the thread of a query sends for ever, on a nil channel or to a receiver
-- that has stopped, or has come to the mutex in processWatchClosure and others get it first, then
-- there is a run whose only calls are those of setVal for that query alone and that ends with one
-- of them holding the mutex and waiting for room in the full buffer of that very thread, which is
-- stalled.
pub Stalled-wedges :
    (n i : ℕ) (v : String) (s : System)
    → i < n
    → s.lock ≡ free
    → Stalled s i
    → (t : System) × Runs n (SetOne n i) s t × WedgedOn n i v t
Stalled-wedges n i v s l f d = wedge n i v capacity s l f (omega arith) d
