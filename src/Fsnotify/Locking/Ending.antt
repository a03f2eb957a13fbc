-- ===== src/Fsnotify/Locking/Ending.antt =====
-- fsnotify/filewatcher.go: how the moves between two calls of the strategy end.
use hotload.Prelude.{
  ℕ, zero, suc, ◌≤◌, ◌+◌, ◌≡◌, ◌≢◌, ◌⊎◌, inl, inr, refl, sym, subst, ◌∙◌, String, false, List,
  arith,
}
use hotload.Fsnotify.{PendingOperation, send, close, QueryWatch}
use hotload.Fsnotify.OpLoop.{OpLoop, idle, checked, blocked, stuck}
use hotload.Fsnotify.Locking.{
  away, waits, System, new_system, set_thread, send_next, take_op, acquire, leave, Work, unlocks,
  sends_next, takes, begins, hands_over, recovers, locks, shuts, leaves, set_vals, Call, sets,
  closes_watch, closes_all, stops, Works, done, works, Runs, begun, worked, called,
}
use hotload.Fsnotify.Locking.Measure.{measure, Work-lighter, Works-bounded}
use hotload.Fsnotify.Locking.Kept.{IsKept, Work-IsKept, Works-IsKept, Runs-IsKept}
use hotload.Fsnotify.Locking.Stopping.{Dead, sticks, unheard, AtRest, Wedged, progress}

Works-front :
    (n : ℕ) {s t : System} → Work n s t → {k : ℕ} {u : System} → Works n t k u → Works n s (k + 1) u
Works-front n m done = works done m
Works-front n m (works w m') = works (Works-front n m w) m'

settle :
    (n b : ℕ) (s : System)
    → measure n s ≤ b
    → IsKept n s
    → (k : ℕ) × (t : System) × Works n s k t × (AtRest n t ⊎ Wedged n t)
settle n zero s l h = elim (progress n s s.lock refl h) [
  | inr e ↦ (0, s, done, e)
  | inl (t, m) ↦ absurd (omega (arith, Work-lighter n m))
]
settle n (suc b) s l h = elim (progress n s s.lock refl h) [
  | inr e ↦ (0, s, done, e)
  | inl (t, m) ↦
      let (k, u, w, e) = settle n b t (omega (arith, Work-lighter n m)) (Work-IsKept n m h) in
      (k + 1, u, Works-front n m w, e)
]

-- What a move or a call leaves as it was.
record Leaves (s t : System) (i : ℕ) : Type 0 where
  same_thread : t.thread i ≡ s.thread i
  same_place : t.place i ≡ s.place i
  same_lock : t.lock ≡ s.lock
  deaf : s.listens i ≡ false → t.listens i ≡ false

Leaves-Dead : (s t : System) (i : ℕ) → Leaves s t i → Dead s i → Dead t i
Leaves-Dead s t i e (sticks v f) = sticks v (rw e.same_thread f)
Leaves-Dead s t i e (unheard v f c d) =
    unheard v (rw e.same_thread f) (rw e.same_thread c) (e.deaf d)

Leaves-Wedged :
    (n : ℕ) (s t : System) (w : Wedged n s) → Leaves s t w.query → Wedged n t × (t.lock ≡ s.lock)
Leaves-Wedged n s t w e = (
  record {
    op = w.op;
    query = w.query;
    rest = w.rest;
    below = w.below;
    held = rw e.same_lock w.held;
    full = rw e.same_thread w.full;
    why = elim w.why [
      | inl (p, f) ↦ inl (rw e.same_place p, rw e.same_thread f)
      | inr d ↦ inr (Leaves-Dead s t w.query e d)
    ];
  },
  e.same_lock,
)

-- How the thread that the mutex waits for stands.
data Stays (s : System) (i : ℕ) : Type 0 where
  before_mutex : s.place i ≡ waits → (s.thread i).phase ≡ idle → Stays s i
  on_nil : (v : String) → (s.thread i).phase ≡ stuck v → Stays s i
  on_deaf :
      (v : String)
      → (s.thread i).phase ≡ blocked v
      → (s.thread i).closed ≡ false
      → s.listens i ≡ false
      → Stays s i

Wedged-Stays : (n : ℕ) (s : System) (w : Wedged n s) → Stays s w.query
Wedged-Stays n s w = elim w.why [
  | inl (p, f) ↦ before_mutex p f
  | inr (sticks v f) ↦ on_nil v f
  | inr (unheard v f c d) ↦ on_deaf v f c d
]

-- A thread that can move does not stay.
takes_not : (s : System) (i : ℕ) → Stays s i → s.place i ≡ away → (s.thread i).phase ≢ idle
takes_not s i (before_mutex p f) a k = ground (arith, p, a)
takes_not s i (on_nil v f) a k = ground (arith, f, k)
takes_not s i (on_deaf v f c d) a k = ground (arith, f, k)

begins_not : (s : System) (i : ℕ) (v : String) → Stays s i → (s.thread i).phase ≢ checked v
begins_not s i v (before_mutex p f) k = ground (arith, f, k)
begins_not s i v (on_nil u f) k = ground (arith, f, k)
begins_not s i v (on_deaf u f c d) k = ground (arith, f, k)

blocked_not :
    (s : System) (i : ℕ) (v : String)
    → Stays s i
    → (s.thread i).phase ≡ blocked v
    → ((s.thread i).closed ≡ false) × (s.listens i ≡ false)
blocked_not s i v (before_mutex p f) k = absurd (ground (arith, f, k))
blocked_not s i v (on_nil u f) k = absurd (ground (arith, f, k))
blocked_not s i v (on_deaf u f c d) k = (c, d)

set_thread-Leaves : (s : System) (i j : ℕ) (u : OpLoop) → i ≢ j → Leaves s (set_thread s i u) j
set_thread-Leaves s i j u ne = record {
  same_thread = ground (arith, ne);
  same_place = refl;
  same_lock = refl;
  deaf = λ d. d;
}

take_op-Leaves :
    (s : System) (i j : ℕ) (op : PendingOperation) (rest : List PendingOperation)
    → i ≢ j
    → Leaves s (take_op s i op rest) j
unfolding take_op
take_op-Leaves s i j (send v) rest ne = set_thread-Leaves s i j _ ne
take_op-Leaves s i j (close pth qry) rest ne = record {
  same_thread = ground (arith, ne);
  same_place = ground (arith, ne);
  same_lock = refl;
  deaf = λ d. d;
}

module _ (n : ℕ) (s : System) (w : Wedged n s) where
  moved :
      (i : ℕ) (u : OpLoop)
      → i ≢ w.query
      → Wedged n (set_thread s i u) × ((set_thread s i u).lock ≡ s.lock)
  moved i u ne = Leaves-Wedged n s _ w (set_thread-Leaves s i w.query u ne)

  stays : (i : ℕ) → i ≡ w.query → Stays s i
  stays i e = subst (Stays s) (sym e) (Wedged-Stays n s w)

Work-Wedged :
    (n : ℕ) {s t : System} → Work n s t → (w : Wedged n s) → Wedged n t × (t.lock ≡ s.lock)
unfolding send_next take_op acquire leave
Work-Wedged n (unlocks s op e) w = absurd (let h = w.held in ground (arith, h, e))
Work-Wedged n (sends_next s op i rest l e b) w =
    absurd (let h = w.held in let f = w.full in ground (arith, h, e, f, b))
Work-Wedged n (locks s i l p f) w = absurd (let h = w.held in ground (arith, h, f))
Work-Wedged n (shuts s who i c l f e) w = absurd (let h = w.held in ground (arith, h, f))
Work-Wedged n (leaves s who f) w = absurd (let h = w.held in ground (arith, h, f))
Work-Wedged n (takes s i op rest l p f q) w =
    Leaves-Wedged n s _ w
      (take_op-Leaves s i w.query op rest (λ e. takes_not s i (stays n s w i e) p f))
Work-Wedged n (begins s i v l f) w = moved n s w i _ (λ e. begins_not s i v (stays n s w i e) f)
Work-Wedged n (hands_over s i v l f o k) w =
    moved n s w i _ (λ e. let c = blocked_not s i v (stays n s w i e) f in ground (arith, c.1, k))
Work-Wedged n (recovers s i v l f o) w =
    moved n s w i _ (λ e. let c = blocked_not s i v (stays n s w i e) f in ground (arith, c.0, o))

Call-Wedged :
    (n : ℕ) {s t : System} → Call n s t → (w : Wedged n s) → Wedged n t × (t.lock ≡ s.lock)
Call-Wedged n (sets (set_vals s v is f a)) w = absurd (let h = w.held in ground (arith, h, f))
Call-Wedged n (closes_watch s pth qry i f l) w = absurd (let h = w.held in ground (arith, h, f))
Call-Wedged n (closes_all s f) w = absurd (let h = w.held in ground (arith, h, f))
Call-Wedged n (stops s i) w = Leaves-Wedged n s _ w (record {
  same_thread = refl;
  same_place = refl;
  same_lock = refl;
  deaf = λ d. ground (arith, d);
})

-- Whatever calls and moves came before, the moves of the threads, their receivers and the holder of
-- the mutex come to an end unless there is another call: however they go on, there are at most as
-- many as the measure says, and they can go on until the mutex is free and each thread waits with an
-- empty buffer or sends for ever, on a nil channel or to a receiver that has stopped; or until setVal
-- or CloseWatch holds the mutex and waits for room in a full buffer, whose thread waits for the mutex
-- or sends for ever.
pub Runs-settles :
    (n : ℕ) (q : ℕ → QueryWatch) (s : System) (k : ℕ) (t : System)
    → Runs n (Call n) (new_system q) s
    → Works n s k t
    → (j : ℕ) × (u : System) × Works n t j u × (k + j ≤ measure n s) × (AtRest n u ⊎ Wedged n u)
Runs-settles n q s k t r w =
    let (j, u, v, e) =
      settle n (measure n t) t (omega arith) (Works-IsKept n w (Runs-IsKept n q r)) in
    (j, u, v, omega (arith, Works-bounded n w, Works-bounded n v), e)

-- Once setVal or CloseWatch waits with the mutex for room in a buffer whose thread waits for the
-- mutex or sends for ever, this stays so, whatever moves and calls follow: the same call holds the
-- mutex for good, so that nobody else ever gets it.
pub Wedged-forever :
    (n : ℕ) (s t : System) → Wedged n s → Runs n (Call n) s t → Wedged n t × (t.lock ≡ s.lock)
Wedged-forever n s t w begun = (w, refl)
Wedged-forever n s t w (worked r m) =
    let (v, e) = Wedged-forever n s _ w r in let (u, f) = Work-Wedged n m v in (u, f ∙ e)
Wedged-forever n s t w (called r c) =
    let (v, e) = Wedged-forever n s _ w r in let (u, f) = Call-Wedged n c v in (u, f ∙ e)
