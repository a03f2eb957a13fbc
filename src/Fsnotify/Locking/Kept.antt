-- ===== src/Fsnotify/Locking/Kept.antt =====
-- fsnotify/filewatcher.go: what every state of the strategy's mutex and its threads keeps.
use hotload.Prelude.{ℕ, ◌<◌, ◌≡◌, ◌≢◌, refl, none, some, List, ◌∷◌, All, arith}
use hotload.Fsnotify.{PendingOperation, send, close, QueryWatch}
use hotload.Fsnotify.OpLoop.{idle, start, enqueue, process, close_chan, hand_over, recover}
use hotload.Fsnotify.Locking.{
  sending, shutting, away, inside, System, new_system, send_next, take_op, acquire, leave, Work,
  unlocks, sends_next, takes, begins, hands_over, recovers, locks, shuts, leaves, set_vals, Call,
  sets, closes_watch, closes_all, stops, Works, done, works, Runs, begun, worked, called,
}

-- Sends concern queries below n, a thread past the mutex is the one that holds it, and one in
-- processWatchClosure does nothing else.
pub record IsKept (n : ℕ) (s : System) : Type 0 where
  pub in_range :
      (op : PendingOperation) (is : List ℕ) → s.lock ≡ sending op is → All (λ i. i < n) is
  pub holds : (i : ℕ) → s.place i ≡ inside → s.lock ≡ shutting (some i)
  pub waits_idle : (i : ℕ) → s.place i ≢ away → (s.thread i).phase ≡ idle

pub Work-IsKept : (n : ℕ) {s t : System} → Work n s t → IsKept n s → IsKept n t
unfolding send_next take_op acquire leave enqueue process close_chan hand_over recover
Work-IsKept n (unlocks s op e) h = record {
  in_range = λ p is f. ground arith;
  holds = λ i f. ground (arith, h.holds i f);
  waits_idle = h.waits_idle;
}
Work-IsKept n (sends_next s op i rest l e b) h = record {
  in_range = λ p is f. ground (arith, h.in_range op (i ∷ rest) e, f);
  holds = λ j f. ground (arith, h.holds j f);
  waits_idle = λ j g. ground (arith, h.waits_idle j g);
}
Work-IsKept n (takes s i (send v) rest l p f q) h = record {
  in_range = h.in_range;
  holds = h.holds;
  waits_idle = λ j g. ground (arith, h.waits_idle j g, p);
}
Work-IsKept n (takes s i (close pth qry) rest l p f q) h = record {
  in_range = h.in_range;
  holds = λ j g. ground (arith, h.holds j);
  waits_idle = λ j g. ground (arith, h.waits_idle j, f);
}
Work-IsKept n (begins s i v l f) h = record {
  in_range = h.in_range;
  holds = h.holds;
  waits_idle = λ j g. ground (arith, h.waits_idle j g);
}
Work-IsKept n (hands_over s i v l f o k) h = record {
  in_range = h.in_range;
  holds = h.holds;
  waits_idle = λ j g. ground (arith, h.waits_idle j g);
}
Work-IsKept n (recovers s i v l f o) h = record {
  in_range = h.in_range;
  holds = h.holds;
  waits_idle = λ j g. ground (arith, h.waits_idle j g);
}
Work-IsKept n (locks s i l p f) h = record {
  in_range = λ op is g. ground arith;
  holds = λ j g. ground (arith, h.holds j);
  waits_idle = λ j g. ground (arith, h.waits_idle j, p);
}
Work-IsKept n (shuts s who i c l f e) h = record {
  in_range = h.in_range;
  holds = h.holds;
  waits_idle = λ j g. ground (arith, h.waits_idle j g);
}
Work-IsKept n (leaves s none f) h = record {
  in_range = λ op is g. ground arith;
  holds = λ j g. ground (arith, h.holds j g);
  waits_idle = h.waits_idle;
}
Work-IsKept n (leaves s (some i) f) h = record {
  in_range = λ op is g. ground arith;
  holds = λ j g. ground (arith, h.holds j);
  waits_idle = λ j g. ground (arith, h.waits_idle j);
}

pub Works-IsKept :
    (n : ℕ) {s : System} {k : ℕ} {t : System} → Works n s k t → IsKept n s → IsKept n t
Works-IsKept n done h = h
Works-IsKept n (works w m) h = Work-IsKept n m (Works-IsKept n w h)

pub Call-IsKept : (n : ℕ) {s t : System} → Call n s t → IsKept n s → IsKept n t
Call-IsKept n (sets (set_vals s v is f a)) h = record {
  in_range = λ op js g. ground (arith, g, a);
  holds = λ i g. ground (arith, h.holds i g);
  waits_idle = h.waits_idle;
}
Call-IsKept n (closes_watch s pth qry i f l) h = record {
  in_range = λ op js g. ground (arith, g);
  holds = λ j g. ground (arith, h.holds j g);
  waits_idle = h.waits_idle;
}
Call-IsKept n (closes_all s f) h = record {
  in_range = λ op js g. ground (arith, g);
  holds = λ j g. ground (arith, h.holds j g);
  waits_idle = h.waits_idle;
}
Call-IsKept n (stops s i) h = record {
  in_range = h.in_range;
  holds = h.holds;
  waits_idle = h.waits_idle;
}

pub Runs-IsKept :
    (n : ℕ) (q : ℕ → QueryWatch) {s : System} → Runs n (Call n) (new_system q) s → IsKept n s
unfolding new_system start
Runs-IsKept n q begun = record {
  in_range = λ op js g. ground (arith, g);
  holds = λ j g. ground (arith, g);
  waits_idle = λ j g. refl;
}
Runs-IsKept n q (worked r w) = Work-IsKept n w (Runs-IsKept n q r)
Runs-IsKept n q (called r c) = Call-IsKept n c (Runs-IsKept n q r)
