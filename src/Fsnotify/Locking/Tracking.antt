-- ===== src/Fsnotify/Locking/Tracking.antt =====
-- fsnotify/filewatcher.go: with the mutex in the picture, each query's thread still moves as it does
-- by itself.
use hotload.Prelude.{ℕ, ◌≡◌, sym, subst, none, some, update, ◌==◌, Bool-cases, inl, inr, arith}
use hotload.Fsnotify.{send, close, QueryWatch}
use hotload.Fsnotify.OpLoop.{
  OpLoop, start, enqueues, closes, processes, begins as begins_send, hands_over as hands_value,
  recovers as recovers_panic, Reach, here, next,
}
use hotload.Fsnotify.Locking.{
  System, new_system, send_next, take_op, acquire, leave, Work, unlocks, sends_next, takes, begins,
  hands_over, recovers, locks, shuts, leaves, set_vals, Call, sets, closes_watch, closes_all, stops,
  Runs, begun, worked, called,
}

-- What holds of each thread, once one of them is replaced.
pub update-all {ℓ} :
    {A : Type 0} (P : ℕ → A → Type ℓ) (f : ℕ → A) (j : ℕ) (u : A)
    → ((i : ℕ) → P i (f i))
    → P j u
    → (i : ℕ) → P i (update f j u i)
update-all P f j u h p i = elim (Bool-cases (j == i)) [
  | inl e ↦
      let same : update f j u i ≡ u = ground (arith, e) in
      subst (P i) (sym same) (subst (λ k. P k u) (ground (arith, e)) p)
  | inr e ↦ subst (P i) (ground (arith, e)) (h i)
]

abbrev pub Tracks : (ℕ → QueryWatch) → ℕ → OpLoop → Type 0
Tracks q i t = Reach (start (q i)) t

Work-Tracks :
    (n : ℕ) (q : ℕ → QueryWatch) {s t : System}
    → Work n s t
    → ((i : ℕ) → Tracks q i (s.thread i))
    → (i : ℕ) → Tracks q i (t.thread i)
unfolding send_next take_op acquire leave
Work-Tracks n q (unlocks s op e) h i = h i
Work-Tracks n q (sends_next s op j rest l e b) h i =
    update-all (Tracks q) s.thread j _ h (next (h j) (enqueues (s.thread j) op b)) i
Work-Tracks n q (takes s j (send v) rest l p f e) h i =
    update-all (Tracks q) s.thread j _ h (next (h j) (processes (s.thread j) (send v) rest f e)) i
Work-Tracks n q (takes s j (close pth qry) rest l p f e) h i =
    update-all (Tracks q) s.thread j _ h
      (next (h j) (processes (s.thread j) (close pth qry) rest f e)) i
Work-Tracks n q (begins s j v l f) h i =
    update-all (Tracks q) s.thread j _ h (next (h j) (begins_send (s.thread j) v f)) i
Work-Tracks n q (hands_over s j v l f o k) h i =
    update-all (Tracks q) s.thread j _ h (next (h j) (hands_value (s.thread j) v f o)) i
Work-Tracks n q (recovers s j v l f o) h i =
    update-all (Tracks q) s.thread j _ h (next (h j) (recovers_panic (s.thread j) v f o)) i
Work-Tracks n q (locks s j l p f) h i = h i
Work-Tracks n q (shuts s who j c l f e) h i =
    update-all (Tracks q) s.thread j _ h (next (h j) (closes (s.thread j) c e)) i
Work-Tracks n q (leaves s none f) h i = h i
Work-Tracks n q (leaves s (some j) f) h i = h i

Call-Tracks :
    (n : ℕ) (q : ℕ → QueryWatch) {s t : System}
    → Call n s t
    → ((i : ℕ) → Tracks q i (s.thread i))
    → (i : ℕ) → Tracks q i (t.thread i)
Call-Tracks n q (sets (set_vals s v is f a)) h i = h i
Call-Tracks n q (closes_watch s pth qry j f l) h i = h i
Call-Tracks n q (closes_all s f) h i = h i
Call-Tracks n q (stops s j) h i = h i

all_track :
    (n : ℕ) (q : ℕ → QueryWatch) {s : System}
    → Runs n (Call n) (new_system q) s
    → (i : ℕ) → Tracks q i (s.thread i)
unfolding new_system
all_track n q begun i = here
all_track n q (worked r w) i = Work-Tracks n q w (all_track n q r) i
all_track n q (called r c) i = Call-Tracks n q c (all_track n q r) i

-- Whatever calls and moves there are, with the mutex and all queries together, what a query's thread
-- goes through is a run of that thread alone with its receiver and the strategy.
pub Runs-Tracks :
    (n : ℕ) (q : ℕ → QueryWatch) (s : System) (i : ℕ)
    → Runs n (Call n) (new_system q) s
    → Reach (start (q i)) (s.thread i)
Runs-Tracks n q s i r = all_track n q r i
