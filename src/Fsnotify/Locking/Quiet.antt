-- ===== src/Fsnotify/Locking/Quiet.antt =====
-- fsnotify/filewatcher.go: the strategy's threads while there is no call but setVal.
use hotload.Prelude.{
  ℕ, ◌≡◌, ◌≢◌, inl, inr, refl, subst, true, false, Option, none, some, List, [], ◌∷◌, All, arith,
  String, Option-cases,
}
use hotload.Fsnotify.{PendingOperation, send, close, QueryWatch}
use hotload.Fsnotify.OpLoop.{OpLoop, start, enqueue, process, check, begin_send, hand_over, recover}
use hotload.Fsnotify.OpLoop.Draining.{Sends, Sends-snoc}
use hotload.Fsnotify.Locking.{
  free, sending, shutting, away, System, new_system, set_thread, send_next, take_op, Work, unlocks,
  sends_next, takes, begins, hands_over, recovers, locks, shuts, leaves, SetVal, set_vals, Works,
  done, works, Runs, begun, worked, called,
}
use hotload.Fsnotify.Locking.Tracking.{update-all}

-- A thread that was given nothing but values, and whose channel is open.
pub record IsPlain (t : OpLoop) : Type 0 where
  pub still_open : t.closed ≡ false
  pub only_sends : All Sends t.watch.oper_chan

-- No call but setVal.
pub record IsQuiet (s : System) : Type 0 where
  pub all_away : (i : ℕ) → s.place i ≡ away
  pub all_listen : (i : ℕ) → s.listens i ≡ true
  pub plain : (i : ℕ) → IsPlain (s.thread i)
  pub sends_values : (op : PendingOperation) (is : List ℕ) → s.lock ≡ sending op is → Sends op
  pub shuts_nothing : (who : Option ℕ) → s.lock ≢ shutting who

enqueue-IsPlain :
    (t : OpLoop) (op : PendingOperation) → Sends op → IsPlain t → IsPlain (enqueue t op)
unfolding enqueue
enqueue-IsPlain t (send v) a h = record {
  still_open = h.still_open;
  only_sends = Sends-snoc t.watch.oper_chan v h.only_sends;
}
enqueue-IsPlain t (close pth qry) a h = absurd a

process-IsPlain :
    (t : OpLoop) (op : PendingOperation) (rest : List PendingOperation)
    → t.watch.oper_chan ≡ op ∷ rest
    → IsPlain t
    → Sends op × IsPlain (process t op rest)
unfolding process check
process-IsPlain t (close pth qry) rest e h = absurd (rw e at h.only_sends).0
process-IsPlain t (send v) rest e h = elim (Option-cases t.watch.update_chan) [
  | inl o ↦ (tt, rw o (record { still_open = h.still_open; only_sends = (rw e at h.only_sends).1 }))
  | inr (c, o) ↦
      (tt, rw o (record { still_open = h.still_open; only_sends = (rw e at h.only_sends).1 }))
]

begin_send-IsPlain :
    (t : OpLoop) (o : Option ℕ) (v : String) → IsPlain t → IsPlain (begin_send t o v)
unfolding begin_send
begin_send-IsPlain t none v h = record { still_open = h.still_open; only_sends = h.only_sends }
begin_send-IsPlain t (some c) v h = record { still_open = h.still_open; only_sends = h.only_sends }

-- One thread is replaced, by a move that leaves it plain.
one_thread : (s : System) (j : ℕ) (u : OpLoop) → IsQuiet s → IsPlain u → IsQuiet (set_thread s j u)
one_thread s j u h p = record {
  all_away = h.all_away;
  all_listen = h.all_listen;
  plain = update-all (λ i t. IsPlain t) s.thread j u h.plain p;
  sends_values = h.sends_values;
  shuts_nothing = h.shuts_nothing;
}

unlocked-IsQuiet : (s : System) → IsQuiet s → IsQuiet (record s { lock = free })
unlocked-IsQuiet s h = record {
  all_away = h.all_away;
  all_listen = h.all_listen;
  plain = h.plain;
  sends_values = λ op is e. ground (arith, e);
  shuts_nothing = λ who e. ground (arith, e);
}

-- The mutex is held for sends of values.
held-IsQuiet :
    (s : System) (op : PendingOperation) (is : List ℕ)
    → Sends op
    → IsQuiet s
    → IsQuiet (record s { lock = sending op is })
held-IsQuiet s op is a h = record {
  all_away = h.all_away;
  all_listen = h.all_listen;
  plain = h.plain;
  sends_values = λ p js e. subst Sends (ground (arith, e)) a;
  shuts_nothing = λ who e. ground (arith, e);
}

Work-IsQuiet : (n : ℕ) {s t : System} → Work n s t → IsQuiet s → IsQuiet t
unfolding send_next take_op hand_over recover
Work-IsQuiet n (unlocks s op e) h = unlocked-IsQuiet s h
Work-IsQuiet n (sends_next s op j rest l e b) h =
    let a = h.sends_values op (j ∷ rest) e in
    held-IsQuiet (set_thread s j (enqueue (s.thread j) op)) op rest a
      (one_thread s j _ h (enqueue-IsPlain (s.thread j) op a (h.plain j)))
Work-IsQuiet n (takes s j (send v) rest l p f e) h =
    one_thread s j _ h (process-IsPlain (s.thread j) (send v) rest e (h.plain j)).1
Work-IsQuiet n (takes s j (close pth qry) rest l p f e) h =
    absurd (process-IsPlain (s.thread j) (close pth qry) rest e (h.plain j)).0
Work-IsQuiet n (begins s j v l f) h =
    one_thread s j _ h
      (begin_send-IsPlain (s.thread j) (s.thread j).watch.update_chan v (h.plain j))
Work-IsQuiet n (hands_over s j v l f o k) h =
    one_thread s j _ h
      (record { still_open = (h.plain j).still_open; only_sends = (h.plain j).only_sends })
Work-IsQuiet n (recovers s j v l f o) h =
    absurd (let c = (h.plain j).still_open in ground (arith, c, o))
Work-IsQuiet n (locks s j l p f) h = absurd (let a = h.all_away j in ground (arith, a, p))
Work-IsQuiet n (shuts s who j c l f e) h = absurd (h.shuts_nothing who f)
Work-IsQuiet n (leaves s who f) h = absurd (h.shuts_nothing who f)

pub Works-IsQuiet :
    (n : ℕ) {s : System} {k : ℕ} {t : System} → Works n s k t → IsQuiet s → IsQuiet t
Works-IsQuiet n done h = h
Works-IsQuiet n (works w m) h = Work-IsQuiet n m (Works-IsQuiet n w h)

SetVal-IsQuiet : (n : ℕ) {s t : System} → SetVal n s t → IsQuiet s → IsQuiet t
SetVal-IsQuiet n (set_vals s v is f a) h = held-IsQuiet s (send v) is tt h

module _ (n : ℕ) (q : ℕ → QueryWatch) (empty : (i : ℕ) → (q i).oper_chan ≡ []) where
  pub Runs-IsQuiet : {s : System} → Runs n (SetVal n) (new_system q) s → IsQuiet s
  unfolding new_system start
  Runs-IsQuiet begun = record {
    all_away = λ i. refl;
    all_listen = λ i. refl;
    plain = λ i. record { still_open = refl; only_sends = rw (empty i) tt };
    sends_values = λ op is e. ground (arith, e);
    shuts_nothing = λ who e. ground (arith, e);
  }
  Runs-IsQuiet (worked r w) = Work-IsQuiet n w (Runs-IsQuiet r)
  Runs-IsQuiet (called r c) = SetVal-IsQuiet n c (Runs-IsQuiet r)
