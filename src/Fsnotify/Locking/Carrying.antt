-- ===== src/Fsnotify/Locking/Carrying.antt =====
-- fsnotify/filewatcher.go: a call of setVal sends its value to each query of the path.
use hotload.Prelude.{
  ℕ, ◌≡◌, ◌≢◌, ◌⊎◌, inl, inr, refl, sym, subst, ◌∙◌, String, Option, none, some, List, [], ◌∷◌,
  ◌++◌, In, arith, update, Option-cases, ℕ-cases,
}
use hotload.Fsnotify.{PendingOperation, send, close}
use hotload.Fsnotify.OpLoop.{
  OpLoop, enqueue, close_chan, process, check, begin_send, hand_over, recover,
}
use hotload.Fsnotify.Locking.{
  free, sending, System, set_thread, send_next, take_op, acquire, leave, Work, unlocks, sends_next,
  takes, begins, hands_over, recovers, locks, shuts, leaves, Works, done, works,
}
use hotload.Fsnotify.Locking.Tracking.{update-all}

-- The value was put last into the thread's buffer.
abbrev pub PutLast : String → OpLoop → Type 0
PutLast v t = (earlier : List PendingOperation) × (t.enqueued ≡ earlier ++ (send v ∷ []))

-- Nothing but the value is being sent, and it is still to be sent to the query or was put last into
-- its buffer.
pub record Carries (v : String) (i : ℕ) (s : System) : Type 0 where
  pub only : (op : PendingOperation) (is : List ℕ) → s.lock ≡ sending op is → op ≡ send v
  pub comes : ((is : List ℕ) × (s.lock ≡ sending (send v) is) × In i is) ⊎ PutLast v (s.thread i)

process-enqueued :
    (t : OpLoop) (op : PendingOperation) (rest : List PendingOperation)
    → (process t op rest).enqueued ≡ t.enqueued
unfolding process check
process-enqueued t (close pth qry) rest = refl
process-enqueued t (send v) rest = elim (Option-cases t.watch.update_chan) [
  | inl o ↦ rw o refl
  | inr (c, o) ↦ rw o refl
]

begin_send-enqueued :
    (t : OpLoop) (o : Option ℕ) (v : String) → (begin_send t o v).enqueued ≡ t.enqueued
unfolding begin_send
begin_send-enqueued t none v = refl
begin_send-enqueued t (some c) v = refl

-- A move of a thread that puts nothing into a buffer.
set_thread-Carries :
    (v : String) (i j : ℕ) (s : System) (u : OpLoop)
    → u.enqueued ≡ (s.thread j).enqueued
    → Carries v i s
    → Carries v i (set_thread s j u)
set_thread-Carries v i j s u e h = record {
  only = h.only;
  comes = elim h.comes [
    | inl c ↦ inl c
    | inr (earlier, p) ↦
        let same =
          update-all (λ k t. t.enqueued ≡ (s.thread k).enqueued) s.thread j u (λ k. refl) e i in
        inr (earlier, same ∙ p)
  ];
}

take_op-Carries :
    (v : String) (i j : ℕ) (s : System) (op : PendingOperation) (rest : List PendingOperation)
    → Carries v i s
    → Carries v i (take_op s j op rest)
unfolding take_op
take_op-Carries v i j s (send w) rest h =
    set_thread-Carries v i j s _ (process-enqueued (s.thread j) (send w) rest) h
take_op-Carries v i j s (close pth qry) rest h =
    let k = set_thread-Carries v i j s _ (process-enqueued (s.thread j) (close pth qry) rest) h in
    record { only = k.only; comes = k.comes }

-- What is put last into the buffer of one query, after a send to another or the same.
sent-PutLast :
    (v : String) (i j : ℕ) (s : System)
    → (j ≡ i) ⊎ PutLast v (s.thread i)
    → PutLast v (update s.thread j (enqueue (s.thread j) (send v)) i)
unfolding enqueue
sent-PutLast v i j s h = elim (ℕ-cases j i) [
  | inl e ↦ ((s.thread j).enqueued, ground (arith, e))
  | inr ne ↦ elim h [ inl e ↦ absurd (ne e) | inr (earlier, p) ↦ (earlier, ground (arith, ne, p)) ]
]

send_next-Carries :
    (v : String) (i j : ℕ) (s : System) (op : PendingOperation) (rest : List ℕ)
    → s.lock ≡ sending op (j ∷ rest)
    → Carries v i s
    → Carries v i (send_next s op j rest)
unfolding send_next
send_next-Carries v i j s op rest e h =
    let same : op ≡ send v = h.only op (j ∷ rest) e in
    rw same (record {
      only = λ p is f. ground (arith, f);
      comes = elim h.comes [
        | inr p ↦ inr (sent-PutLast v i j s (inr p))
        | inl (is, l, k) ↦
            let these : is ≡ j ∷ rest = ground (arith, l, e) in
            let m : In i (j ∷ rest) = subst (In i) these k in
            elim m [
              | inl q ↦ inr (sent-PutLast v i j s (inl (sym q)))
              | inr r ↦ inl (rest, refl, r)
            ]
      ];
    })

-- The mutex changes hands, and no send is left.
no_send :
    (v : String) (i : ℕ) (s t : System)
    → t.thread ≡ s.thread
    → ((op : PendingOperation) (is : List ℕ) → t.lock ≢ sending op is)
    → PutLast v (s.thread i)
    → Carries v i t
no_send v i s t e f p = record { only = λ op is l. absurd (f op is l); comes = inr (rw e p) }

-- Without a send that is left, the value was put into the buffer.
was_put :
    (v : String) (i : ℕ) (s : System)
    → ((is : List ℕ) → s.lock ≡ sending (send v) is → ¬ In i is)
    → Carries v i s
    → PutLast v (s.thread i)
was_put v i s f h = elim h.comes [ inl (is, l, k) ↦ absurd (f is l k) | inr p ↦ p ]

pub Work-Carries :
    (n : ℕ) (v : String) (i : ℕ) {s t : System} → Work n s t → Carries v i s → Carries v i t
unfolding acquire leave hand_over recover close_chan
Work-Carries n v i (unlocks s op e) h =
    no_send v i s _ refl (λ p is l. ground (arith, l))
      (was_put v i s (λ is l k. let none_left : is ≡ [] = ground (arith, l, e) in rw none_left at k)
        h)
Work-Carries n v i (sends_next s op j rest l e b) h = send_next-Carries v i j s op rest e h
Work-Carries n v i (takes s j op rest l p f e) h = take_op-Carries v i j s op rest h
Work-Carries n v i (begins s j w l f) h =
    set_thread-Carries v i j s _ (begin_send-enqueued (s.thread j) (s.thread j).watch.update_chan w)
      h
Work-Carries n v i (hands_over s j w l f o k) h = set_thread-Carries v i j s _ refl h
Work-Carries n v i (recovers s j w l f o) h = set_thread-Carries v i j s _ refl h
Work-Carries n v i (locks s j l p f) h =
    no_send v i s _ refl (λ op is q. ground (arith, q))
      (was_put v i s (λ is q k. ground (arith, q, f)) h)
Work-Carries n v i (shuts s who j c l f e) h = set_thread-Carries v i j s _ refl h
Work-Carries n v i (leaves s none f) h =
    no_send v i s _ refl (λ op is q. ground (arith, q))
      (was_put v i s (λ is q k. ground (arith, q, f)) h)
Work-Carries n v i (leaves s (some j) f) h =
    no_send v i s _ refl (λ op is q. ground (arith, q))
      (was_put v i s (λ is q k. ground (arith, q, f)) h)

pub Works-Carries :
    (n : ℕ) (v : String) (i : ℕ) {s : System} {k : ℕ} {t : System}
    → Works n s k t
    → Carries v i s
    → Carries v i t
Works-Carries n v i done h = h
Works-Carries n v i (works w m) h = Work-Carries n v i m (Works-Carries n v i w h)

pub call-Carries :
    (v : String) (i : ℕ) (is : List ℕ) (s : System)
    → s.lock ≡ sending (send v) is
    → In i is
    → Carries v i s
call-Carries v i is s l m = record {
  only = λ op js e. ground (arith, l, e);
  comes = inl (is, l, m);
}

pub Carries-PutLast :
    (v : String) (i : ℕ) (s : System) → s.lock ≡ free → Carries v i s → PutLast v (s.thread i)
Carries-PutLast v i s f h = was_put v i s (λ is e x. ground (arith, e, f)) h
