-- ===== src/Fsnotify/Locking/Delivering.antt =====
-- fsnotify/filewatcher.go: setVal's values reach the receivers while nothing is closed.
use hotload.Prelude.{
  AllBelow, AllBelow-intro, AllBelow-elim, ◌⊎◌, ℕ, ◌≤◌, ◌+◌, ◌≡◌, inl, inr, sym, ◌∙◌, some, [],
  arith,
}
use mathlib.Core.List.{append-nil}
use hotload.Fsnotify.{QueryWatch}
use hotload.Fsnotify.OpLoop.{OpLoop, idle}
use hotload.Fsnotify.OpLoop.Fifo.{IsFifo, sends, reached}
use hotload.Fsnotify.Locking.{
  free, System, new_system, SetVal, Call, sets, Works, done, works, Runs, begun, worked, called,
}
use hotload.Fsnotify.Locking.Measure.{measure}
use hotload.Fsnotify.Locking.Stopping.{Resting, Dead, sticks, unheard}
use hotload.Fsnotify.Locking.Ending.{Runs-settles}
use hotload.Fsnotify.Locking.Tracking.{Runs-Tracks}
use hotload.Fsnotify.Locking.Quiet.{IsQuiet, Works-IsQuiet, Runs-IsQuiet}

pub Runs-Call : (n : ℕ) (s : System) {t : System} → Runs n (SetVal n) s t → Runs n (Call n) s t
Runs-Call n s begun = begun
Runs-Call n s (worked r w) = worked (Runs-Call n s r) w
Runs-Call n s (called r c) = called (Runs-Call n s r) (sets c)

Runs-Works :
    (n : ℕ) (C : System → System → Type 0) (s t : System) {k : ℕ} {u : System}
    → Runs n C s t
    → Works n t k u
    → Runs n C s u
Runs-Works n C s t r done = r
Runs-Works n C s t r (works w m) = worked (Runs-Works n C s t r w) m

-- The thread waits with an empty buffer, and its receiver has every value put into it, in order.
pub record Delivered (t : OpLoop) : Type 0 where
  pub waits_again : t.phase ≡ idle
  pub emptied : t.watch.oper_chan ≡ []
  pub all_received : t.received ≡ sends t.enqueued

Resting-Delivered :
    (s : System) (i : ℕ) → IsQuiet s → IsFifo (s.thread i) → Resting s i → Delivered (s.thread i)
Resting-Delivered s i h f r = record {
  waits_again = r.is_idle;
  emptied = r.empty;
  all_received =
      let d = f.kept (h.plain i).still_open in
      sym (rw (r.is_idle, r.empty, d) at f.order ∙ append-nil (s.thread i).received);
}

not-Dead : (s : System) (i : ℕ) → IsQuiet s → IsFifo (s.thread i) → ¬ Dead s i
not-Dead s i h f (sticks v e) = f.unstuck v (h.plain i).still_open e
not-Dead s i h f (unheard v e c d) = let l = h.all_listen i in ground (arith, l, d)

-- From new queries with open channels, whatever calls of setVal and moves came before: unless there
-- is another call, there are at most as many moves as the measure says, and wherever they have led,
-- they can go on until the mutex is free and, for every query, the thread waits with an empty buffer
-- and its receiver has every value put into it, in order.
pub set_vals-Delivered :
    (n : ℕ) (q : ℕ → QueryWatch) (c : ℕ → ℕ) (s : System) (k : ℕ) (t : System)
    → ((i : ℕ) → (q i).update_chan ≡ some (c i))
    → ((i : ℕ) → (q i).oper_chan ≡ [])
    → Runs n (SetVal n) (new_system q) s
    → Works n s k t
    → (j : ℕ) × (u : System) × Works n t j u
      × (k + j ≤ measure n s)
      × (u.lock ≡ free)
      × AllBelow n (λ i. Delivered (u.thread i))
set_vals-Delivered n q c s k t chans empty r w =
    let (j, u, v, le, e) = Runs-settles n q s k t (Runs-Call n (new_system q) r) w in
    let h = Works-IsQuiet n v (Works-IsQuiet n w (Runs-IsQuiet n q empty r)) in
    let whole =
      Runs-Works n (Call n) (new_system q) t
        (Runs-Works n (Call n) (new_system q) s (Runs-Call n (new_system q) r) w) v in
    let fifo : (i : ℕ) → IsFifo (u.thread i) =
      λ i. reached (q i) (c i) (chans i) (rw (empty i) (omega arith)) (Runs-Tracks n q u i whole) in
    elim e [
      | inl a ↦ (
        j,
        u,
        v,
        le,
        a.is_free,
        AllBelow-intro n (λ i l.
            elim (AllBelow-elim n i (λ x. Resting u x ⊎ Dead u x) a.all_rest l) [
              | inl d ↦ Resting-Delivered u i h (fifo i) d
              | inr d ↦ absurd (not-Dead u i h (fifo i) d)
            ]),
      )
      | inr d ↦ absurd (elim d.why [
        | inl (p, f) ↦ (let a = h.all_away d.query in ground (arith, a, p))
        | inr x ↦ not-Dead u d.query h (fifo d.query) x
      ])
    ]
