-- ===== src/Fsnotify/OpLoop/Draining.antt =====
-- fsnotify/filewatcher.go: runs of opLoop and its receiver that empty the buffer.
use hotload.Prelude.{
  ℕ, ◌≡◌, refl, sym, ap, ◌∙◌, subst, String, false, some, List, [], ◌∷◌, ◌++◌, All, length, ◌≤◌,
  inl, inr, Option-cases,
}
use mathlib.Core.List.{append_assoc, append-nil}
use hotload.Fsnotify.{PendingOperation, send, close, QueryWatch}
use hotload.Fsnotify.OpLoop.{
  Phase, idle, checked, blocked, stuck, OpLoop, check, process, begin_send, hand_over, Step,
  processes, begins, hands_over, start, capacity, Reach, here, next,
}
use hotload.Fsnotify.OpLoop.Fifo.{IsFifo, sends, in_flight, reached}

pub Reach-trans : (s : OpLoop) {t : OpLoop} → Reach s t → {u : OpLoop} → Reach t u → Reach s u
Reach-trans s r here = r
Reach-trans s r (next r' st) = next (Reach-trans s r r') st

-- One value through all its phases.
abbrev sent : OpLoop → String → List PendingOperation → OpLoop
sent s v rest = record s {
  watch = record (s.watch) { oper_chan = rest };
  phase = idle;
  received = s.received ++ (v ∷ []);
}

send_one :
    (s : OpLoop) (c : ℕ) (v : String) (rest : List PendingOperation)
    → s.phase ≡ idle
    → s.watch.update_chan ≡ some c
    → s.closed ≡ false
    → s.watch.oper_chan ≡ send v ∷ rest
    → Reach s (sent s v rest)
unfolding process check begin_send hand_over
send_one s c v rest i u o q =
    let a = record s { watch = record (s.watch) { oper_chan = rest }; phase = checked v } in
    let b = record a { phase = blocked v } in
    let p : Reach s a = next here (
      subst (Step s)
        (ap (λ x. check (record s { watch = record (s.watch) { oper_chan = rest } }) x v) u)
        (processes s (send v) rest i q)) in
    let k : Step a b = subst (Step a) (ap (λ x. begin_send a x v) u) (begins a v refl) in
    next (next p k) (hands_over b v refl o)

-- An operation that sends a value.
abbrev pub Sends : PendingOperation → Type 0
Sends (send v) = Unit
Sends (close pth qry) = ⊥

pub Sends-snoc :
    (ops : List PendingOperation) (v : String) → All Sends ops → All Sends (ops ++ (send v ∷ []))
Sends-snoc [] v a = (tt, a)
Sends-snoc (op ∷ ops) v a = (a.0, Sends-snoc ops v a.1)

-- The thread waits, its buffer is empty, and its receiver took these values since `s`.
pub record Drained (s t : OpLoop) (values : List String) : Type 0 where
  pub idle_again : t.phase ≡ idle
  pub empty : t.watch.oper_chan ≡ []
  pub received_eq : t.received ≡ s.received ++ values
  pub still_open : t.closed ≡ false
  pub same_chan : t.watch.update_chan ≡ s.watch.update_chan
  pub same_enqueued : t.enqueued ≡ s.enqueued

drain :
    (ops : List PendingOperation) (s : OpLoop) (c : ℕ)
    → s.phase ≡ idle
    → s.watch.update_chan ≡ some c
    → s.closed ≡ false
    → s.watch.oper_chan ≡ ops
    → All Sends ops
    → (t : OpLoop) × Reach s t × Drained s t (sends ops)
drain [] s c i u o q a = (
  s,
  here,
  record {
    idle_again = i;
    empty = q;
    received_eq = sym (append-nil s.received);
    still_open = o;
    same_chan = refl;
    same_enqueued = refl;
  },
)
drain (close pth qry ∷ ops) s c i u o q a = absurd a.0
drain (send v ∷ ops) s c i u o q a =
    let (t, r, d) = drain ops (sent s v ops) c refl u o refl a.1 in
    (
      t,
      Reach-trans s (send_one s c v ops i u o q) r,
      record {
        idle_again = d.idle_again;
        empty = d.empty;
        received_eq = d.received_eq ∙ append_assoc s.received (v ∷ []) (sends ops);
        still_open = d.still_open;
        same_chan = d.same_chan;
        same_enqueued = d.same_enqueued;
      },
    )

-- What the thread does before it next waits: it hands over the value that it is sending.
record Settled (s t : OpLoop) : Type 0 where
  waits : t.phase ≡ idle
  same_watch : t.watch ≡ s.watch
  still_open : t.closed ≡ false
  sent_eq : t.received ≡ s.received ++ in_flight s.phase
  same_enqueued : t.enqueued ≡ s.enqueued

settle_blocked :
    (s : OpLoop) (v : String)
    → s.phase ≡ blocked v
    → s.closed ≡ false
    → (t : OpLoop) × Reach s t × Settled s t
unfolding hand_over
settle_blocked s v i o = (
  hand_over s v,
  next here (hands_over s v i o),
  record {
    waits = refl;
    same_watch = refl;
    still_open = o;
    sent_eq = rw i refl;
    same_enqueued = refl;
  },
)

settle :
    (s : OpLoop) (p : Phase)
    → s.phase ≡ p
    → s.closed ≡ false
    → IsFifo s
    → (t : OpLoop) × Reach s t × Settled s t
unfolding begin_send
settle s idle i o h = (
  s,
  here,
  record {
    waits = i;
    same_watch = refl;
    still_open = o;
    sent_eq = rw i (sym (append-nil s.received));
    same_enqueued = refl;
  },
)
settle s (stuck v) i o h = absurd (h.unstuck v o i)
settle s (blocked v) i o h = settle_blocked s v i o
settle s (checked v) i o h = elim (Option-cases s.watch.update_chan) [
  | inl n ↦ absurd (h.open_chan o n)
  | inr (c, n) ↦
      let b = record s { phase = blocked v } in
      let k : Step s b = subst (Step s) (ap (λ x. begin_send s x v) n) (begins s v i) in
      let (t, r, d) = settle_blocked b v refl o in
      (
        t,
        Reach-trans s (next here k) r,
        record {
          waits = d.waits;
          same_watch = d.same_watch;
          still_open = d.still_open;
          sent_eq = rw i d.sent_eq;
          same_enqueued = d.same_enqueued;
        },
      )
]

-- A thread whose channel is open and whose buffer holds only values can go on, wherever it is, until
-- its receiver has every value that was put into the buffer, in order: there are moves of the thread
-- and its receiver that lead there. It then waits with an empty buffer.
pub Reach-drains :
    (q : QueryWatch) (c : ℕ) (s : OpLoop)
    → q.update_chan ≡ some c
    → length q.oper_chan ≤ capacity
    → Reach (start q) s
    → s.closed ≡ false
    → All Sends s.watch.oper_chan
    → (t : OpLoop) × Reach s t
      × (t.received ≡ sends s.enqueued)
      × (t.enqueued ≡ s.enqueued)
      × (t.watch.oper_chan ≡ [])
      × (t.phase ≡ idle)
      × (t.closed ≡ false)
Reach-drains q c s e b r o a =
    let h = reached q c e b r in
    let (m, r', d) = settle s s.phase refl o h in
    elim (Option-cases s.watch.update_chan) [
      | inl n ↦ absurd (h.open_chan o n)
      | inr (c', n) ↦
          let same = ap (λ w. w.oper_chan) d.same_watch in
          let (t, r'', f) =
            drain s.watch.oper_chan m c' d.waits (ap (λ w. w.update_chan) d.same_watch ∙ n)
              d.still_open same a in
          (
            t,
            Reach-trans s r' r'',
            f.received_eq
                ∙ ap (λ xs. xs ++ sends s.watch.oper_chan) d.sent_eq
                ∙ append_assoc s.received (in_flight s.phase) (sends s.watch.oper_chan)
                ∙ sym (rw (h.kept o) at h.order),
            f.same_enqueued ∙ d.same_enqueued,
            f.empty,
            f.idle_again,
            f.still_open,
          )
    ]
