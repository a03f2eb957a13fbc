-- ===== src/Fsnotify/OpLoop/Fifo.antt =====
-- fsnotify/filewatcher.go: the order of the values that pass through opLoop.
use hotload.Prelude.{
  ℕ, ◌<◌, ◌≤◌, ◌≡◌, ◌≢◌, refl, ap, String, true, false, Option, none, some, List, [], ◌∷◌, ◌++◌,
  length, length-append, arith, Option-cases, Bool-cases, ◌⊎◌, inl, inr,
}
use mathlib.Core.List.{append_assoc, append-nil}
use hotload.Fsnotify.{PendingOperation, send, close, QueryWatch}
use hotload.Fsnotify.OpLoop.{
  Phase, idle, checked, blocked, stuck, OpLoop, capacity, start, enqueue, close_chan, check,
  process, begin_send, hand_over, recover, Step, enqueues, closes, processes, begins, hands_over,
  recovers, Reach, here, next,
}

-- The values among the operations.
abbrev pub sends : List PendingOperation → List String
sends [] = []
sends (send v ∷ ops) = v ∷ sends ops
sends (close pth qry ∷ ops) = sends ops

abbrev pub in_flight : Phase → List String
in_flight idle = []
in_flight (checked v) = v ∷ []
in_flight (blocked v) = v ∷ []
in_flight (stuck v) = v ∷ []

pub sends-append : (xs ys : List PendingOperation) → sends (xs ++ ys) ≡ sends xs ++ sends ys
sends-append [] ys = refl
sends-append (send v ∷ xs) ys = ap (◌∷◌ v) (sends-append xs ys)
sends-append (close p q ∷ xs) ys = sends-append xs ys

pub record IsFifo (s : OpLoop) : Type 0 where
  pub order :
      sends s.enqueued ≡ s.received ++ (s.dropped ++ (in_flight s.phase ++ sends s.watch.oper_chan))
  pub kept : s.closed ≡ false → s.dropped ≡ []
  pub open_chan : s.closed ≡ false → s.watch.update_chan ≢ none
  pub unstuck : (v : String) → s.closed ≡ false → s.phase ≢ stuck v
  pub bounded : length s.watch.oper_chan ≤ capacity

ruleset lists = (append_assoc, append-nil)

enqueue-IsFifo :
    (s : OpLoop) (op : PendingOperation)
    → length s.watch.oper_chan < capacity
    → IsFifo s
    → IsFifo (enqueue s op)
unfolding enqueue
enqueue-IsFifo s op lt h = record {
  order = simp (sends-append, h.order, append_assoc);
  kept = h.kept;
  open_chan = h.open_chan;
  unstuck = h.unstuck;
  bounded = omega (arith, length-append s.watch.oper_chan (op ∷ []));
}

check-IsFifo :
    (s : OpLoop) (v : String) (rest : List PendingOperation)
    → s.phase ≡ idle
    → s.watch.oper_chan ≡ send v ∷ rest
    → IsFifo s
    → IsFifo (process s (send v) rest)
unfolding process check
check-IsFifo s v rest i q h = elim (Option-cases s.watch.update_chan) [
  | inl n ↦
      let o = rw (i, q) at h.order in
      let b = rw q at h.bounded in
      rw n (record {
        order = simp (o, i, append_assoc);
        kept = λ k. absurd (h.open_chan k n);
        open_chan = λ k. absurd (h.open_chan k n);
        unstuck = h.unstuck;
        bounded = omega arith;
      })
  | inr (c, n) ↦
      let o = rw (i, q) at h.order in
      let b = rw q at h.bounded in
      rw n (record {
        order = o;
        kept = h.kept;
        open_chan = λ k z. ground arith;
        unstuck = λ w k z. ground arith;
        bounded = omega arith;
      })
]

close-IsFifo :
    (s : OpLoop) (pth qry : String) (rest : List PendingOperation)
    → s.phase ≡ idle
    → s.watch.oper_chan ≡ close pth qry ∷ rest
    → IsFifo s
    → IsFifo (process s (close pth qry) rest)
unfolding process
close-IsFifo s pth qry rest i q h =
    let o = rw q at h.order in
    let b = rw q at h.bounded in
    record {
      order = o;
      kept = h.kept;
      open_chan = h.open_chan;
      unstuck = h.unstuck;
      bounded = omega arith;
    }

close_chan-IsFifo : (s : OpLoop) → IsFifo s → IsFifo (close_chan s)
unfolding close_chan
close_chan-IsFifo s h = record {
  order = h.order;
  kept = λ k. cc;
  open_chan = λ k. cc;
  unstuck = λ v k. cc;
  bounded = h.bounded;
}

begin_send-IsFifo :
    (s : OpLoop) (v : String) (c : Option ℕ)
    → s.phase ≡ checked v
    → s.watch.update_chan ≡ c
    → IsFifo s
    → IsFifo (begin_send s c v)
unfolding begin_send
begin_send-IsFifo s v none i e h = record {
  order = rw i at h.order;
  kept = h.kept;
  open_chan = h.open_chan;
  unstuck = λ w k z. h.open_chan k e;
  bounded = h.bounded;
}
begin_send-IsFifo s v (some c) i e h = record {
  order = rw i at h.order;
  kept = h.kept;
  open_chan = h.open_chan;
  unstuck = λ w k z. ground arith;
  bounded = h.bounded;
}

hand_over-IsFifo :
    (s : OpLoop) (v : String)
    → s.phase ≡ blocked v
    → s.closed ≡ false
    → IsFifo s
    → IsFifo (hand_over s v)
unfolding hand_over
hand_over-IsFifo s v i o h =
    let e = rw (i, h.kept o) at h.order in
    record {
      order = simp (e, h.kept o, append_assoc);
      kept = h.kept;
      open_chan = h.open_chan;
      unstuck = λ w k z. ground arith;
      bounded = h.bounded;
    }

recover-IsFifo :
    (s : OpLoop) (v : String)
    → s.phase ≡ blocked v
    → s.closed ≡ true
    → IsFifo s
    → IsFifo (recover s v)
unfolding recover
recover-IsFifo s v i o h =
    let e = rw i at h.order in
    record {
      order = simp (e, append_assoc);
      kept = λ k. absurd (ground (arith, o, k));
      open_chan = h.open_chan;
      unstuck = λ w k z. ground arith;
      bounded = h.bounded;
    }

Step-IsFifo : {s t : OpLoop} → Step s t → IsFifo s → IsFifo t
Step-IsFifo (enqueues s op lt) h = enqueue-IsFifo s op lt h
Step-IsFifo (closes s c e) h = close_chan-IsFifo s h
Step-IsFifo (processes s (send v) rest i q) h = check-IsFifo s v rest i q h
Step-IsFifo (processes s (close pth qry) rest i q) h = close-IsFifo s pth qry rest i q h
Step-IsFifo (begins s v i) h = begin_send-IsFifo s v s.watch.update_chan i refl h
Step-IsFifo (hands_over s v i o) h = hand_over-IsFifo s v i o h
Step-IsFifo (recovers s v i o) h = recover-IsFifo s v i o h

start-IsFifo :
    (q : QueryWatch) (c : ℕ)
    → q.update_chan ≡ some c
    → length q.oper_chan ≤ capacity
    → IsFifo (start q)
unfolding start
start-IsFifo q c e b = record {
  order = refl;
  kept = λ k. refl;
  open_chan = λ k. ground arith;
  unstuck = λ w k z. ground arith;
  bounded = b;
}

pub reached :
    (q : QueryWatch) (c : ℕ)
    → q.update_chan ≡ some c
    → length q.oper_chan ≤ capacity
    → {s : OpLoop} → Reach (start q) s
    → IsFifo s
reached q c e b here = start-IsFifo q c e b
reached q c e b (next r st) = Step-IsFifo st (reached q c e b r)

-- However opLoop, the strategy and the receiver interleave, the values put into the buffer are, in
-- order, those received, those given up, the one being sent and those in the buffer; none is given
-- up, and the thread is not stuck, unless the update channel was closed; and the buffer holds at
-- most its capacity.
pub Reach-IsFifo :
    (q : QueryWatch) (c : ℕ) (s : OpLoop)
    → q.update_chan ≡ some c
    → length q.oper_chan ≤ capacity
    → Reach (start q) s
    → (sends s.enqueued
        ≡ s.received ++ (s.dropped ++ (in_flight s.phase ++ sends s.watch.oper_chan)))
      × ((s.closed ≡ true) ⊎ ((s.dropped ≡ []) × ((v : String) → s.phase ≢ stuck v)))
      × (length s.watch.oper_chan ≤ capacity)
Reach-IsFifo q c s e b r =
    let h = reached q c e b r in
    (
      h.order,
      elim (Bool-cases s.closed) [ inl k ↦ inl k | inr k ↦ inr (h.kept k, λ v. h.unstuck v k) ],
      h.bounded,
    )
