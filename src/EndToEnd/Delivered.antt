-- ===== src/EndToEnd/Delivered.antt =====
-- What the group makes of the values that its query's thread sends.
use hotload.Prelude.{
  ℕ, suc, ◌<◌, ◌≤◌, ◌≡◌, refl, sym, ◌∙◌, String, true, false, some, List, [], ◌∷◌, ◌++◌, length,
  All, arith, lookup, eq_iff,
}
use mathlib.Core.List.{append-nil}
use hotload.State.{State, ok}
use hotload.Registry.{returns}
use hotload.ChanGroup.{process_new_value, run_loop}
use hotload.ChanGroup.Reporting.{process_new_value-Reported}
use hotload.Fsnotify.{send, QueryWatch, PathWatch, find_path, resync}
use hotload.Fsnotify.Delivery.{event-delivers, delivered, failed}
use hotload.Fsnotify.Loop.{Loop, event, turn}
use hotload.Fsnotify.OpLoop.{OpLoop, idle, start, enqueue, capacity, Reach, next, Step, enqueues}
use hotload.Fsnotify.OpLoop.Fifo.{sends, sends-append, reached}
use hotload.Fsnotify.OpLoop.Draining.{Sends, Sends-snoc, Reach-drains}
use hotload.EndToEnd.{arrivals}

-- What the turn of runLoop puts into the buffer of a query.
turn-enqueue :
    (l : Loop) (pth qry val : String) (w : PathWatch) (s : OpLoop)
    → l.strategy.has_watcher ≡ true
    → find_path l.strategy pth ≡ some w
    → (resync l.strategy pth).1 ≡ ok val
    → lookup qry w.queries ≡ some s.watch
    → (k : Loop) × (w' : PathWatch) × (turn l (event pth true) ≡ returns k)
      × (k.returned ≡ l.returned)
      × (find_path k.strategy pth ≡ some w')
      × (w'.value ≡ val)
      × (lookup qry w'.queries ≡ some ((enqueue s (send val)).watch))
unfolding enqueue
turn-enqueue l pth qry val w s h f r q =
    let (k, fixed, w', e, back, d, others, retry) = event-delivers l pth pth w h f in
    elim d [
      | failed x y z z' ↦ absurd (ground (arith, r, y))
      | delivered v y z m z' ↦
          let same : val ≡ v = ground (arith, r, y) in
          (
            k,
            w',
            e,
            back,
            ground (arith, others, eq_iff pth pth),
            z ∙ sym same,
            m qry ∙ rw (q, same) refl,
          )
    ]

module _ (redact : String → String) (clock : ℕ → ℕ) where
  run_loop-last :
      (g : State) (n : ℕ) (vs : List String) (v : String)
      → ((run_loop g (arrivals redact clock n (vs ++ (v ∷ [])))).0.group.value ≡ v)
        × ((run_loop g (arrivals redact clock n (vs ++ (v ∷ [])))).1 ≡ false)
  unfolding run_loop arrivals
  run_loop-last g n [] v = ((process_new_value-Reported g v (redact v) (clock n)).value_now, refl)
  run_loop-last g n (x ∷ vs) v =
      run_loop-last (process_new_value g x (redact x) (clock n)) (suc n) vs v

  -- However the threads interleave: whenever opLoop waits with an empty buffer and an open channel,
  -- the group that has taken in all that it received goes on, and holds the last value put into the
  -- buffer.
  pub at_rest-value :
      (q : QueryWatch) (c : ℕ) (s : OpLoop) (g : State) (vs : List String) (v : String)
      → q.update_chan ≡ some c
      → length q.oper_chan ≤ capacity
      → Reach (start q) s
      → s.phase ≡ idle
      → s.closed ≡ false
      → s.watch.oper_chan ≡ []
      → sends s.enqueued ≡ vs ++ (v ∷ [])
      → let (t, returned) = run_loop g (arrivals redact clock 0 s.received) in
        (t.group.value ≡ v) × (returned ≡ false)
  at_rest-value q c s g vs v e b r i o em k =
      let h = reached q c e b r in
      let order = rw (i, h.kept o, em) at h.order in
      rw (sym (append-nil s.received) ∙ sym order ∙ k) (run_loop-last g 0 vs v)

  -- A Write or Remove of a watched path whose file can be read: the turn of runLoop does not panic
  -- and does not end the loop, and the path has the file's value. If a query's channel is open, its buffer holds only values and has room for one
  -- more, that turn enqueues the file's value for it. Wherever the query's opLoop is, it can then go
  -- on until its receiver has every value enqueued before and then the file's value, in order, and a
  -- group that has taken in all that was received has the file's value.
  pub event-reaches_group :
      (l : Loop) (pth qry val : String) (w : PathWatch) (q : QueryWatch) (c : ℕ) (s : OpLoop)
      (g : State)
      → l.strategy.has_watcher ≡ true
      → find_path l.strategy pth ≡ some w
      → (resync l.strategy pth).1 ≡ ok val
      → q.update_chan ≡ some c
      → length q.oper_chan ≤ capacity
      → Reach (start q) s
      → lookup qry w.queries ≡ some s.watch
      → s.closed ≡ false
      → All Sends s.watch.oper_chan
      → length s.watch.oper_chan < capacity
      → (k : Loop) × (w' : PathWatch) × (t : OpLoop) × (turn l (event pth true) ≡ returns k)
        × (k.returned ≡ l.returned)
        × (find_path k.strategy pth ≡ some w')
        × (w'.value ≡ val)
        × (lookup qry w'.queries ≡ some ((enqueue s (send val)).watch))
        × Step s (enqueue s (send val))
        × Reach (enqueue s (send val)) t
        × (t.received ≡ sends s.enqueued ++ (val ∷ []))
        × ((run_loop g (arrivals redact clock 0 t.received)).0.group.value ≡ val)
  unfolding enqueue
  event-reaches_group l pth qry val w q c s g h f r e b reach found o a lt =
      let (k, w', turned, on, path, set, put) = turn-enqueue l pth qry val w s h f r found in
      let enq : Step s (enqueue s (send val)) = enqueues s (send val) lt in
      let (t, reach', all, same, empty, waits, open_still) =
        Reach-drains q c (enqueue s (send val)) e b (next reach enq) o
          (Sends-snoc s.watch.oper_chan val a) in
      let got : t.received ≡ sends s.enqueued ++ (val ∷ []) =
        all ∙ sends-append s.enqueued (send val ∷ []) in
      (
        k,
        w',
        t,
        turned,
        on,
        path,
        set,
        put,
        enq,
        reach',
        got,
        rw got (run_loop-last g 0 (sends s.enqueued) val).0,
      )
