-- ===== src/EndToEnd/AllGroups.antt =====
-- setVal's values on their way to the groups of all queries: fsnotify/filewatcher.go with its mutex,
-- and driver.go's runLoop of each group.
use hotload.Prelude.{
  AllBelow, AllBelow-intro, AllBelow-elim, ℕ, suc, ◌+◌, ◌<◌, ◌≤◌, ◌≡◌, refl, ◌∙◌, String, false,
  some, List, [], ◌∷◌, ◌++◌, All, All-In, In, inl, inr, if◌then◌else◌, str_eq, arith,
}
use hotload.State.{State}
use hotload.ChanGroup.{run_loop, process_new_value}
use hotload.ChanGroup.Reporting.{changes, last_value, run_loop-Reports}
use hotload.Fsnotify.{send, QueryWatch}
use hotload.Fsnotify.OpLoop.{OpLoop}
use hotload.Fsnotify.OpLoop.Fifo.{sends, sends-append}
use hotload.Fsnotify.Locking.{System, free, sending, new_system, Works, SetVal, Runs}
use hotload.Fsnotify.Locking.Measure.{measure}
use hotload.Fsnotify.Locking.Delivering.{Delivered, Runs-Call, set_vals-Delivered}
use hotload.Fsnotify.Locking.Kept.{Runs-IsKept}
use hotload.Fsnotify.Locking.Carrying.{PutLast, call-Carries, Carries-PutLast, Works-Carries}
use hotload.EndToEnd.{arrivals}

-- The last of the values, or `v` without one.
unfoldable pub last_sent : String → List String → String
last_sent v [] = v
last_sent v (w ∷ ws) = last_sent w ws

-- How many of the values differ from the one before them, the first from `v`.
unfoldable pub differing : String → List String → ℕ
differing v [] = 0
differing v (w ∷ ws) = (if str_eq w v then 0 else 1) + differing w ws

last_sent-append : (v : String) (ws : List String) (w : String) → last_sent v (ws ++ (w ∷ [])) ≡ w
unfolding last_sent
last_sent-append v [] w = refl
last_sent-append v (x ∷ ws) w = last_sent-append x ws w

PutLast-last_sent : (x v : String) (t : OpLoop) → PutLast v t → last_sent x (sends t.enqueued) ≡ v
PutLast-last_sent x v t (earlier, p) =
    rw (p, sends-append earlier (send v ∷ [])) (last_sent-append x (sends earlier) v)

below : (n i : ℕ) (is : List ℕ) → All (λ j. j < n) is → In i is → i < n
below n i [] a m = elim m [ ]
below n i (j ∷ is) a (inl e) = rw e a.0
below n i (j ∷ is) a (inr m) = below n i is a.1 m

module _ (redact : String → String) (clock : ℕ → ℕ) where
  arrivals-value :
      (v : String) (n : ℕ) (vs : List String)
      → last_value v (arrivals redact clock n vs) ≡ last_sent v vs
  unfolding last_value arrivals last_sent
  arrivals-value v n [] = refl
  arrivals-value v n (w ∷ ws) = arrivals-value w (suc n) ws

  arrivals-changes :
      (v : String) (n : ℕ) (vs : List String)
      → changes v (arrivals redact clock n vs) ≡ differing v vs
  unfolding changes arrivals differing
  arrivals-changes v n [] = refl
  arrivals-changes v n (w ∷ ws) = omega (arith, arrivals-changes w (suc n) ws)

  arrivals-going_on :
      (n : ℕ) (vs : List String) (g : State) → (run_loop g (arrivals redact clock n vs)).1 ≡ false
  unfolding run_loop arrivals
  arrivals-going_on n [] g = refl
  arrivals-going_on n (v ∷ vs) g =
      arrivals-going_on (suc n) vs (process_new_value g v (redact v) (clock n))

  -- The query's thread waits with an empty buffer, and its group, once it has taken in all that it
  -- received, goes on, has the last value put into the buffer and has counted each change.
  pub record Informed (g : State) (t : OpLoop) : Type 0 where
    pub at_rest : Delivered t
    pub goes_on : (run_loop g (arrivals redact clock 0 t.received)).1 ≡ false
    pub last_known :
        (run_loop g (arrivals redact clock 0 t.received)).0.group.value
        ≡ last_sent g.group.value (sends t.enqueued)
    pub counted :
        (run_loop g (arrivals redact clock 0 t.received)).0.change_total
        ≡ g.change_total + differing g.group.value (sends t.enqueued)

  Delivered-Informed : (g : State) (t : OpLoop) → Delivered t → Informed g t
  Delivered-Informed g t d =
      let (total, time, value) = run_loop-Reports g (arrivals redact clock 0 t.received) in
      record {
        at_rest = d;
        goes_on = arrivals-going_on 0 t.received g;
        last_known = rw (← d.all_received) (value ∙ arrivals-value g.group.value 0 t.received);
        counted =
            rw (← d.all_received)
              (omega (arith, total, arrivals-changes g.group.value 0 t.received));
      }

  -- Calls of setVal and moves, and how they end.
  set_vals-Informed :
      (n : ℕ) (q : ℕ → QueryWatch) (c : ℕ → ℕ) (g : ℕ → State) (s : System) (k : ℕ) (t : System)
      → ((i : ℕ) → (q i).update_chan ≡ some (c i))
      → ((i : ℕ) → (q i).oper_chan ≡ [])
      → Runs n (SetVal n) (new_system q) s
      → Works n s k t
      → (j : ℕ) × (u : System) × Works n t j u
        × (k + j ≤ measure n s)
        × (u.lock ≡ free)
        × AllBelow n (λ i. Informed (g i) (u.thread i))
  set_vals-Informed n q c g s k t chans empty r w =
      let (j, u, v, le, f, d) = set_vals-Delivered n q c s k t chans empty r w in
      (
        j,
        u,
        v,
        le,
        f,
        AllBelow-intro n (λ i l.
            Delivered-Informed (g i) (u.thread i)
              (AllBelow-elim n i (λ x. Delivered (u.thread x)) d l)),
      )

  -- While a call of setVal for some queries has the mutex, after whatever calls of setVal and moves
  -- from new queries with open channels: unless there is another call, there are at most as many
  -- moves as the measure says, and wherever they have led, they can go on until the mutex is free,
  -- every query's thread waits with an empty buffer, and the group of each query of the call, once
  -- it has taken in what was received, has the call's value. Each query's group then goes on, has
  -- the last value put into the buffer, and its hotload_change_total has grown by the number of
  -- values put into it that differ from the one before.
  pub sending-reaches_groups :
      (n : ℕ) (q : ℕ → QueryWatch) (c : ℕ → ℕ) (g : ℕ → State) (v : String) (is : List ℕ)
      (s : System) (k : ℕ) (t : System)
      → ((i : ℕ) → (q i).update_chan ≡ some (c i))
      → ((i : ℕ) → (q i).oper_chan ≡ [])
      → Runs n (SetVal n) (new_system q) s
      → s.lock ≡ sending (send v) is
      → Works n s k t
      → (j : ℕ) × (u : System) × Works n t j u
        × (k + j ≤ measure n s)
        × (u.lock ≡ free)
        × All
            (λ i.
              (run_loop (g i) (arrivals redact clock 0 (u.thread i).received)).0.group.value ≡ v)
            is
        × AllBelow n (λ i. Informed (g i) (u.thread i))
  sending-reaches_groups n q c g v is s k t chans empty r l w =
      let (j, u, x, le, f, d) = set_vals-Informed n q c g s k t chans empty r w in
      let kept = Runs-IsKept n q (Runs-Call n (new_system q) r) in
      let put : (i : ℕ) → In i is → PutLast v (u.thread i) = λ i m.
        Carries-PutLast v i u f
          (Works-Carries n v i x (Works-Carries n v i w (call-Carries v i is s l m))) in
      (
        j,
        u,
        x,
        le,
        f,
        All-In is (λ i m.
            (AllBelow-elim n i (λ x. Informed (g x) (u.thread x)) d
              (below n i is (kept.in_range (send v) is l) m)).last_known
            ∙ PutLast-last_sent (g i).group.value v (u.thread i) (put i m)),
        d,
      )
