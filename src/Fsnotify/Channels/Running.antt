-- ===== src/Fsnotify/Channels/Running.antt =====
-- fsnotify/filewatcher.go: the operations of a strategy in any sequence, and Close at the end.
use hotload.Prelude.{
  if◌then◌else◌, entries, ltb, ℕ, ◌+◌, ◌≤◌, ◌≡◌, ◌⊎◌, refl, String, Option, none, some, List, [],
  ◌∷◌, arith, lookup, count, inl, inr, Option-cases,
}
use hotload.Registry.{Outcome, returns, panics}
use hotload.Fsnotify.Close.{
  close_paths, close_queries, close_strategy, close_update_chan, process_watch_closure,
  stop_watcher,
}
use hotload.Fsnotify.{
  Environment, QueryWatch, PathWatch, Strategy, find_path, close_watch, watch, new_strategy,
}
use hotload.Fsnotify.Loop.{refresh}
use hotload.Fsnotify.Channels.{chan_total, sum, is_nil, is_chan, Sound, IsSound, Sound-once}
use hotload.Fsnotify.Channels.Steps.{Keeps, close_watch-Keeps, refresh-Keeps}
use hotload.Fsnotify.Channels.Closures.{found-chan, process_watch_closure-Keeps}
use hotload.Fsnotify.Channels.Watching.{watch-Answers}

-- What happens to a strategy: calls of Watch and CloseWatch, resyncs of runLoop with their setVal,
-- and closures by some opLoop.
pub data Operation : Type 0 where
  watches closes_watch processes_closure : String → String → Operation
  refreshes : String → Operation

unfoldable pub apply : Strategy → Operation → Outcome Strategy
unfolding watch close_watch process_watch_closure refresh
apply s (watches pth qry) = elim (watch s pth qry) [ panics ↦ panics | returns x ↦ returns x.0 ]
apply s (closes_watch pth qry) = close_watch s pth qry
apply s (processes_closure pth qry) = process_watch_closure s pth qry
apply s (refreshes pth) = elim (refresh s pth) [ panics ↦ panics | returns x ↦ returns x.0 ]

unfoldable pub apply_all : Strategy → List Operation → Outcome Strategy
unfolding apply
apply_all s [] = returns s
apply_all s (o ∷ os) = elim (apply s o) [ panics ↦ panics | returns t ↦ apply_all t os ]

apply-Keeps : (s : Strategy) (o : Operation) → IsSound s → Keeps (apply s o)
unfolding apply
apply-Keeps s (watches pth qry) h =
    let (t, a, e, k) = watch-Answers s pth qry h in (t, ground (arith, e), k)
apply-Keeps s (closes_watch pth qry) h = close_watch-Keeps s pth qry h
apply-Keeps s (processes_closure pth qry) h = process_watch_closure-Keeps s pth qry h
apply-Keeps s (refreshes pth) h =
    let (t, fixed, e, k) = refresh-Keeps s pth h in (t, ground (arith, e), k)

apply_all-Keeps : (s : Strategy) (os : List Operation) → IsSound s → Keeps (apply_all s os)
unfolding apply_all
apply_all-Keeps s [] h = (s, refl, h)
apply_all-Keeps s (o ∷ os) h =
    let (t, e, k) = apply-Keeps s o h in
    let (u, e', k') = apply_all-Keeps t os k in (u, ground (arith, e, e'), k')

new_strategy-IsSound : (env : Environment) → IsSound (new_strategy env)
unfolding new_strategy count entries
new_strategy-IsSound env = (
  [],
  refl,
  record {
    keyed = record { paths = λ k. omega arith; queries = tt };
    no_nil = refl;
    exact = λ c. ground arith;
    watched = λ k. refl;
  },
)

-- The channels of the queries are open, and of one query each.
close_queries-returns :
    (s : Strategy) (qs : List (String × QueryWatch))
    → chan_total is_nil qs ≡ 0
    → ((c : ℕ) → chan_total (is_chan c) qs + count c s.closed ≤ 1)
    → (t : Strategy) × (close_queries s qs ≡ returns t)
      × ((c : ℕ) → count c t.closed ≡ chan_total (is_chan c) qs + count c s.closed)
unfolding close_queries close_update_chan count
close_queries-returns s [] n once = (s, refl, λ c. omega arith)
close_queries-returns s ((k, q) ∷ qs) n once = elim (Option-cases q.update_chan) [
  | inl u ↦ absurd (omega (arith, rw u at n))
  | inr (c, u) ↦
      let s' = record s { closed = c ∷ s.closed } in
      let first = rw u at (once c) in
      let one : close_update_chan s q ≡ returns s' = ground (arith, u, first) in
      let (t, e, k) =
        close_queries-returns s' qs (omega (arith, n))
          (λ d. let o = rw u at (once d) in omega (arith, o)) in
      (t, ground (arith, one, e), λ d. rw u (grind (arith, k d)))
]

close_paths-returns :
    (s : Strategy) (m : List (String × PathWatch))
    → sum is_nil m ≡ 0
    → ((c : ℕ) → sum (is_chan c) m + count c s.closed ≤ 1)
    → (t : Strategy) × (close_paths s m ≡ returns t)
      × ((c : ℕ) → count c t.closed ≡ sum (is_chan c) m + count c s.closed)
unfolding close_paths
close_paths-returns s [] n once = (s, refl, λ c. omega arith)
close_paths-returns s ((k, w) ∷ m) n once =
    let (t, e, h) =
      close_queries-returns s w.queries (omega (arith, n)) (λ c. omega (arith, once c)) in
    let (u, e', h') =
      close_paths-returns t m (omega (arith, n)) (λ c. omega (arith, once c, h c)) in
    (u, ground (arith, e, e'), λ c. omega (arith, h c, h' c))

close_strategy-returns :
    (s : Strategy) (m : List (String × PathWatch))
    → s.paths ≡ some m
    → Sound m s.closed s.next_chan s.has_watcher
    → (t : Strategy) × (close_strategy s ≡ returns t)
      × ((c : ℕ) → count c t.closed ≡ sum (is_chan c) m + count c s.closed)
unfolding close_strategy stop_watcher
close_strategy-returns s m p h =
    let same : (stop_watcher s).closed ≡ s.closed = ground arith in
    let once : (c : ℕ) → sum (is_chan c) m + count c (stop_watcher s).closed ≤ 1 =
      rw same (Sound-once h) in
    let (t, e, k) = close_paths-returns (stop_watcher s) m h.no_nil once in
    (record t { paths = none }, ground (arith, p, e), rw same at k)

-- The update channel that a watched query has.
unfoldable pub query_chan : Strategy → String → String → Option (Option ℕ)
query_chan s pth qry = elim (find_path s pth) [
  | none ↦ none
  | some w ↦ elim (lookup qry w.queries) [ none ↦ none | some q ↦ some q.update_chan ]
]

-- A watched query has a channel, which is not closed, and which Close closes.
query_chan-open :
    (s t : Strategy) (pth qry : String) (m : List (String × PathWatch))
    → s.paths ≡ some m
    → Sound m s.closed s.next_chan s.has_watcher
    → ((c : ℕ) → count c t.closed ≡ sum (is_chan c) m + count c s.closed)
    → (query_chan s pth qry ≡ none)
      ⊎ ((c : ℕ) × (query_chan s pth qry ≡ some (some c))
          × (count c s.closed ≡ 0)
          × (count c t.closed ≡ 1))
unfolding query_chan
query_chan-open s t pth qry m p h k = elim (Option-cases (find_path s pth)) [
  | inl f ↦ inl (ground (arith, f))
  | inr (w, f) ↦ elim (Option-cases (lookup qry w.queries)) [
    | inl l ↦ inl (ground (arith, f, l))
    | inr (q, l) ↦
        let (c, u, heavy) = found-chan pth qry w q m (rw p at f) l h in
        inr (
          c,
          ground (arith, f, l, u),
          omega (arith, Sound-once h c, heavy),
          omega (arith, k c, Sound-once h c, heavy),
        )
  ]
]

-- Any calls of Watch and CloseWatch, resyncs and closures on a new strategy, in any order and
-- whatever the watcher and the files answer, end without a panic, and so does a Close after them.
-- Each channel that a Watch ever made has then been closed exactly once. A query that is watched
-- before the Close has a channel, which is open until the Close.
pub apply_all-closes :
    (env : Environment) (os : List Operation) (pth qry : String) (c : ℕ)
    → (t u : Strategy) × (apply_all (new_strategy env) os ≡ returns t)
      × (close_strategy t ≡ returns u)
      × (count c u.closed ≡ (if ltb c t.next_chan then 1 else 0))
      × ((query_chan t pth qry ≡ none)
          ⊎ ((d : ℕ) × (query_chan t pth qry ≡ some (some d))
              × (count d t.closed ≡ 0)
              × (count d u.closed ≡ 1)))
apply_all-closes env os pth qry c =
    let (t, e, (m, p, h)) = apply_all-Keeps (new_strategy env) os (new_strategy-IsSound env) in
    let (u, e', k) = close_strategy-returns t m p h in
    (t, u, e, e', omega (arith, k c, h.exact c), query_chan-open t u pth qry m p h k)
