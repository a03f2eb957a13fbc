-- ===== src/Fsnotify/Close.antt =====
-- fsnotify/filewatcher.go: how a query's channel is closed, by its opLoop and by Close. The mutex is
-- held for the whole of each operation that takes it.
use hotload.Prelude.{
  String, false, none, some, List, [], ◌∷◌, lookup, erase, count, if◌then◌else◌, ltb,
}
use mathlib.Core.Option
use hotload.Registry.{Outcome, returns, panics}
use hotload.Fsnotify.{
  close_watcher, remove, QueryWatch, PathWatch, Strategy, call_watcher, find_path, put_path,
}

-- `close(qw.updateChan)`: closing a nil channel, or one that is closed already, panics.
unfoldable pub close_update_chan : Strategy → QueryWatch → Outcome Strategy
unfolding count
close_update_chan s q = elim q.update_chan [
  | none ↦ panics
  | some c ↦
      if ltb 0 (count c s.closed) then panics else returns (record s { closed = c ∷ s.closed })
]

-- The end of processWatchClosure: a path with no query left is no longer watched.
unfoldable pub drop_path : Strategy → String → PathWatch → Outcome Strategy
drop_path s pth w = elim w.queries [
  | q ∷ qs ↦ put_path s pth w
  | [] ↦
      if s.has_watcher
      then returns
          (record (call_watcher s (remove pth)).0 { paths = Option.map (erase pth) s.paths })
      else panics
]

-- `processWatchClosure`; opLoop, its caller, drops the error of the watcher's Remove.
unfoldable pub process_watch_closure : Strategy → String → String → Outcome Strategy
unfolding close_update_chan drop_path
process_watch_closure s pth qry = elim (find_path s pth) [
  | none ↦ returns s
  | some w ↦ elim (lookup qry w.queries) [
    | none ↦ drop_path s pth w
    | some q ↦ elim (close_update_chan s q) [
      | panics ↦ panics
      | returns s' ↦ drop_path s' pth (record w { queries = erase qry w.queries })
    ]
  ]
]

-- The loops of Close over the queries of a path, and over the paths.
unfoldable pub close_queries : Strategy → List (String × QueryWatch) → Outcome Strategy
unfolding close_update_chan
close_queries s [] = returns s
close_queries s ((k, q) ∷ qs) = elim (close_update_chan s q) [
  | panics ↦ panics
  | returns s' ↦ close_queries s' qs
]

unfoldable pub close_paths : Strategy → List (String × PathWatch) → Outcome Strategy
unfolding close_queries
close_paths s [] = returns s
close_paths s ((k, w) ∷ ws) = elim (close_queries s w.queries) [
  | panics ↦ panics
  | returns s' ↦ close_paths s' ws
]

-- The first part of Close.
unfoldable pub stop_watcher : Strategy → Strategy
stop_watcher s =
    if s.has_watcher then record s { calls = close_watcher ∷ s.calls; has_watcher = false } else s

-- `Close`. A loop over a nil map does nothing.
unfoldable pub close_strategy : Strategy → Outcome Strategy
unfolding stop_watcher close_paths
close_strategy s = elim (close_paths (stop_watcher s) (elim s.paths [ none ↦ [] | some m ↦ m ])) [
  | panics ↦ panics
  | returns t ↦ returns (record t { paths = none })
]
