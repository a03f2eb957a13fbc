-- ===== src/Fsnotify/Channels/Tests.antt =====
-- Watched files: two queries of one, one of which is closed twice and watched again in between.
use hotload.Prelude.{
  ltb, if◌then◌else◌, ℕ, ◌≡◌, ◌⊎◌, refl, true, false, In, IsDistinct, none, some, List, [], ◌∷◌,
  count, lookup, insert, erase,
}
use hotload.State.{ok}
use hotload.Registry.{Outcome, returns, panics}
use hotload.Fsnotify.Close.{close_strategy, process_watch_closure}
use hotload.PathChksum.{clean_path, is_enabled}
use hotload.Fsnotify.Channels.Labels.{apply_all-labels}
use hotload.Fsnotify.{
  Environment, Strategy, QueryWatch, PathWatch, add, construct, find_path, new_strategy, watch,
  close_watch,
}
use hotload.Fsnotify.Channels.Running.{
  Operation, watches, closes_watch, processes_closure, refreshes, apply, apply_all, query_chan,
  apply_all-closes,
}

abbrev files : Environment
files = record {
  failure = λ calls k. none;
  is_non_existent_watch = λ e. false;
  chksum_enable = "yes";
  read_file = λ calls pth. ok "dsn\n";
}

abbrev history : List Operation
history =
    watches "/a" "q"
    ∷ watches "/a" "r"
    ∷ closes_watch "/a" "q"
    ∷ closes_watch "/a" "q"
    ∷ processes_closure "/a" "q"
    ∷ watches "/a" "q"
    ∷ refreshes "/a"
    ∷ []

apply_all-closes_example :
    (t u : Strategy) × (apply_all (new_strategy files) history ≡ returns t)
    × (close_strategy t ≡ returns u)
    × (count 2 u.closed ≡ (if ltb 2 t.next_chan then 1 else 0))
    × ((query_chan t "/a" "q" ≡ none)
        ⊎ ((d : ℕ) × (query_chan t "/a" "q" ≡ some (some d))
            × (count d t.closed ≡ 0)
            × (count d u.closed ≡ 1)))
apply_all-closes_example = apply_all-closes files history "/a" "q" 2

abbrev closed_after : List Operation → Outcome (List ℕ)
closed_after os = elim (apply_all (new_strategy files) os) [
  | panics ↦ panics
  | returns t ↦ returns t.closed
]

-- The second close, which was meant for the first watch, ends the new one.
stale_close :
    closed_after (
      watches "/a" "q"
      ∷ closes_watch "/a" "q"
      ∷ closes_watch "/a" "q"
      ∷ processes_closure "/a" "q"
      ∷ watches "/a" "q"
      ∷ processes_closure "/a" "q"
      ∷ [])
    ≡ returns (1 ∷ 0 ∷ [])
unfolding apply_all apply new_strategy watch close_watch process_watch_closure lookup insert erase
    count
stale_close = refl

abbrev watched_query : QueryWatch
watched_query = record { path_query = "q"; update_chan = some 0; oper_chan = [] }

abbrev watched_path : PathWatch
watched_path = record { watch_path = "/a"; value = "dsn"; queries = ("q", watched_query) ∷ [] }

abbrev watched : Strategy
watched = record {
  env = files;
  paths = some (("/a", watched_path) ∷ []);
  has_watcher = true;
  calls = add "/a" ∷ construct ∷ [];
  next_chan = 1;
  closed = [];
  loops = 1;
  op_loops = 1;
  chksum = record {
    enabled = true;
    paths = ("/a", record { path = "/a"; crc64 = 0; last_changed = 0 }) ∷ [];
    registered = "/a" ∷ [];
  };
}

apply_all-labels_example :
    IsDistinct watched.chksum.registered
    × ((find_path watched "/a" ≡ none)
        ⊎ ((is_enabled "yes" ≡ false) ⊎ In (clean_path "/a") watched.chksum.registered))
unfolding apply_all apply new_strategy watch lookup insert erase
apply_all-labels_example =
    apply_all-labels files (watches "/a" "q" ∷ watches "/a" " q " ∷ []) watched "/a" refl
