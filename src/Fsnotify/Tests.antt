-- ===== src/Fsnotify/Tests.antt =====
-- A watched file and its closing.
use hotload.Prelude.{◌≡◌, refl, true, false, some, none, [], ◌∷◌, lookup, insert}
use hotload.State.{ok}
use hotload.Text.{trim_space, clean}
use hotload.Registry.{returns, panics}
use hotload.PathChksum.{PathChksum}
use hotload.Fsnotify.{
  Strategy, Environment, PathWatch, QueryWatch, add, construct, close_watcher, new_strategy, watch,
}
use hotload.Prelude.{Bool, if◌then◌else◌, str_eq}
use hotload.Fsnotify.{find_path, set_val, resync, read_config_file}
use hotload.Fsnotify.{remove}
use hotload.Fsnotify.Loop.{Loop, event, events_closed, turn, event_loop, refresh, on_event}
use hotload.Fsnotify.Again.{watch-again}
use hotload.Fsnotify.Delivery.{Refreshed, event-delivers}
use hotload.Fsnotify.Watching.{Watched, watch-Watched}

abbrev one_file : Environment
one_file = record {
  failure = λ calls k. none;
  is_non_existent_watch = λ e. false;
  chksum_enable = "yes";
  read_file = λ calls pth. ok " dsn\n";
}

abbrev new_query : QueryWatch
new_query = record { path_query = "q"; update_chan = some 0; oper_chan = [] }

abbrev new_path : PathWatch
new_path = record { watch_path = "/a"; value = "dsn"; queries = ("q", new_query) ∷ [] }

abbrev chksum_of_a : PathChksum
chksum_of_a = record {
  enabled = true;
  paths = ("/a", record { path = "/a"; crc64 = 0; last_changed = 0 }) ∷ [];
  registered = "/a" ∷ [];
}

abbrev watching : Strategy
watching = record {
  env = one_file;
  paths = some (("/a", new_path) ∷ []);
  has_watcher = true;
  calls = add "/a" ∷ construct ∷ [];
  next_chan = 1;
  closed = [];
  loops = 1;
  op_loops = 1;
  chksum = chksum_of_a;
}

abbrev after_close : Strategy
after_close = record watching {
  paths = none;
  has_watcher = false;
  calls = close_watcher ∷ watching.calls;
  closed = 0 ∷ [];
}

watch-Watched_example : Watched watching (clean "//b/../a/") (trim_space " q") "dsn" (some 0)
unfolding watch new_strategy insert lookup
watch-Watched_example =
    watch-Watched (new_strategy one_file) watching "//b/../a/" " q" "dsn" (some 0) refl

watch-again_example : watch watching "/a" "q" ≡ returns (watching, ok ("dsn", some 0))
unfolding watch new_strategy insert lookup clean trim_space
watch-again_example =
    watch-again (new_strategy one_file) watching "//b/../a/" " q" "/a" "q" ("dsn", some 0) refl refl
      refl

watch_after_close : watch after_close "/a" "q" ≡ panics
unfolding watch lookup insert
watch_after_close = refl

abbrev looping : Loop
looping = record { strategy = watching; failed_paths = []; returned = false }

event-delivers_example :
    (k : Loop) × (fixed : Bool) × (w' : PathWatch) × (turn looping (event "/a" true) ≡ returns k)
    × (k.returned ≡ looping.returned)
    × Refreshed watching "/a" new_path w' fixed
    × (find_path k.strategy "/b" ≡ (if str_eq "/a" "/b" then some w' else find_path watching "/b"))
    × (lookup "/b" k.failed_paths ≡ (
        if fixed
        then lookup "/b" looping.failed_paths
        else if str_eq "/a" "/b"
        then some tt
        else lookup "/b" looping.failed_paths))
unfolding lookup
event-delivers_example = event-delivers looping "/a" "/b" new_path refl refl

abbrev added_back : Strategy
added_back = record watching { calls = add "/b" ∷ remove "/b" ∷ watching.calls }

-- An event on a path that nobody watches any more adds it to the watcher again.
unwatched_event :
    event_loop looping (event "/b" true ∷ events_closed ∷ [])
    ≡ returns (record { strategy = added_back; failed_paths = []; returned = true })
unfolding event_loop turn on_event refresh resync read_config_file set_val lookup
unwatched_event = refl
