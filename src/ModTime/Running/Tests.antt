-- ===== src/ModTime/Running/Tests.antt =====
-- A file that appears while its monitor runs.
use hotload.Prelude.{◌≡◌, refl, [], ◌∷◌, All}
use hotload.State.{bad_conn, ok, err}
use hotload.Registry.{returns}
use hotload.ModTime.{
  StatFs, new_mod_time_monitor, new_default_options, apply_options, apply_option, with_err_logger,
}
use hotload.ModTime.Running.{cancels, ticks, adds, Running, run, started}
use hotload.ModTime.Running.Genuine.{Genuine}
use hotload.ModTime.Running.Returning.{run-Genuine}

-- The first Stat fails, and any later one answers 7.
abbrev appearing : StatFs
appearing [] name = err bad_conn
appearing (c ∷ cs) name = ok 7

run-Genuine_example :
    (s : Running) × (run
        (started appearing (with_err_logger ∷ []))
        (adds "fsnotify" "/a" ∷ ticks 8 ∷ ticks 9 ∷ cancels ∷ ticks 10 ∷ [])
      ≡ returns s)
    × All (Genuine s.monitor.stat_fs s.monitor.stat_calls) s.monitor.paths
unfolding new_mod_time_monitor new_default_options apply_options apply_option
run-Genuine_example =
    run-Genuine appearing (with_err_logger ∷ [])
      (adds "fsnotify" "/a" ∷ ticks 8 ∷ ticks 9 ∷ cancels ∷ ticks 10 ∷ []) refl
