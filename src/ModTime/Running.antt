-- ===== src/ModTime/Running.antt =====
-- modtime/modtime_monitor.go: the thread runLoop, interleaved with AddMonitoredPath.
pub mod Genuine
pub mod Returning
mod Tests
use hotload.Prelude.{
  ℕ, ◌≡◌, refl, sym, ◌∙◌, ap, subst, ◌⊎◌, inl, inr, String, Bool, true, false, none, some, List, [],
  ◌∷◌, ◌++◌, In, arith, if◌then◌else◌, Option-cases, Bool-cases,
}
use mathlib.Core.List.{append_assoc}
use hotload.State.{Error, Result, ok, err, Result-cases}
use hotload.Registry.{Outcome, Outcome-cases, returns, panics}
use hotload.ModTime.{
  PathKey, PathRecord, StatFs, ModTimeMonitor, MonitorOption, LatencySample, find_record,
  add_monitored_path, unrooted, check_record, check_records, check_path_mod_times,
  new_mod_time_monitor, new_default_options, apply_options, apply_option, with_err_logger,
  with_stat_fs, with_check_interval, clean_path,
}

-- What happens to the monitor: its context is cancelled, its ticker ticks, or a path is added.
pub data Move : Type 0 where
  cancels : Move
  ticks : ℕ → Move
  adds : String → String → Move

pub record Running : Type 0 where
  pub monitor : ModTimeMonitor
  pub returned : Bool

-- One turn of runLoop, or a call of AddMonitoredPath. Once runLoop has returned nobody takes a tick.
unfoldable pub step : Running → Move → Outcome Running
unfolding check_path_mod_times add_monitored_path
step r cancels = returns (record r { returned = true })
step r (ticks now) = if r.returned then returns r else elim (check_path_mod_times r.monitor now) [
  | panics ↦ panics
  | returns m ↦ returns (record r { monitor = m })
]
step r (adds strategy pth) =
    returns (record r { monitor = (add_monitored_path r.monitor strategy pth).0 })

unfoldable pub run : Running → List Move → Outcome Running
unfolding step
run r [] = returns r
run r (k ∷ ks) = elim (step r k) [ panics ↦ panics | returns s ↦ run s ks ]

-- A new monitor, with runLoop started.
abbrev pub started : StatFs → List MonitorOption → Running
started host os = record { monitor = new_mod_time_monitor host os; returned = false }
