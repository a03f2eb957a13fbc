-- ===== src/ModTime.antt =====
-- modtime/modtime_monitor.go and modtime/modtime_options.go: the modification times of a set of
-- paths. The lock is held for the whole of each operation that takes it.
pub mod Checking
pub mod Running
mod Tests
use Prim.Native.Char.{code}
use hotload.Prelude.{
  ℕ, String, Bool, true, false, ◌&&◌, Option, none, some, List, [], ◌∷◌, ◌==◌, leb, str_eq,
  if◌then◌else◌,
}
use hotload.State.{Error, Result, ok, err}
use hotload.Text.{clean, trim_space}
use hotload.Registry.{Outcome, returns, panics}

pub record PathKey : Type 0 where
  pub strategy : String
  pub path : String

-- A time is a number, and the zero time is 0.
pub record PathRecord : Type 0 where
  pub key : PathKey
  pub mod_time : ℕ

-- ErrDuplicatePath and ErrPathNotFound
pub data PathError : Type 0 where
  duplicate_path path_not_found : PathError

-- Stat of a file system, as a function of the calls so far.
abbrev pub StatFs : Type 0
StatFs = List String → String → Result ℕ

-- A sample of ObserveHotloadModtimeLatencyHistogram: the time of the check and the modification
-- time, whose difference is observed.
pub record LatencySample : Type 0 where
  pub key : PathKey
  pub now : ℕ
  pub mod_time : ℕ

-- `has_errlog` is whether errlog is not nil. `paths` is in the order in which Go ranges over it.
pub record ModTimeMonitor : Type 0 where
  pub stat_fs : StatFs
  pub has_errlog : Bool
  pub check_intv : ℕ
  pub paths : List PathRecord
  pub stat_calls : List String
  pub samples : List LatencySample

-- The options; `none` is a nil file system or a negative interval. WithLogger only
-- changes where the monitor logs.
pub data MonitorOption : Type 0 where
  with_err_logger : MonitorOption
  with_stat_fs : Option StatFs → MonitorOption
  with_check_interval : Option ℕ → MonitorOption

-- The host's file system is a parameter; errlog is nil at first; the default interval is 5 minutes, in nanoseconds.
unfoldable pub new_default_options : StatFs → ModTimeMonitor
new_default_options host = record {
  stat_fs = host;
  has_errlog = false;
  check_intv = 300000000000;
  paths = [];
  stat_calls = [];
  samples = [];
}

unfoldable pub apply_option : StatFs → ModTimeMonitor → MonitorOption → ModTimeMonitor
apply_option host m with_err_logger = record m { has_errlog = true }
apply_option host m (with_stat_fs none) = record m { stat_fs = host }
apply_option host m (with_stat_fs (some f)) = record m { stat_fs = f }
apply_option host m (with_check_interval none) = record m { check_intv = 300000000000 }
apply_option host m (with_check_interval (some d)) = record m {
  check_intv = if d == 0 then 300000000000 else d;
}

unfoldable pub apply_options : StatFs → ModTimeMonitor → List MonitorOption → ModTimeMonitor
unfolding apply_option
apply_options host m [] = m
apply_options host m (o ∷ os) = apply_options host (apply_option host m o) os

unfoldable pub new_mod_time_monitor : StatFs → List MonitorOption → ModTimeMonitor
unfolding new_default_options apply_options
new_mod_time_monitor host os = apply_options host (new_default_options host) os

abbrev pub clean_path : String → String
clean_path pth = clean (trim_space pth)

abbrev pub key_eq : PathKey → PathKey → Bool
key_eq a b = str_eq a.strategy b.strategy && str_eq a.path b.path

unfoldable pub find_record : PathKey → List PathRecord → Option PathRecord
find_record k [] = none
find_record k (r ∷ rs) = if key_eq r.key k then some r else find_record k rs

-- `AddMonitoredPath`, whose options have no effect.
unfoldable pub add_monitored_path :
    ModTimeMonitor → String → String → ModTimeMonitor × Option PathError
unfolding find_record
add_monitored_path m strategy pth =
    let key : PathKey = record { strategy = strategy; path = clean_path pth } in
    elim (find_record key m.paths) [
      | some r ↦ (m, some duplicate_path)
      | none ↦ (record m { paths = record { key = key; mod_time = 0 } ∷ m.paths }, none)
    ]

-- `GetPathStatus`; the copy that it returns has the record's fields.
unfoldable pub get_path_status : ModTimeMonitor → String → String → Option PathRecord
unfolding find_record
get_path_status m strategy pth =
    find_record (record { strategy = strategy; path = clean_path pth }) m.paths

-- `strings.TrimLeft(path, "/")`
unfoldable pub unrooted : String → String
unrooted String.[] = ""
unrooted (String.◌∷◌ c s) = let rest = unrooted s in if code c == 47 then rest else String.◌∷◌ c s

-- The body of the loop of checkPathModTimes, without the store: the record after the check.
-- Without errlog a failing Stat calls a nil function.
unfoldable pub check_record : Bool → PathRecord → Result ℕ → Outcome PathRecord
check_record has_errlog r (ok time) = returns (record r { mod_time = time })
check_record has_errlog r (err e) = if has_errlog then returns r else panics

unfoldable pub check_records :
    ModTimeMonitor → ℕ → List PathRecord → Outcome (ModTimeMonitor × List PathRecord)
unfolding check_record unrooted
check_records m now [] = returns (m, [])
check_records m now (r ∷ rs) =
    let name = unrooted r.key.path in
    elim (check_record m.has_errlog r (m.stat_fs m.stat_calls name)) [
      | panics ↦ panics
      | returns r' ↦
          let sample : LatencySample = record { key = r.key; now = now; mod_time = r'.mod_time } in
          elim (check_records
            (record m { stat_calls = name ∷ m.stat_calls; samples = sample ∷ m.samples }) now rs) [
              | panics ↦ panics
              | returns (t, rest) ↦ returns (t, r' ∷ rest)
            ]
    ]

-- `checkPathModTimes`
unfoldable pub check_path_mod_times : ModTimeMonitor → ℕ → Outcome ModTimeMonitor
unfolding check_records
check_path_mod_times m now = elim (check_records m now m.paths) [
  | panics ↦ panics
  | returns (t, rs) ↦ returns (record t { paths = rs })
]
