-- ===== src/ModTime/Tests.antt =====
-- A monitor of one path that exists and one that does not.
use hotload.Prelude.{ℕ, ◌≡◌, refl, String, true, false, [], ◌∷◌, str_eq, if◌then◌else◌}
use mathlib.Core.Option
use hotload.State.{Result, bad_conn, ok, err}
use hotload.Registry.{returns}
use hotload.ModTime.{PathRecord, ModTimeMonitor, get_path_status, check_path_mod_times}
use hotload.ModTime.Checking.{checked, check-status}

abbrev files : String → Result ℕ
files name = if str_eq name "a" then ok 7 else err bad_conn

abbrev monitor : ModTimeMonitor
monitor = record {
  stat_fs = λ calls name. files name;
  has_errlog = true;
  check_intv = 5;
  paths =
      record { key = record { strategy = "fsnotify"; path = "/a" }; mod_time = 0 }
      ∷ record { key = record { strategy = "fsnotify"; path = "/b" }; mod_time = 3 }
      ∷ [];
  stat_calls = [];
  samples = [];
}

abbrev quiet_monitor : ModTimeMonitor
quiet_monitor = record monitor { has_errlog = false }

abbrev missing : PathRecord
missing = record { key = record { strategy = "fsnotify"; path = "/b" }; mod_time = 3 }

check-status_example :
    (t : ModTimeMonitor) × (check_path_mod_times monitor 9 ≡ returns t)
    × (get_path_status t "fsnotify" "/a"
        ≡ Option.map (checked files) (get_path_status monitor "fsnotify" "/a"))
check-status_example = check-status monitor files 9 "fsnotify" "/a" (λ calls name. refl) refl
