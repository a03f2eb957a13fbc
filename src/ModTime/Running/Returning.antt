-- ===== src/ModTime/Running/Returning.antt =====
-- modtime/modtime_monitor.go: runLoop of a monitor with an error log.
use hotload.Prelude.{
  ℕ, ◌≡◌, refl, ◌∙◌, subst, inl, inr, true, List, [], ◌∷◌, In, All, All-In, arith, Bool-cases,
}
use hotload.State.{Result, ok, err}
use hotload.Registry.{returns}
use hotload.ModTime.{
  PathRecord, StatFs, ModTimeMonitor, MonitorOption, LatencySample, add_monitored_path, unrooted,
  check_record, check_records, check_path_mod_times, new_mod_time_monitor, new_default_options,
  apply_options, apply_option,
}
use hotload.ModTime.Running.{Move, cancels, ticks, adds, Running, step, run, started}
use hotload.ModTime.Running.Genuine.{Genuine, run-IsGenuine}

check_record-returns :
    (r : PathRecord) (a : Result ℕ) → (r' : PathRecord) × (check_record true r a ≡ returns r')
unfolding check_record
check_record-returns r (ok time) = (record r { mod_time = time }, refl)
check_record-returns r (err x) = (r, refl)

check_records-returns :
    (m : ModTimeMonitor) (now : ℕ) (rs : List PathRecord)
    → m.has_errlog ≡ true
    → (t : ModTimeMonitor) × (rs' : List PathRecord) × (check_records m now rs ≡ returns (t, rs'))
      × (t.has_errlog ≡ true)
unfolding check_records
check_records-returns m now [] h = (m, [], refl, h)
check_records-returns m now (r ∷ rs) h =
    let name = unrooted r.key.path in
    let (r', e) = check_record-returns r (m.stat_fs m.stat_calls name) in
    let sample : LatencySample = record { key = r.key; now = now; mod_time = r'.mod_time } in
    let m' : ModTimeMonitor = record m {
      stat_calls = name ∷ m.stat_calls;
      samples = sample ∷ m.samples;
    } in
    let (t, rs', e', h') = check_records-returns m' now rs h in
    (t, r' ∷ rs', ground (arith, h, e, e'), h')

step-returns :
    (r : Running) (k : Move)
    → r.monitor.has_errlog ≡ true
    → (s : Running) × (step r k ≡ returns s) × (s.monitor.has_errlog ≡ true)
unfolding step check_path_mod_times add_monitored_path
step-returns r cancels h = (record r { returned = true }, refl, h)
step-returns r (adds strategy pth) h =
    (record r { monitor = (add_monitored_path r.monitor strategy pth).0 }, refl, ground (arith, h))
step-returns r (ticks now) h = elim (Bool-cases r.returned) [
  | inl b ↦ (r, ground (arith, b), h)
  | inr b ↦
      let (t, rs, e, h') = check_records-returns r.monitor now r.monitor.paths h in
      (record r { monitor = record t { paths = rs } }, ground (arith, b, e), h')
]

run-returns :
    (r : Running) (ks : List Move)
    → r.monitor.has_errlog ≡ true
    → (s : Running) × (run r ks ≡ returns s)
unfolding run
run-returns r [] h = (r, refl)
run-returns r (k ∷ ks) h =
    let (s, e, h') = step-returns r k h in
    let (t, e') = run-returns s ks h' in (t, ground (arith, e, e'))

apply_options-paths :
    (host : StatFs) (m : ModTimeMonitor) (os : List MonitorOption)
    → (apply_options host m os).paths ≡ m.paths
unfolding apply_options apply_option
apply_options-paths host m [] = refl
apply_options-paths host m (o ∷ os) =
    apply_options-paths host (apply_option host m o) os ∙ ground (arith, o)

-- A new monitor with an error log never panics, whatever ticks, additions and cancellation follow
-- and whatever the file system answers meanwhile. Then each monitored path has the zero time or a
-- modification time that a Stat of its unrooted form did answer.
pub run-Genuine :
    (host : StatFs) (os : List MonitorOption) (ks : List Move)
    → (new_mod_time_monitor host os).has_errlog ≡ true
    → (s : Running) × (run (started host os) ks ≡ returns s)
      × All (Genuine s.monitor.stat_fs s.monitor.stat_calls) s.monitor.paths
unfolding new_mod_time_monitor new_default_options
run-Genuine host os ks h =
    let (s, e) = run-returns (started host os) ks h in
    let empty = apply_options-paths host (new_default_options host) os in
    let g =
      run-IsGenuine (new_mod_time_monitor host os).stat_fs (started host os) s ks e
        (record { fs = refl; all = λ r j. absurd (subst (In r) empty j) }) in
    (s, e, All-In s.monitor.paths (rw g.fs g.all))
