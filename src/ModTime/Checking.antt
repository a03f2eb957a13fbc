-- ===== src/ModTime/Checking.antt =====
-- What is monitored, and what a check stores.
use hotload.Prelude.{
  ℕ, ◌≡◌, ◌≢◌, refl, ◌∙◌, ◌⊎◌, inl, inr, String, true, false, none, some, List, [], ◌∷◌, arith,
  if◌then◌else◌, Option-cases,
}
use hotload.Prelude.{map, In}
use mathlib.Core.Option
use hotload.State.{Error, Result, ok, err}
use hotload.Registry.{Outcome-cases, returns, panics}
use hotload.ModTime.{
  PathKey, PathRecord, duplicate_path, LatencySample, ModTimeMonitor, clean_path, key_eq,
  find_record, add_monitored_path, get_path_status, unrooted, check_record, check_records,
  check_path_mod_times,
}

-- A path that is not monitored is added with the zero time, under its cleaned form, and no other
-- status changes; a path that is monitored is refused and nothing changes.
pub add_monitored_path-status :
    (m : ModTimeMonitor) (strategy pth strategy' pth' : String)
    → let (t, e) = add_monitored_path m strategy pth in
      let key : PathKey = record { strategy = strategy; path = clean_path pth } in
      let key' : PathKey = record { strategy = strategy'; path = clean_path pth' } in
      ((get_path_status m strategy pth ≡ none)
        × (e ≡ none)
        × (get_path_status t strategy' pth' ≡ (
            if key_eq key key'
            then some (record { key = key; mod_time = 0 })
            else get_path_status m strategy' pth')))
      ⊎ ((get_path_status m strategy pth ≢ none) × (e ≡ some duplicate_path) × (t ≡ m))
unfolding add_monitored_path get_path_status find_record
add_monitored_path-status m strategy pth strategy' pth' =
    let key : PathKey = record { strategy = strategy; path = clean_path pth } in
    elim (Option-cases (find_record key m.paths)) [
      | inl f ↦ inl (f, ground (arith, f), ground (arith, f))
      | inr (r, f) ↦ inr (ground (arith, f), ground (arith, f), ground (arith, f))
    ]

-- The record after a check against a file system that does not change meanwhile.
unfoldable pub checked : (String → Result ℕ) → PathRecord → PathRecord
checked f r = elim (f (unrooted r.key.path)) [ ok time ↦ record r { mod_time = time } | err e ↦ r ]

checked-key : (f : String → Result ℕ) (r : PathRecord) → (checked f r).key ≡ r.key
unfolding checked
checked-key f r = ground arith

find_record-checked :
    (f : String → Result ℕ) (k : PathKey) (rs : List PathRecord)
    → find_record k (map (checked f) rs) ≡ Option.map (checked f) (find_record k rs)
unfolding find_record
find_record-checked f k [] = refl
find_record-checked f k (r ∷ rs) = ground (arith, find_record-checked f k rs, checked-key f r)

check_record-checked :
    (f : String → Result ℕ) (r : PathRecord)
    → check_record true r (f (unrooted r.key.path)) ≡ returns (checked f r)
unfolding check_record checked
check_record-checked f r = ground arith

check_records-checked :
    (m : ModTimeMonitor) (f : String → Result ℕ) (now : ℕ) (rs : List PathRecord)
    → ((calls : List String) (name : String) → m.stat_fs calls name ≡ f name)
    → m.has_errlog ≡ true
    → (t : ModTimeMonitor) × (check_records m now rs ≡ returns (t, map (checked f) rs))
unfolding check_records
check_records-checked m f now [] h e = (m, refl)
check_records-checked m f now (r ∷ rs) h e =
    let name = unrooted r.key.path in
    let sample : LatencySample = record {
      key = r.key;
      now = now;
      mod_time = (checked f r).mod_time;
    } in
    let m' : ModTimeMonitor = record m {
      stat_calls = name ∷ m.stat_calls;
      samples = sample ∷ m.samples;
    } in
    let (t, ih) = check_records-checked m' f now rs h e in
    (t, ground (arith, h m.stat_calls name, e, check_record-checked f r, ih))

-- With an error log, a check over a file system that does not change meanwhile does not panic:
-- each path whose Stat succeeds has that modification time, and any other keeps its own.
pub check-status :
    (m : ModTimeMonitor) (f : String → Result ℕ) (now : ℕ) (strategy pth : String)
    → ((calls : List String) (name : String) → m.stat_fs calls name ≡ f name)
    → m.has_errlog ≡ true
    → (t : ModTimeMonitor) × (check_path_mod_times m now ≡ returns t)
      × (get_path_status t strategy pth ≡ Option.map (checked f) (get_path_status m strategy pth))
unfolding check_path_mod_times get_path_status
check-status m f now strategy pth h e =
    let (t, p) = check_records-checked m f now m.paths h e in
    (
      record t { paths = map (checked f) m.paths },
      ground (arith, p),
      find_record-checked f _ m.paths,
    )

fails :
    (m : ModTimeMonitor) (y : PathRecord) (stat : Result ℕ) (x : Error)
    → m.has_errlog ≡ false
    → stat ≡ err x
    → check_record m.has_errlog y stat ≡ panics
unfolding check_record
fails m y stat x e q = ground (arith, e, q)

check_records-panics :
    (m : ModTimeMonitor) (f : String → Result ℕ) (now : ℕ) (r : PathRecord) (x : Error)
    (rs : List PathRecord)
    → ((calls : List String) (name : String) → m.stat_fs calls name ≡ f name)
    → m.has_errlog ≡ false
    → In r rs
    → f (unrooted r.key.path) ≡ err x
    → check_records m now rs ≡ panics
unfolding check_records
check_records-panics m f now r x [] h e i q = ground arith
check_records-panics m f now r x (y ∷ rs) h e i q =
    let name = unrooted y.key.path in
    elim (Outcome-cases (check_record m.has_errlog y (m.stat_fs m.stat_calls name))) [
      | inr p ↦ ground (arith, p)
      | inl (y', p) ↦
          let sample : LatencySample = record { key = y.key; now = now; mod_time = y'.mod_time } in
          let m' : ModTimeMonitor = record m {
            stat_calls = name ∷ m.stat_calls;
            samples = sample ∷ m.samples;
          } in
          elim i [
            | inl same ↦
                let failing : f name ≡ err x = rw same at q in
                ground (
                  arith,
                  fails m y (m.stat_fs m.stat_calls name) x e (h m.stat_calls name ∙ failing),
                  p,
                )
            | inr j ↦ ground (arith, p, check_records-panics m' f now r x rs h e j q)
          ]
    ]

-- Without an error log, over a file system that does not change meanwhile, the check panics if the
-- Stat of any monitored path fails.
pub check-panics :
    (m : ModTimeMonitor) (f : String → Result ℕ) (now : ℕ) (r : PathRecord) (x : Error)
    → ((calls : List String) (name : String) → m.stat_fs calls name ≡ f name)
    → m.has_errlog ≡ false
    → In r m.paths
    → f (unrooted r.key.path) ≡ err x
    → check_path_mod_times m now ≡ panics
unfolding check_path_mod_times
check-panics m f now r x h e i q = ground (arith, check_records-panics m f now r x m.paths h e i q)
