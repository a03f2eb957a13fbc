-- ===== src/ModTime/Running/Genuine.antt =====
-- modtime/modtime_monitor.go: where the times come from that the monitor keeps.
use hotload.Prelude.{
  ℕ, ◌≡◌, refl, sym, ◌∙◌, ap, subst, ◌⊎◌, inl, inr, String, Bool, true, List, [], ◌∷◌, ◌++◌, In,
  arith, Option-cases, Bool-cases,
}
use mathlib.Core.List.{append_assoc}
use hotload.State.{Result, ok, err}
use hotload.Registry.{Outcome, Outcome-cases, returns}
use hotload.ModTime.{
  PathKey, PathRecord, StatFs, ModTimeMonitor, LatencySample, find_record, add_monitored_path,
  unrooted, check_record, check_records, check_path_mod_times, clean_path,
}
use hotload.ModTime.Running.{Move, cancels, ticks, adds, Running, step, run}

-- Among the calls, latest first, one asked for the record's path and was answered its time.
pub data Observed (f : StatFs) (calls : List String) (r : PathRecord) : Type 0 where
  asked :
      (later earlier : List String)
      → calls ≡ later ++ (unrooted r.key.path ∷ earlier)
      → f earlier (unrooted r.key.path) ≡ ok r.mod_time
      → Observed f calls r

-- The record has the zero time or one that was observed.
abbrev pub Genuine : StatFs → List String → PathRecord → Type 0
Genuine f calls r = (r.mod_time ≡ 0) ⊎ Observed f calls r

Genuine-more :
    (f : StatFs) (new calls : List String) (r : PathRecord)
    → Genuine f calls r
    → Genuine f (new ++ calls) r
Genuine-more f new calls r (inl z) = inl z
Genuine-more f new calls r (inr (asked later earlier e o)) =
    inr (asked (new ++ later) earlier (rw e (sym (append_assoc new later _))) o)

abbrev pub AllGenuine : StatFs → List String → List PathRecord → Type 0
AllGenuine f calls rs = (r : PathRecord) → In r rs → Genuine f calls r

check_record-cases :
    (b : Bool) (r r' : PathRecord) (a : Result ℕ)
    → check_record b r a ≡ returns r'
    → ((time : ℕ) × (a ≡ ok time) × (r' ≡ record r { mod_time = time })) ⊎ (r' ≡ r)
unfolding check_record
check_record-cases b r r' (ok time) e = inl (time, refl, ground (arith, e))
check_record-cases b r r' (err x) e = inr (ground (arith, e))

check_record-Genuine :
    (f : StatFs) (calls : List String) (b : Bool) (r r' : PathRecord)
    → check_record b r (f calls (unrooted r.key.path)) ≡ returns r'
    → Genuine f calls r
    → Genuine f (unrooted r.key.path ∷ calls) r'
check_record-Genuine f calls b r r' e g = elim (check_record-cases b r r' _ e) [
  | inl (time, o, p) ↦
      subst (Genuine f (unrooted r.key.path ∷ calls)) (sym p) (inr (asked [] calls refl o))
  | inr p ↦
      subst (Genuine f (unrooted r.key.path ∷ calls)) (sym p)
        (Genuine-more f (unrooted r.key.path ∷ []) calls r g)
]

-- What checking leaves: the file system, a longer list of calls, and genuine records.
record Checked (m t : ModTimeMonitor) (rs : List PathRecord) : Type 0 where
  new : List String
  more : t.stat_calls ≡ new ++ m.stat_calls
  same_fs : t.stat_fs ≡ m.stat_fs
  genuine : AllGenuine m.stat_fs t.stat_calls rs

-- Two ways to write the result of the same call.
returns_same :
    {A : Type 0} (P : A → Type 0) (r : Outcome A) (x y : A)
    → r ≡ returns x
    → r ≡ returns y
    → P y
    → P x
returns_same P r x y e e' h = subst P (ground (arith, e, e')) h

-- A record was checked, and then the others.
Checked-cons :
    (m t : ModTimeMonitor) (name : String) (samples : List LatencySample) (r : PathRecord)
    (rs : List PathRecord)
    → Genuine m.stat_fs (name ∷ m.stat_calls) r
    → Checked (record m { stat_calls = name ∷ m.stat_calls; samples = samples }) t rs
    → Checked m t (r ∷ rs)
Checked-cons m t name samples r rs g c = record {
  new = c.new ++ (name ∷ []);
  more = c.more ∙ sym (append_assoc c.new (name ∷ []) m.stat_calls);
  same_fs = c.same_fs;
  genuine = λ y j. elim j [
    | inl same ↦ rw (same, c.more) (Genuine-more m.stat_fs c.new (name ∷ m.stat_calls) r g)
    | inr k ↦ c.genuine y k
  ];
}

check_records-Checked :
    (m : ModTimeMonitor) (now : ℕ) (rs : List PathRecord) (x : ModTimeMonitor × List PathRecord)
    → check_records m now rs ≡ returns x
    → AllGenuine m.stat_fs m.stat_calls rs
    → Checked m x.0 x.1
unfolding check_records
check_records-Checked m now [] x e g =
    returns_same (λ z. Checked m z.0 z.1) (returns (m, [])) x (m, []) e refl
      (record { new = []; more = refl; same_fs = refl; genuine = g })
check_records-Checked m now (r ∷ rs) x e g =
    let name = unrooted r.key.path in
    elim (Outcome-cases (check_record m.has_errlog r (m.stat_fs m.stat_calls name))) [
      | inr p ↦ absurd (ground (arith, p, e))
      | inl (r', p) ↦
          let sample : LatencySample = record { key = r.key; now = now; mod_time = r'.mod_time } in
          let m' : ModTimeMonitor = record m {
            stat_calls = name ∷ m.stat_calls;
            samples = sample ∷ m.samples;
          } in
          elim (Outcome-cases (check_records m' now rs)) [
            | inr p' ↦ absurd (ground (arith, p, p', e))
            | inl (y, p') ↦
                let later =
                  check_records-Checked m' now rs y p'
                    (λ z j. Genuine-more m.stat_fs (name ∷ []) m.stat_calls z (g z (inr j))) in
                let first =
                  check_record-Genuine m.stat_fs m.stat_calls m.has_errlog r r' p
                    (g r (inl refl)) in
                returns_same (λ z. Checked m z.0 z.1) _ x (y.0, r' ∷ y.1) e (ground (arith, p, p'))
                  (Checked-cons m y.0 name (sample ∷ m.samples) r' y.1 first later)
          ]
    ]

-- The whole state keeps the file system `f`, and its records are genuine.
pub record IsGenuine (f : StatFs) (m : ModTimeMonitor) : Type 0 where
  pub fs : m.stat_fs ≡ f
  pub all : AllGenuine f m.stat_calls m.paths

check-IsGenuine :
    (f : StatFs) (m t : ModTimeMonitor) (now : ℕ)
    → check_path_mod_times m now ≡ returns t
    → IsGenuine f m
    → IsGenuine f t
unfolding check_path_mod_times
check-IsGenuine f m t now e h = elim (Outcome-cases (check_records m now m.paths)) [
  | inr p ↦ absurd (ground (arith, p, e))
  | inl (x, p) ↦
      let c = check_records-Checked m now m.paths x p (rw h.fs h.all) in
      let done : check_path_mod_times m now ≡ returns (record (x.0) { paths = x.1 }) =
        ground (arith, p) in
      returns_same (IsGenuine f) _ t (record (x.0) { paths = x.1 }) e done
        (record { fs = c.same_fs ∙ h.fs; all = rw (sym h.fs) c.genuine })
]

add-IsGenuine :
    (f : StatFs) (m : ModTimeMonitor) (strategy pth : String)
    → IsGenuine f m
    → IsGenuine f (add_monitored_path m strategy pth).0
unfolding add_monitored_path
add-IsGenuine f m strategy pth h =
    let key : PathKey = record { strategy = strategy; path = clean_path pth } in
    elim (Option-cases (find_record key m.paths)) [
      | inr (r, e) ↦ rw (e, add_monitored_path) h
      | inl e ↦
          rw (e, add_monitored_path)
            (record {
              fs = h.fs;
              all =
                  λ y j. elim j [ inl same ↦ inl (ap (λ z. z.mod_time) same) | inr k ↦ h.all y k ];
            })
    ]

step-IsGenuine :
    (f : StatFs) (r s : Running) (k : Move)
    → step r k ≡ returns s
    → IsGenuine f r.monitor
    → IsGenuine f s.monitor
unfolding step
step-IsGenuine f r s cancels e h =
    returns_same (λ z. IsGenuine f z.monitor) _ s (record r { returned = true }) e refl h
step-IsGenuine f r s (adds strategy pth) e h =
    returns_same (λ z. IsGenuine f z.monitor) _ s
      (record r { monitor = (add_monitored_path r.monitor strategy pth).0 }) e refl
      (add-IsGenuine f r.monitor strategy pth h)
step-IsGenuine f r s (ticks now) e h = elim (Bool-cases r.returned) [
  | inl b ↦ returns_same (λ z. IsGenuine f z.monitor) _ s r e (ground (arith, b)) h
  | inr b ↦ elim (Outcome-cases (check_path_mod_times r.monitor now)) [
    | inr p ↦ absurd (ground (arith, b, p, e))
    | inl (m, p) ↦
        returns_same (λ z. IsGenuine f z.monitor) _ s (record r { monitor = m }) e
          (ground (arith, b, p)) (check-IsGenuine f r.monitor m now p h)
  ]
]

pub run-IsGenuine :
    (f : StatFs) (r s : Running) (ks : List Move)
    → run r ks ≡ returns s
    → IsGenuine f r.monitor
    → IsGenuine f s.monitor
unfolding run
run-IsGenuine f r s [] e h = returns_same (λ z. IsGenuine f z.monitor) _ s r e refl h
run-IsGenuine f r s (k ∷ ks) e h = elim (Outcome-cases (step r k)) [
  | inr p ↦ absurd (ground (arith, p, e))
  | inl (x, p) ↦ run-IsGenuine f x s ks (ground (arith, p, e)) (step-IsGenuine f r x k p h)
]
