-- ===== src/Fsnotify/Channels/Labels.antt =====
-- fsnotify/filewatcher.go with metrics/pathchksum_metrics.go: the labels of the watched paths.
use hotload.Prelude.{
  ℕ, ◌≡◌, ◌⊎◌, refl, ◌∙◌, subst, String, Bool, false, Option, none, some, List, [], ◌∷◌, arith,
  lookup, insert, lookup-insert, lookup-insert_self, In, IsDistinct, inl, inr, Option-cases,
  Bool-cases, str_eq, eq_iff,
}
use hotload.State.{Result, Result-cases}
use hotload.Text.{clean, trim_space}
use hotload.Registry.{Outcome-cases, returns}
use hotload.Registry.Names.{keys}
use hotload.PathChksum.{PathChksum, clean_path, is_enabled, new_path_chksum}
use hotload.PathChksum.Adding.{add_path-Adds, IsSound as IsSoundChksum}
use hotload.Fsnotify.{
  PathWatch, Strategy, Environment, find_path, call_watcher, add, remove, read_config_file,
  start_watcher, watch_path, watch, add_to_default_path_chksum, new_strategy,
}
use hotload.Fsnotify.Loop.{refresh}
use hotload.Fsnotify.Channels.Running.{
  Operation, watches, closes_watch, processes_closure, refreshes, apply, apply_all,
}
use hotload.Fsnotify.Channels.Frame.{
  Same, close_watch-Same, process_watch_closure-Same, refresh-Same, start_watcher-Same,
  watch_query-Same,
}

-- The labels are sound, and if checksums are enabled, each watched path has one.
record Labelled (on : Bool) (s : Strategy) : Type 0 where
  sound : IsSoundChksum s.chksum
  enabled_eq : s.chksum.enabled ≡ on
  covers :
      (k : String) → (find_path s k ≡ none) ⊎ ((on ≡ false) ⊎ In (clean_path k) s.chksum.registered)

Same-Labelled : (on : Bool) (s t : Strategy) → Same s t → Labelled on s → Labelled on t
Same-Labelled on s t a h = record {
  sound = rw a.chksum_eq h.sound;
  enabled_eq = rw a.chksum_eq h.enabled_eq;
  covers = λ k. elim (h.covers k) [
    | inl f ↦ inl (a.fewer k f)
    | inr (inl e) ↦ inr (inl e)
    | inr (inr i) ↦ inr (inr (rw a.chksum_eq i))
  ];
}

-- The path has a label, or checksums are disabled.
abbrev Covered : Bool → PathChksum → String → Type 0
Covered on c k = (on ≡ false) ⊎ In (clean_path k) c.registered

add-Labelled :
    (on : Bool) (s : Strategy) (pth : String)
    → Labelled on s
    → Labelled on (add_to_default_path_chksum s pth)
      × Covered on (add_to_default_path_chksum s pth).chksum pth
unfolding add_to_default_path_chksum
add-Labelled on s pth h =
    let a = add_path-Adds s.chksum pth (clean_path pth) h.sound in
    (
      record {
        sound = a.sound;
        enabled_eq = a.same ∙ h.enabled_eq;
        covers = λ k. elim (h.covers k) [
          | inl f ↦ inl f
          | inr (inl e) ↦ inr (inl e)
          | inr (inr i) ↦ inr (inr ((add_path-Adds s.chksum pth (clean_path k) h.sound).kept i))
        ];
      },
      elim (Bool-cases on) [ inr e ↦ inl e | inl e ↦ inr (a.new (h.enabled_eq ∙ e) refl) ],
    )

put-Labelled :
    (on : Bool) (s : Strategy) (pth : String) (w : PathWatch) (m : List (String × PathWatch))
    → s.paths ≡ some m
    → Covered on s.chksum pth
    → Labelled on s
    → Labelled on (record s { paths = some (insert pth w m) })
put-Labelled on s pth w m p c h = record {
  sound = h.sound;
  enabled_eq = h.enabled_eq;
  covers = λ k. elim (Bool-cases (str_eq pth k)) [
    | inl e ↦ let same : pth ≡ k = ground (arith, e, eq_iff pth k) in inr (rw (← same) c)
    | inr e ↦ elim (h.covers k) [
      | inl f ↦ inl (ground (arith, p, e, f, lookup-insert pth k w m))
      | inr d ↦ inr d
    ]
  ];
}

watch_path-Labelled :
    (on : Bool) (s t : Strategy) (pth qry : String) (r : Result (String × Option ℕ))
    → watch_path s pth qry ≡ returns (t, r)
    → Labelled on s
    → Labelled on t
unfolding watch_path
watch_path-Labelled on s t pth qry r e h =
    let added = (call_watcher s (add pth)).0 in
    let s' = add_to_default_path_chksum added pth in
    let h' : Labelled on added = record {
      sound = h.sound;
      enabled_eq = h.enabled_eq;
      covers = h.covers;
    } in
    let (k, c) = add-Labelled on added pth h' in
    elim (Option-cases (call_watcher s (add pth)).1) [
      | inr (x, a) ↦ let same : added ≡ t = ground (arith, a, e) in subst (Labelled on) same h'
      | inl a ↦ elim (Result-cases (read_config_file s' pth)) [
        | inr (x, f) ↦
            let same : (call_watcher s' (remove pth)).0 ≡ t = ground (arith, a, f, e) in
            subst (Labelled on) same
              (record { sound = k.sound; enabled_eq = k.enabled_eq; covers = k.covers })
        | inl (value, f) ↦
            let w : PathWatch = record { watch_path = pth; value = value; queries = [] } in
            elim (Option-cases s'.paths) [
              | inl p ↦ absurd (ground (arith, a, f, p, e))
              | inr (m, p) ↦
                  let s'' : Strategy = record s' { paths = some (insert pth w m) } in
                  Same-Labelled on s'' t
                    (watch_query-Same s'' t w pth qry r (lookup-insert_self pth w m)
                      (ground (arith, a, f, p, e)))
                    (put-Labelled on s' pth w m p c k)
            ]
      ]
    ]

watch-Labelled :
    (on : Bool) (s t : Strategy) (pth qry : String) (r : Result (String × Option ℕ))
    → watch s pth qry ≡ returns (t, r)
    → Labelled on s
    → Labelled on t
unfolding watch
watch-Labelled on s t pth qry r e h =
    let s' = (start_watcher s).0 in
    let h' = Same-Labelled on s s' (start_watcher-Same s) h in
    elim (Option-cases (start_watcher s).1) [
      | inr (x, a) ↦ let same : s' ≡ t = ground (arith, a, e) in subst (Labelled on) same h'
      | inl a ↦ elim (Option-cases (find_path s' (clean pth))) [
        | inl f ↦
            watch_path-Labelled on s' t (clean pth) (trim_space qry) r (ground (arith, a, f, e)) h'
        | inr (w, f) ↦
            Same-Labelled on s' t
              (watch_query-Same s' t w (clean pth) (trim_space qry) r f (ground (arith, a, f, e)))
              h'
      ]
    ]

apply-Labelled :
    (on : Bool) (s t : Strategy) (o : Operation)
    → apply s o ≡ returns t
    → Labelled on s
    → Labelled on t
unfolding apply
apply-Labelled on s t (watches pth qry) e h = elim (Outcome-cases (watch s pth qry)) [
  | inr c ↦ absurd (ground (arith, c, e))
  | inl ((u, r), c) ↦
      let same : u ≡ t = ground (arith, c, e) in
      subst (Labelled on) same (watch-Labelled on s u pth qry r c h)
]
apply-Labelled on s t (closes_watch pth qry) e h =
    Same-Labelled on s t (close_watch-Same s t pth qry e) h
apply-Labelled on s t (processes_closure pth qry) e h =
    Same-Labelled on s t (process_watch_closure-Same s t pth qry e) h
apply-Labelled on s t (refreshes pth) e h = elim (Outcome-cases (refresh s pth)) [
  | inr c ↦ absurd (ground (arith, c, e))
  | inl ((u, fixed), c) ↦
      let same : u ≡ t = ground (arith, c, e) in
      subst (Labelled on) same (Same-Labelled on s u (refresh-Same s u pth fixed c) h)
]

all_ops :
    (on : Bool) (s t : Strategy) (os : List Operation)
    → apply_all s os ≡ returns t
    → Labelled on s
    → Labelled on t
unfolding apply_all
all_ops on s t [] e h = let same : s ≡ t = ground (arith, e) in subst (Labelled on) same h
all_ops on s t (o ∷ os) e h = elim (Outcome-cases (apply s o)) [
  | inr c ↦ absurd (ground (arith, c, e))
  | inl (u, c) ↦ all_ops on u t os (ground (arith, c, e)) (apply-Labelled on s u o c h)
]

-- Any calls of Watch and CloseWatch, resyncs and closures on a new strategy, whatever the watcher and
-- the files answer, never register a label of the checksum gauge twice, so that its MustRegister does
-- not panic; and a path that is watched afterwards has a label unless checksums are disabled.
pub apply_all-labels :
    (env : Environment) (os : List Operation) (t : Strategy) (pth : String)
    → apply_all (new_strategy env) os ≡ returns t
    → IsDistinct t.chksum.registered
      × ((find_path t pth ≡ none)
          ⊎ ((is_enabled env.chksum_enable ≡ false) ⊎ In (clean_path pth) t.chksum.registered))
unfolding new_strategy new_path_chksum keys lookup
apply_all-labels env os t pth e =
    let h = all_ops (is_enabled env.chksum_enable) (new_strategy env) t os e (record {
      sound = record { labels = refl; distinct = tt };
      enabled_eq = refl;
      covers = λ k. inl refl;
    }) in
    (h.sound.distinct, h.covers pth)
