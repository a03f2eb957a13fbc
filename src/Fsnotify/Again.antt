-- ===== src/Fsnotify/Again.antt =====
-- fsnotify/filewatcher.go: what a second Watch of the same path and query returns.
use hotload.Prelude.{
  subst, [], insert, ℕ, ◌≡◌, sym, ◌∙◌, String, true, Option, none, some, arith, lookup,
  Option-cases, Bool-cases, inl, inr,
}
use hotload.State.{Result-cases, ok, Result}
use hotload.Text.{clean, trim_space}
use hotload.Registry.{returns}
use hotload.Fsnotify.{
  PathWatch, Strategy, find_path, add, construct, call_watcher, read_config_file, start_watcher,
  watch_query, watch_path, watch, add_to_default_path_chksum,
}
use hotload.Fsnotify.Watching.{watch-Watched}

start_watcher-watcher :
    (s : Strategy) → (start_watcher s).1 ≡ none → (start_watcher s).0.has_watcher ≡ true
unfolding start_watcher
start_watcher-watcher s e = elim (Bool-cases s.has_watcher) [
  | inl b ↦ ground (arith, b)
  | inr b ↦ elim (Option-cases (s.env.failure s.calls construct)) [
    | inl f ↦ ground (arith, b, f)
    | inr (x, f) ↦ ground (arith, b, f, e)
  ]
]

watch_query-watcher :
    (s t : Strategy) (w : PathWatch) (pth qry : String) (r : Result (String × Option ℕ))
    → watch_query s w pth qry ≡ returns (t, r)
    → t.has_watcher ≡ s.has_watcher
unfolding watch_query
watch_query-watcher s t w pth qry r e = elim (Option-cases (lookup qry w.queries)) [
  | inr (q, l) ↦ ground (arith, l, e)
  | inl l ↦ elim (Option-cases s.paths) [
    | inl p ↦ ground (arith, l, p, e)
    | inr (m, p) ↦ ground (arith, l, p, e)
  ]
]

watch_path-watcher :
    (s t : Strategy) (pth qry : String) (r : Result (String × Option ℕ))
    → watch_path s pth qry ≡ returns (t, r)
    → t.has_watcher ≡ s.has_watcher
unfolding watch_path add_to_default_path_chksum
watch_path-watcher s t pth qry r e =
    let s' = add_to_default_path_chksum (call_watcher s (add pth)).0 pth in
    elim (Option-cases (call_watcher s (add pth)).1) [
      | inr (x, a) ↦ ground (arith, a, e)
      | inl a ↦ elim (Result-cases (read_config_file s' pth)) [
        | inr (x, f) ↦ ground (arith, a, f, e)
        | inl (value, f) ↦ elim (Option-cases s.paths) [
          | inl p ↦ ground (arith, a, f, p, e)
          | inr (m, p) ↦
              let w : PathWatch = record { watch_path = pth; value = value; queries = [] } in
              watch_query-watcher (record s' { paths = some (insert pth w m) }) t w pth qry r
                (ground (arith, a, f, p, e))
        ]
      ]
    ]

watch-watcher :
    (s t : Strategy) (pth qry : String) (v : String × Option ℕ)
    → watch s pth qry ≡ returns (t, ok v)
    → t.has_watcher ≡ true
unfolding watch
watch-watcher s t pth qry v e =
    let s' = (start_watcher s).0 in
    elim (Option-cases (start_watcher s).1) [
      | inr (x, a) ↦ absurd (ground (arith, a, e))
      | inl a ↦ elim (Option-cases (find_path s' (clean pth))) [
        | inl f ↦
            watch_path-watcher s' t (clean pth) (trim_space qry) (ok v) (ground (arith, a, f, e))
            ∙ start_watcher-watcher s a
        | inr (w, f) ↦
            watch_query-watcher s' t w (clean pth) (trim_space qry) (ok v) (ground (arith, a, f, e))
            ∙ start_watcher-watcher s a
      ]
    ]

-- After a Watch that succeeded, another Watch whose path and query are the same once cleaned and
-- trimmed changes nothing and returns the same value and the same channel: callers that watch the
-- same query share one channel.
pub watch-again :
    (s t : Strategy) (pth qry pth' qry' : String) (v : String × Option ℕ)
    → watch s pth qry ≡ returns (t, ok v)
    → clean pth' ≡ clean pth
    → trim_space qry' ≡ trim_space qry
    → watch t pth' qry' ≡ returns (t, ok v)
unfolding watch start_watcher watch_query
watch-again s t pth qry pth' qry' (value, c) e same_path same_query =
    let h = watch-Watched s t pth qry value c e in
    let b = watch-watcher s t pth qry (value, c) e in
    let f : find_path t (clean pth') ≡ some h.path_watch =
      subst (λ x. find_path t x ≡ some h.path_watch) (sym same_path) h.found in
    let l : lookup (trim_space qry') h.path_watch.queries ≡ some h.query_watch =
      subst (λ x. lookup x h.path_watch.queries ≡ some h.query_watch) (sym same_query)
        h.has_query in
    ground (arith, b, f, l, h.has_value, h.has_chan)
