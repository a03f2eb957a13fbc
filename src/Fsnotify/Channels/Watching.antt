-- ===== src/Fsnotify/Channels/Watching.antt =====
-- fsnotify/filewatcher.go: Watch on a sound strategy.
use hotload.Prelude.{
  entries, Unique-insert, ℕ, suc, ◌+◌, ◌≡◌, ◌⊎◌, refl, String, Bool, true, none, some, List, [],
  arith, lookup, insert, total-insert, total-insert_found, lookup-insert_self, inl, inr,
  Option-cases, Bool-cases,
}
use hotload.State.{Error, ok, err, Result-cases}
use hotload.Text.{clean, trim_space}
use hotload.Registry.{Outcome, returns}
use hotload.Fsnotify.{
  QueryWatch, PathWatch, Strategy, find_path, call_watcher, construct, add, remove,
  read_config_file, start_watcher, watch_query, watch_path, watch, add_to_default_path_chksum,
}
use hotload.Fsnotify.Channels.{
  chan_total, Sound, IsSound, Sound-same, IsKeyed-insert, queries-Unique, Sound-open,
}
use hotload.Fsnotify.Channels.Steps.{found-watching}

-- The call returned, and the strategy that it left is sound.
abbrev pub Answers : {A : Type 0} → Outcome (Strategy × A) → Type 0
Answers {A} r = (t : Strategy) × (a : A) × (r ≡ returns (t, a)) × IsSound t

Sound-watching :
    (m : List (String × PathWatch)) (closed : List ℕ) (next : ℕ) (b : Bool)
    → Sound m closed next b
    → Sound m closed next true
Sound-watching m closed next b h = record {
  keyed = h.keyed;
  no_nil = h.no_nil;
  exact = h.exact;
  watched = λ e. ground arith;
}

start_watcher-cases :
    (s : Strategy)
    → IsSound s
    → IsSound (start_watcher s).0
      × (((x : Error) × ((start_watcher s).1 ≡ some x))
          ⊎ (((start_watcher s).1 ≡ none) × ((start_watcher s).0.has_watcher ≡ true)))
unfolding start_watcher
start_watcher-cases s (m, p, h) = elim (Bool-cases s.has_watcher) [
  | inl b ↦
      rw (b, start_watcher)
        ((m, p, Sound-watching m s.closed s.next_chan s.has_watcher h), inr (refl, refl))
  | inr b ↦ elim (Option-cases (s.env.failure s.calls construct)) [
    | inl e ↦
        rw (b, e, start_watcher)
          ((m, p, Sound-watching m s.closed s.next_chan s.has_watcher h), inr (refl, refl))
    | inr (x, e) ↦ rw (b, e, start_watcher) ((m, p, h), inl (x, refl))
  ]
]

watch_query-Answers :
    (s : Strategy) (w : PathWatch) (pth qry : String)
    → find_path s pth ≡ some w
    → IsSound s
    → Answers (watch_query s w pth qry)
unfolding watch_query
watch_query-Answers s w pth qry f (m, p, h) = elim (Option-cases (lookup qry w.queries)) [
  | inr (q, l) ↦ (s, ok (w.value, q.update_chan), ground (arith, l), (m, p, h))
  | inl l ↦
      let q : QueryWatch = record {
        path_query = qry;
        update_chan = some s.next_chan;
        oper_chan = [];
      } in
      let w' : PathWatch = record w { queries = insert qry q w.queries } in
      let k : lookup pth m ≡ some w = rw p at f in
      let b = found-watching m pth w s.has_watcher k h.watched in
      let u = queries-Unique pth w m h.keyed.queries k in
      (
        record s {
          next_chan = suc s.next_chan;
          op_loops = s.op_loops + 1;
          paths = some (insert pth w' m);
        },
        ok (w.value, some s.next_chan),
        ground (arith, l, p),
        (
          insert pth w' m,
          refl,
          rw b (
              Sound-open m (insert pth w' m) s.closed s.next_chan (rw b at h)
                (IsKeyed-insert pth w' m (Unique-insert qry q w.queries u) h.keyed)
                (λ g. omega (
                  arith,
                  total-insert_found (λ v. chan_total g v.queries) pth w' w m h.keyed.paths k,
                  total-insert (λ x. g x.update_chan) qry q w.queries l,
                ))),
        ),
      )
]

watch_path-Answers :
    (s : Strategy) (pth qry : String)
    → s.has_watcher ≡ true
    → find_path s pth ≡ none
    → IsSound s
    → Answers (watch_path s pth qry)
unfolding watch_path add_to_default_path_chksum entries
watch_path-Answers s pth qry b f (m, p, h) =
    let s' = add_to_default_path_chksum (call_watcher s (add pth)).0 pth in
    elim (Option-cases (call_watcher s (add pth)).1) [
      | inr (x, a) ↦ ((call_watcher s (add pth)).0, err x, ground (arith, a), (m, p, h))
      | inl a ↦ elim (Result-cases (read_config_file s' pth)) [
        | inr (x, r) ↦ ((call_watcher s' (remove pth)).0, err x, ground (arith, a, r), (m, p, h))
        | inl (value, r) ↦
            let w : PathWatch = record { watch_path = pth; value = value; queries = [] } in
            let s'' : Strategy = record s' { paths = some (insert pth w m) } in
            let h' : IsSound s'' = (
              insert pth w m,
              refl,
              Sound-same m (insert pth w m) s.closed s.next_chan s.has_watcher h
                  (IsKeyed-insert pth w m (λ k. omega arith) h.keyed)
                  (λ g.
                    omega (arith, total-insert (λ v. chan_total g v.queries) pth w m (rw p at f)))
                  (λ e. absurd (ground (arith, b, e))),
            ) in
            let (t, v, e, k) = watch_query-Answers s'' w pth qry (lookup-insert_self pth w m) h' in
            (t, v, ground (arith, a, r, p, e), k)
      ]
    ]

pub watch-Answers : (s : Strategy) (pth qry : String) → IsSound s → Answers (watch s pth qry)
unfolding watch
watch-Answers s pth qry h =
    let s' = (start_watcher s).0 in
    let (h', c) = start_watcher-cases s h in
    elim c [
      | inl (x, a) ↦ (s', err x, ground (arith, a), h')
      | inr (a, b) ↦ elim (Option-cases (find_path s' (clean pth))) [
        | inl f ↦
            let (t, v, e, k) = watch_path-Answers s' (clean pth) (trim_space qry) b f h' in
            (t, v, ground (arith, a, f, e), k)
        | inr (w, f) ↦
            let (t, v, e, k) = watch_query-Answers s' w (clean pth) (trim_space qry) f h' in
            (t, v, ground (arith, a, f, e), k)
      ]
    ]
