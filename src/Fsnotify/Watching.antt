-- ===== src/Fsnotify/Watching.antt =====
-- What Watch records and returns.
use hotload.Prelude.{ℕ, ◌≡◌, ◌≢◌, String, Option, none, arith}
use hotload.Prelude.{some, lookup, insert, lookup-insert_self, Option-cases, inl, inr}
use hotload.Fsnotify.{find_path, put_path, PathWatch, QueryWatch}
use hotload.Text.{clean, trim_space}
use hotload.Prelude.{[]}
use hotload.Fsnotify.{add, call_watcher, read_config_file, start_watcher}
use hotload.State.{Result-cases, ok}
use hotload.Registry.{returns}
use hotload.Fsnotify.{
  Strategy, start_watcher, watch_query, watch_path, watch, add_to_default_path_chksum,
}

-- Once the paths map is nil, as Close leaves it, a Watch never succeeds: it reports an error or
-- panics.
pub watch-nil_paths :
    (s t : Strategy) (pth qry : String) (v : String × Option ℕ)
    → s.paths ≡ none
    → watch s pth qry ≢ returns (t, ok v)
unfolding watch start_watcher watch_path watch_query
watch-nil_paths s t pth qry v e h = ground arith

-- The path and the query are watched, with this value and channel.
pub record Watched (s : Strategy) (pth qry value : String) (chan : Option ℕ) : Type 0 where
  pub path_watch : PathWatch
  pub query_watch : QueryWatch
  pub found : find_path s pth ≡ some path_watch
  pub has_value : path_watch.value ≡ value
  pub has_query : lookup qry path_watch.queries ≡ some query_watch
  pub has_chan : query_watch.update_chan ≡ chan

put_path-find :
    (s t : Strategy) (pth : String) (w : PathWatch)
    → put_path s pth w ≡ returns t
    → find_path t pth ≡ some w
put_path-find s t pth w e = elim (Option-cases s.paths) [
  | inl p ↦ ground (arith, p)
  | inr (m, p) ↦ ground (arith, p, lookup-insert_self pth w m)
]

watch_query-Watched :
    (s t : Strategy) (w : PathWatch) (pth qry : String) (v : String) (c : Option ℕ)
    → find_path s pth ≡ some w
    → watch_query s w pth qry ≡ returns (t, ok (v, c))
    → Watched t pth qry v c
unfolding watch_query
watch_query-Watched s t w pth qry v c f e = elim (Option-cases (lookup qry w.queries)) [
  | inr (q, l) ↦ record {
    path_watch = w;
    query_watch = q;
    found = ground arith;
    has_value = ground arith;
    has_query = l;
    has_chan = ground arith;
  }
  | inl l ↦ elim (Option-cases s.paths) [
    | inl p ↦ ground (arith, p)
    | inr (m, p) ↦
        let q : QueryWatch = record {
          path_query = qry;
          update_chan = some s.next_chan;
          oper_chan = [];
        } in
        record {
          path_watch = record w { queries = insert qry q w.queries };
          query_watch = q;
          found = ground (
            arith,
            p,
            l,
            lookup-insert_self pth (record w { queries = insert qry q w.queries }) m,
          );
          has_value = ground (arith, p, l);
          has_query = lookup-insert_self qry q w.queries;
          has_chan = ground (arith, p, l);
        }
  ]
]

watch_path-Watched :
    (s t : Strategy) (pth qry : String) (v : String) (c : Option ℕ)
    → watch_path s pth qry ≡ returns (t, ok (v, c))
    → Watched t pth qry v c
unfolding watch_path add_to_default_path_chksum
watch_path-Watched s t pth qry v c e =
    let s' = add_to_default_path_chksum (call_watcher s (add pth)).0 pth in
    elim (Option-cases (call_watcher s (add pth)).1) [
      | inr (x, a) ↦ ground (arith, a)
      | inl a ↦ elim (Result-cases (read_config_file s' pth)) [
        | inr (x, r) ↦ ground (arith, a, r)
        | inl (value, r) ↦
            let w : PathWatch = record { watch_path = pth; value = value; queries = [] } in
            elim (Option-cases s.paths) [
              | inl p ↦ ground (arith, a, r, p)
              | inr (m, p) ↦
                  let s'' : Strategy = record s' { paths = some (insert pth w m) } in
                  watch_query-Watched s'' t w pth qry v c (lookup-insert_self pth w m)
                    (ground (arith, a, r, p))
            ]
      ]
    ]

-- If Watch succeeds, the cleaned path and the trimmed query are watched afterwards, with the value
-- and the channel that it returned.
pub watch-Watched :
    (s t : Strategy) (pth qry : String) (v : String) (c : Option ℕ)
    → watch s pth qry ≡ returns (t, ok (v, c))
    → Watched t (clean pth) (trim_space qry) v c
unfolding watch
watch-Watched s t pth qry v c e =
    let s' = (start_watcher s).0 in
    elim (Option-cases (start_watcher s).1) [
      | inr (x, a) ↦ ground (arith, a)
      | inl a ↦ elim (Option-cases (find_path s' (clean pth))) [
        | inl f ↦ watch_path-Watched s' t (clean pth) (trim_space qry) v c (ground (arith, a, f))
        | inr (w, f) ↦
            watch_query-Watched s' t w (clean pth) (trim_space qry) v c f (ground (arith, a, f))
      ]
    ]
