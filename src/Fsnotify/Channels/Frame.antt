-- ===== src/Fsnotify/Channels/Frame.antt =====
-- fsnotify/filewatcher.go: operations that watch no new path and add no label.
use hotload.Prelude.{
  ℕ, suc, ◌+◌, ◌≡◌, refl, ◌∙◌, subst, String, Bool, Option, none, some, [], ◌∷◌, arith, lookup,
  insert, erase, lookup-insert, lookup-erase, inl, inr, Option-cases, List-cases, ◌++◌, eq_iff,
}
use hotload.State.{Result, Result-cases}
use hotload.Text.{clean, trim_space}
use hotload.Registry.{Outcome-cases, returns}
use hotload.Fsnotify.{
  QueryWatch, PathWatch, Strategy, find_path, put_path, start_watcher, watch_query, close_watch,
  close, send, send_all, set_val, resync,
}
use hotload.Fsnotify.Close.{close_update_chan, drop_path, process_watch_closure}
use hotload.Fsnotify.Loop.{refresh}

-- The labels stay, and no path is newly watched.
pub record Same (s t : Strategy) : Type 0 where
  pub chksum_eq : t.chksum ≡ s.chksum
  pub fewer : (k : String) → find_path s k ≡ none → find_path t k ≡ none

pub Same-trans : (s t u : Strategy) → Same s t → Same t u → Same s u
Same-trans s t u a b = record {
  chksum_eq = b.chksum_eq ∙ a.chksum_eq;
  fewer = λ k f. b.fewer k (a.fewer k f);
}

put_path-Same :
    (s t : Strategy) (pth : String) (v w : PathWatch)
    → find_path s pth ≡ some v
    → put_path s pth w ≡ returns t
    → Same s t
put_path-Same s t pth v w f e = elim (Option-cases s.paths) [
  | inl p ↦ absurd (ground (arith, p, e))
  | inr (m, p) ↦
      let same : record s { paths = some (insert pth w m) } ≡ t = ground (arith, p, e) in
      subst (Same s) same (record {
        chksum_eq = refl;
        fewer = λ k g. ground (arith, p, f, g, lookup-insert pth k w m, eq_iff pth k);
      })
]

unchanged : (s t : Strategy) → s ≡ t → Same s t
unchanged s t e = subst (Same s) e (record { chksum_eq = refl; fewer = λ k g. g })

pub close_watch-Same :
    (s t : Strategy) (pth qry : String) → close_watch s pth qry ≡ returns t → Same s t
unfolding close_watch
close_watch-Same s t pth qry e = elim (Option-cases (find_path s (clean pth))) [
  | inl f ↦ unchanged s t (ground (arith, f, e))
  | inr (w, f) ↦ elim (Option-cases (lookup (trim_space qry) w.queries)) [
    | inl l ↦ unchanged s t (ground (arith, f, l, e))
    | inr (q, l) ↦
        let op = close (clean pth) (trim_space qry) in
        let q' : QueryWatch = record q { oper_chan = q.oper_chan ++ (op ∷ []) } in
        put_path-Same s t (clean pth) w
          (record w { queries = insert (trim_space qry) q' w.queries }) f (ground (arith, f, l, e))
  ]
]

close_update_chan-Same :
    (s t : Strategy) (q : QueryWatch) → close_update_chan s q ≡ returns t → Same s t
unfolding close_update_chan
close_update_chan-Same s t q e = record {
  chksum_eq = ground (arith, e);
  fewer = λ k g. ground (arith, e, g);
}

close_update_chan-paths :
    (s t : Strategy) (q : QueryWatch) → close_update_chan s q ≡ returns t → t.paths ≡ s.paths
unfolding close_update_chan
close_update_chan-paths s t q e = ground (arith, e)

drop_path-Same :
    (s t : Strategy) (pth : String) (v w : PathWatch)
    → find_path s pth ≡ some v
    → drop_path s pth w ≡ returns t
    → Same s t
unfolding drop_path
drop_path-Same s t pth v w f e = elim (List-cases w.queries) [
  | inr (q, qs, l) ↦ put_path-Same s t pth v w f (ground (arith, l, e))
  | inl l ↦ elim (Option-cases s.paths) [
    | inl p ↦ absurd (ground (arith, p, f))
    | inr (m, p) ↦ record {
      chksum_eq = ground (arith, l, e);
      fewer = λ k g. ground (arith, l, e, p, g, lookup-erase pth k m);
    }
  ]
]

pub process_watch_closure-Same :
    (s t : Strategy) (pth qry : String) → process_watch_closure s pth qry ≡ returns t → Same s t
unfolding process_watch_closure
process_watch_closure-Same s t pth qry e = elim (Option-cases (find_path s pth)) [
  | inl f ↦ unchanged s t (ground (arith, f, e))
  | inr (w, f) ↦ elim (Option-cases (lookup qry w.queries)) [
    | inl l ↦ drop_path-Same s t pth w w f (ground (arith, f, l, e))
    | inr (q, l) ↦
        let w' : PathWatch = record w { queries = erase qry w.queries } in
        elim (Outcome-cases (close_update_chan s q)) [
          | inr c ↦ absurd (ground (arith, f, l, c, e))
          | inl (s', c) ↦
              let f' : find_path s' pth ≡ some w = rw (close_update_chan-paths s s' q c) f in
              Same-trans s s' t (close_update_chan-Same s s' q c)
                (drop_path-Same s' t pth w w' f' (ground (arith, f, l, c, e)))
        ]
  ]
]

set_val-Same : (s t : Strategy) (pth val : String) → set_val s pth val ≡ returns t → Same s t
unfolding set_val
set_val-Same s t pth val e = elim (Option-cases (find_path s pth)) [
  | inl f ↦ unchanged s t (ground (arith, f, e))
  | inr (w, f) ↦
      put_path-Same s t pth w (record w { value = val; queries = send_all (send val) w.queries }) f
        (ground (arith, f, e))
]

resync-Same : (s : Strategy) (pth : String) → Same s (resync s pth).0
unfolding resync
resync-Same s pth = record { chksum_eq = ground arith; fewer = λ k g. ground (arith, g) }

pub refresh-Same :
    (s t : Strategy) (pth : String) (fixed : Bool) → refresh s pth ≡ returns (t, fixed) → Same s t
unfolding refresh
refresh-Same s t pth fixed e =
    let s' = (resync s pth).0 in
    elim (Result-cases (resync s pth).1) [
      | inr (x, r) ↦
          let same : s' ≡ t = ground (arith, r, e) in subst (Same s) same (resync-Same s pth)
      | inl (val, r) ↦ elim (Outcome-cases (set_val s' pth val)) [
        | inr c ↦ absurd (ground (arith, r, c, e))
        | inl (u, c) ↦
            let same : u ≡ t = ground (arith, r, c, e) in
            subst (Same s) same
              (Same-trans s s' u (resync-Same s pth) (set_val-Same s' u pth val c))
      ]
    ]

pub start_watcher-Same : (s : Strategy) → Same s (start_watcher s).0
unfolding start_watcher
start_watcher-Same s = record { chksum_eq = ground arith; fewer = λ k g. ground (arith, g) }

pub watch_query-Same :
    (s t : Strategy) (w : PathWatch) (pth qry : String) (r : Result (String × Option ℕ))
    → find_path s pth ≡ some w
    → watch_query s w pth qry ≡ returns (t, r)
    → Same s t
unfolding watch_query
watch_query-Same s t w pth qry r f e = elim (Option-cases (lookup qry w.queries)) [
  | inr (q, l) ↦ unchanged s t (ground (arith, l, e))
  | inl l ↦
      let q : QueryWatch = record {
        path_query = qry;
        update_chan = some s.next_chan;
        oper_chan = [];
      } in
      let s' : Strategy = record s { next_chan = suc s.next_chan; op_loops = s.op_loops + 1 } in
      let w' : PathWatch = record w { queries = insert qry q w.queries } in
      elim (Outcome-cases (put_path s' pth w')) [
        | inr c ↦ absurd (ground (arith, l, c, e))
        | inl (u, c) ↦
            let same : u ≡ t = ground (arith, l, c, e) in
            let k = put_path-Same s' u pth w w' f c in
            subst (Same s) same (record { chksum_eq = k.chksum_eq; fewer = k.fewer })
      ]
]
