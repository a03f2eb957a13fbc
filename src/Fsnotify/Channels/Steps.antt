-- ===== src/Fsnotify/Channels/Steps.antt =====
-- fsnotify/filewatcher.go: CloseWatch, and resync with setVal, on a sound strategy.
use hotload.Prelude.{
  entries, Unique, Unique-insert, ℕ, ◌≡◌, refl, sym, subst, String, Bool, true, false, Option, some,
  List, [], ◌∷◌, ◌++◌, arith, lookup, insert, total-insert_found, inl, inr, Option-cases,
}
use hotload.State.{Result-cases}
use hotload.Text.{clean, trim_space}
use hotload.Registry.{Outcome, returns}
use hotload.Fsnotify.{
  QueryWatch, PathWatch, Strategy, PendingOperation, send, close, send_all, find_path, put_path,
  set_val, close_watch, resync, read_config_file,
}
use hotload.Fsnotify.Loop.{refresh}
use hotload.Fsnotify.Channels.{chan_total, IsSound, Sound-same, IsKeyed-insert, queries-Unique}

-- The call returned, and the strategy that it left is sound.
abbrev pub Keeps : Outcome Strategy → Type 0
Keeps r = (t : Strategy) × (r ≡ returns t) × IsSound t

-- Whoever watches a path has a watcher.
pub found-watching :
    (m : List (String × PathWatch)) (pth : String) (w : PathWatch) (b : Bool)
    → lookup pth m ≡ some w
    → (b ≡ false → m ≡ [])
    → b ≡ true
unfolding lookup
found-watching m pth w true f h = refl
found-watching m pth w false f h = absurd (ground (arith, rw (h refl) at f))

chan_total-send_all :
    (g : Option ℕ → ℕ) (op : PendingOperation) (qs : List (String × QueryWatch))
    → chan_total g (send_all op qs) ≡ chan_total g qs
unfolding send_all
chan_total-send_all g op [] = refl
chan_total-send_all g op (x ∷ qs) = omega (arith, chan_total-send_all g op qs)

entries-send_all :
    (k : String) (op : PendingOperation) (qs : List (String × QueryWatch))
    → entries k (send_all op qs) ≡ entries k qs
unfolding send_all entries
entries-send_all k op [] = refl
entries-send_all k op (x ∷ qs) = omega (arith, entries-send_all k op qs)

-- A path's watch is replaced by one with the same channels.
put_path-Keeps :
    (s : Strategy) (pth : String) (w w' : PathWatch)
    → find_path s pth ≡ some w
    → (Unique w.queries
        → Unique w'.queries
          × ((g : Option ℕ → ℕ) → chan_total g w'.queries ≡ chan_total g w.queries))
    → IsSound s
    → Keeps (put_path s pth w')
put_path-Keeps s pth w w' f change (m, p, h) =
    let l : lookup pth m ≡ some w = rw p at f in
    let b = found-watching m pth w s.has_watcher l h.watched in
    let (u, same) = change (queries-Unique pth w m h.keyed.queries l) in
    (
      record s { paths = some (insert pth w' m) },
      ground (arith, p),
      (
        insert pth w' m,
        refl,
        Sound-same m (insert pth w' m) s.closed s.next_chan s.has_watcher h
            (IsKeyed-insert pth w' m u h.keyed)
            (λ g. omega (
              arith,
              same g,
              total-insert_found (λ v. chan_total g v.queries) pth w' w m h.keyed.paths l,
            ))
            (λ e. absurd (ground (arith, b, e))),
      ),
    )

pub set_val-Keeps : (s : Strategy) (pth val : String) → IsSound s → Keeps (set_val s pth val)
unfolding set_val
set_val-Keeps s pth val h = elim (Option-cases (find_path s pth)) [
  | inl f ↦ (s, ground (arith, f), h)
  | inr (w, f) ↦
      rw (f, set_val)
        (put_path-Keeps s pth w _ f
          (λ u. (
            λ k. omega (arith, u k, entries-send_all k (send val) w.queries),
            λ g. chan_total-send_all g (send val) w.queries,
          ))
          h)
]

pub close_watch-Keeps :
    (s : Strategy) (pth qry : String) → IsSound s → Keeps (close_watch s pth qry)
unfolding close_watch
close_watch-Keeps s pth qry h = elim (Option-cases (find_path s (clean pth))) [
  | inl f ↦ (s, ground (arith, f), h)
  | inr (w, f) ↦ elim (Option-cases (lookup (trim_space qry) w.queries)) [
    | inl l ↦ (s, ground (arith, f, l), h)
    | inr (q, l) ↦
        let q' : QueryWatch = record q {
          oper_chan = q.oper_chan ++ (close (clean pth) (trim_space qry) ∷ []);
        } in
        rw (f, l, close_watch)
          (put_path-Keeps s (clean pth) w _ f
            (λ u. (
              Unique-insert (trim_space qry) q' w.queries u,
              λ g. omega (
                arith,
                total-insert_found (λ x. g x.update_chan) (trim_space qry) q' q w.queries u l,
              ),
            ))
            h)
  ]
]

resync-calls :
    (s : Strategy) (pth : String) → (resync s pth).0 ≡ record s { calls = (resync s pth).0.calls }
unfolding resync read_config_file
resync-calls s pth = ground arith

resync-IsSound : (s : Strategy) (pth : String) → IsSound s → IsSound (resync s pth).0
resync-IsSound s pth h = subst IsSound (sym (resync-calls s pth)) h

pub refresh-Keeps :
    (s : Strategy) (pth : String)
    → IsSound s
    → (t : Strategy) × (fixed : Bool) × (refresh s pth ≡ returns (t, fixed)) × IsSound t
unfolding refresh
refresh-Keeps s pth h = elim (Result-cases (resync s pth).1) [
  | inr (x, r) ↦ ((resync s pth).0, false, ground (arith, r), resync-IsSound s pth h)
  | inl (val, r) ↦
      let (t, e, k) = set_val-Keeps (resync s pth).0 pth val (resync-IsSound s pth h) in
      (t, true, ground (arith, r, e), k)
]
