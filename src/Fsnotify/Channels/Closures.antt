-- ===== src/Fsnotify/Channels/Closures.antt =====
-- fsnotify/filewatcher.go: processWatchClosure on a sound strategy.
use hotload.Prelude.{
  ap, Unique, Unique-erase, ℕ, ◌+◌, ◌≤◌, ◌≡◌, refl, String, Bool, true, Option, some, List, ◌∷◌,
  arith, lookup, insert, erase, total-erase_found, total-insert_found, total-found, inl, inr,
  Option-cases, List-cases,
}
use hotload.Registry.{returns}
use hotload.Fsnotify.Close.{close_update_chan, drop_path, process_watch_closure}
use hotload.Fsnotify.{QueryWatch, PathWatch, Strategy, find_path, call_watcher, remove}
use hotload.Fsnotify.Channels.{
  chan_total, sum, is_nil, is_chan, Sound, IsSound, Sound-same, Sound-close, Sound-once, IsKeyed,
  IsKeyed-insert, IsKeyed-erase, queries-Unique,
}
use hotload.Fsnotify.Channels.Steps.{Keeps, found-watching}

drop_path-Keeps :
    (s : Strategy) (pth : String) (w w' : PathWatch) (m : List (String × PathWatch))
    → s.paths ≡ some m
    → lookup pth m ≡ some w
    → s.has_watcher ≡ true
    → IsKeyed m
    → Unique w'.queries
    → ((n : List (String × PathWatch))
        → IsKeyed n
        → ((g : Option ℕ → ℕ)
            → sum g n + chan_total g w.queries ≡ chan_total g w'.queries + sum g m)
        → Sound n s.closed s.next_chan true)
    → Keeps (drop_path s pth w')
unfolding drop_path
drop_path-Keeps s pth w w' m p l b keyed u ok_if = elim (List-cases w'.queries) [
  | inl e ↦ (
    record (call_watcher s (remove pth)).0 { paths = some (erase pth m) },
    ground (arith, p, b, e),
    (
      erase pth m,
      refl,
      rw b (
          ok_if (erase pth m) (IsKeyed-erase pth m keyed) (λ g. omega (
            arith,
            ap (chan_total g) e,
            total-erase_found (λ v. chan_total g v.queries) pth w m keyed.paths l,
          ))),
    ),
  )
  | inr (q, qs, e) ↦ (
    record s { paths = some (insert pth w' m) },
    ground (arith, p, e),
    (
      insert pth w' m,
      refl,
      rw b (
          ok_if (insert pth w' m) (IsKeyed-insert pth w' m u keyed) (λ g.
            omega
              (arith, total-insert_found (λ v. chan_total g v.queries) pth w' w m keyed.paths l))),
    ),
  )
]

-- The channel of a watched query, which counts among those of all paths.
pub found-chan :
    (pth qry : String) (w : PathWatch) (q : QueryWatch) (m : List (String × PathWatch))
    {closed : List ℕ} {next : ℕ} {b : Bool}
    → lookup pth m ≡ some w
    → lookup qry w.queries ≡ some q
    → Sound m closed next b
    → (c : ℕ) × (q.update_chan ≡ some c) × (1 ≤ sum (is_chan c) m)
found-chan pth qry w q m l k h =
    let has : (g : Option ℕ → ℕ) → g q.update_chan ≤ sum g m = λ g. omega (
      arith,
      total-found (λ v. chan_total g v.queries) pth w m l,
      total-found (λ x. g x.update_chan) qry q w.queries k,
    ) in
    elim (Option-cases q.update_chan) [
      | inl n ↦ absurd (omega (arith, rw n at (has is_nil), h.no_nil))
      | inr (c, n) ↦ let one = rw n at (has (is_chan c)) in (c, n, ground (arith, one))
    ]

close_found :
    (s : Strategy) (q : QueryWatch) (c : ℕ) (m : List (String × PathWatch))
    → q.update_chan ≡ some c
    → 1 ≤ sum (is_chan c) m
    → Sound m s.closed s.next_chan s.has_watcher
    → close_update_chan s q ≡ returns (record s { closed = c ∷ s.closed })
unfolding close_update_chan
close_found s q c m u heavy h = ground (arith, u, heavy, Sound-once h c)

pub process_watch_closure-Keeps :
    (s : Strategy) (pth qry : String) → IsSound s → Keeps (process_watch_closure s pth qry)
unfolding process_watch_closure
process_watch_closure-Keeps s pth qry (m, p, h) = elim (Option-cases (find_path s pth)) [
  | inl f ↦ (s, ground (arith, f), (m, p, h))
  | inr (w, f) ↦
      let l : lookup pth m ≡ some w = rw p at f in
      let b = found-watching m pth w s.has_watcher l h.watched in
      let unique = queries-Unique pth w m h.keyed.queries l in
      elim (Option-cases (lookup qry w.queries)) [
        | inl k ↦
            rw (f, k, process_watch_closure)
              (drop_path-Keeps s pth w w m p l b h.keyed unique (λ n key eq.
                Sound-same m n s.closed s.next_chan true (rw b at h) key (λ g. omega (arith, eq g))
                  (λ e. ground arith)))
        | inr (q, k) ↦
            let (c, u, heavy) = found-chan pth qry w q m l k h in
            let e = close_found s q c m u heavy h in
            let (t, e', i) =
              drop_path-Keeps (record s { closed = c ∷ s.closed }) pth w
                (record w { queries = erase qry w.queries }) m p l b h.keyed
                (Unique-erase qry w.queries unique)
                (λ n key eq.
                  Sound-close m n s.closed s.next_chan c true (rw b at h) key
                    (λ g.
                      let gone =
                        total-erase_found (λ x. g x.update_chan) qry q w.queries unique k in
                      omega (arith, eq g, rw u at gone))
                    (λ e. ground arith)) in
            (t, ground (arith, f, k, e, e'), i)
      ]
]
