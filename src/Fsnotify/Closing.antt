-- ===== src/Fsnotify/Closing.antt =====
-- fsnotify/filewatcher.go: what Close leaves.
use hotload.Prelude.{
  ℕ, ◌≡◌, refl, ◌∙◌, String, false, inl, inr, none, some, List, [], ◌∷◌, arith, In, lookup, str_eq,
  Option-cases, Bool-cases, ◌⊎◌, ltb, count,
}
use hotload.Registry.{Outcome-cases, returns, panics}
use hotload.Fsnotify.Close.{
  close_paths, close_queries, close_strategy, close_update_chan, stop_watcher,
}
use hotload.Fsnotify.{Strategy, PathWatch, QueryWatch, find_path}

-- From `s` to `t` only channels were closed.
record Closes (s t : Strategy) : Type 0 where
  same_paths : t.paths ≡ s.paths
  same_watcher : t.has_watcher ≡ s.has_watcher
  keeps : (c : ℕ) → In c s.closed → In c t.closed

Closes-trans : (s t u : Strategy) → Closes s t → Closes t u → Closes s u
Closes-trans s t u p q = record {
  same_paths = cc;
  same_watcher = cc;
  keeps = λ c i. q.keeps c (p.keeps c i);
}

Closes-refl : (s : Strategy) → Closes s s
Closes-refl s = record { same_paths = refl; same_watcher = refl; keeps = λ c i. i }

close_update_chan-cases :
    (s : Strategy) (q : QueryWatch)
    → (close_update_chan s q ≡ panics)
      ⊎ ((c : ℕ) × (q.update_chan ≡ some c)
          × (close_update_chan s q ≡ returns (record s { closed = c ∷ s.closed })))
unfolding close_update_chan
close_update_chan-cases s q = elim (Option-cases q.update_chan) [
  | inl n ↦ inl (ground (arith, n))
  | inr (c, n) ↦ elim (Bool-cases (ltb 0 (count c s.closed))) [
    | inl b ↦ inl (ground (arith, n, b))
    | inr b ↦ inr (c, n, ground (arith, n, b))
  ]
]

close_queries-Closes :
    (s t : Strategy) (qs : List (String × QueryWatch)) → close_queries s qs ≡ returns t → Closes s t
unfolding close_queries
close_queries-Closes s t [] e = let h : t ≡ s = ground arith in rw h (Closes-refl s)
close_queries-Closes s t (q ∷ qs) e = elim (close_update_chan-cases s q.1) [
  | inl n ↦ ground (arith, n)
  | inr (c, n, r) ↦
      let s' : Strategy = record s { closed = c ∷ s.closed } in
      Closes-trans s s' t (record { same_paths = refl; same_watcher = refl; keeps = λ x i. inr i })
        (close_queries-Closes s' t qs (ground (arith, r)))
]

close_queries-closes :
    (s t : Strategy) (qs : List (String × QueryWatch)) (k : String) (q : QueryWatch) (c : ℕ)
    → close_queries s qs ≡ returns t
    → lookup k qs ≡ some q
    → q.update_chan ≡ some c
    → In c t.closed
unfolding close_queries lookup
close_queries-closes s t [] k q c e l u = ground arith
close_queries-closes s t (x ∷ qs) k q c e l u = elim (close_update_chan-cases s x.1) [
  | inl n ↦ ground (arith, n)
  | inr (d, n, r) ↦
      let s' : Strategy = record s { closed = d ∷ s.closed } in
      let e' : close_queries s' qs ≡ returns t = ground (arith, r) in
      elim (Bool-cases (str_eq x.0 k)) [
        | inl b ↦ (close_queries-Closes s' t qs e').keeps c (inl (ground arith))
        | inr b ↦ close_queries-closes s' t qs k q c e' (rw b at l) u
      ]
]

close_paths-Closes :
    (s t : Strategy) (ws : List (String × PathWatch)) → close_paths s ws ≡ returns t → Closes s t
unfolding close_paths
close_paths-Closes s t [] e = let h : t ≡ s = ground arith in rw h (Closes-refl s)
close_paths-Closes s t (w ∷ ws) e = elim (Outcome-cases (close_queries s w.1.queries)) [
  | inr p ↦ ground (arith, p)
  | inl (s', r) ↦
      Closes-trans s s' t (close_queries-Closes s s' w.1.queries r)
        (close_paths-Closes s' t ws (ground (arith, r)))
]

close_paths-closes :
    (s t : Strategy) (ws : List (String × PathWatch)) (pth k : String) (w : PathWatch)
    (q : QueryWatch) (c : ℕ)
    → close_paths s ws ≡ returns t
    → lookup pth ws ≡ some w
    → lookup k w.queries ≡ some q
    → q.update_chan ≡ some c
    → In c t.closed
unfolding close_paths lookup
close_paths-closes s t [] pth k w q c e f l u = ground arith
close_paths-closes s t (x ∷ ws) pth k w q c e f l u =
    elim (Outcome-cases (close_queries s x.1.queries)) [
      | inr p ↦ ground (arith, p)
      | inl (s', r) ↦
          let e' : close_paths s' ws ≡ returns t = ground (arith, r) in
          elim (Bool-cases (str_eq x.0 pth)) [
            | inl b ↦
                let same : x.1 ≡ w = ground arith in
                (close_paths-Closes s' t ws e').keeps c
                  (close_queries-closes s s' x.1.queries k q c r (rw same l) u)
            | inr b ↦ close_paths-closes s' t ws pth k w q c e' (rw b at f) l u
          ]
    ]

stopped : (s : Strategy) → (stop_watcher s).has_watcher ≡ false
unfolding stop_watcher
stopped s = ground arith

pub close_strategy-stops : (s t : Strategy) → close_strategy s ≡ returns t → t.has_watcher ≡ false
unfolding close_strategy
close_strategy-stops s t e = elim (Option-cases s.paths) [
  | inl p ↦ ground (arith, p, stopped s)
  | inr (m, p) ↦ elim (Outcome-cases (close_paths (stop_watcher s) m)) [
    | inr r ↦ ground (arith, p, r)
    | inl (s', r) ↦
        let k = close_paths-Closes (stop_watcher s) s' m r in
        ground (arith, p, r, k.same_watcher, stopped s)
  ]
]

-- If Close returns, the strategy has no watcher and no paths, and the channel of every query that
-- was watched is closed.
pub close_strategy-closes :
    (s t : Strategy) (pth qry : String) (w : PathWatch) (q : QueryWatch) (c : ℕ)
    → close_strategy s ≡ returns t
    → find_path s pth ≡ some w
    → lookup qry w.queries ≡ some q
    → q.update_chan ≡ some c
    → (t.paths ≡ none) × (t.has_watcher ≡ false) × In c t.closed
unfolding close_strategy stop_watcher
close_strategy-closes s t pth qry w q c e f l u = elim (Option-cases s.paths) [
  | inl p ↦ ground (arith, p)
  | inr (m, p) ↦ elim (Outcome-cases (close_paths (stop_watcher s) m)) [
    | inr r ↦ ground (arith, p, r)
    | inl (s', r) ↦
        let k = close_paths-Closes (stop_watcher s) s' m r in
        let i = close_paths-closes (stop_watcher s) s' m pth qry w q c r (rw p at f) l u in
        let h : t ≡ record s' { paths = none } = ground (arith, p, r) in
        (rw h refl, rw h (k.same_watcher ∙ stopped s), rw h i)
  ]
]
