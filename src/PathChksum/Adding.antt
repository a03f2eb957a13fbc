-- ===== src/PathChksum/Adding.antt =====
-- Which labels addPath registers.
use hotload.Prelude.{
  ◌≡◌, ◌≢◌, refl, sym, ◌∙◌, subst, ap, String, true, false, ◌⊎◌, ◌↔◌, inl, inr, none, List, [], ◌∷◌,
  arith, In, lookup, IsDistinct, Option-cases, Bool-cases,
}
use hotload.Registry.Names.{keys, In-keys, inserted}
use hotload.PathChksum.{PathChksum, ChksumRecord, new_path_chksum, add_path, clean_path, is_enabled}

-- The labels are those of the paths, each once.
pub record IsSound (s : PathChksum) : Type 0 where
  pub labels : s.registered ≡ keys s.paths
  pub distinct : IsDistinct s.registered

unfoldable pub add_paths : PathChksum → List String → PathChksum
unfolding add_path
add_paths s [] = s
add_paths s (p ∷ ps) = add_paths (add_path s p).0 ps

-- The state with one more path, which is not there yet.
abbrev added : PathChksum → String → PathChksum
added s k =
    let r : ChksumRecord = record { path = k; crc64 = 0; last_changed = 0 } in
    record s { paths = (k, r) ∷ s.paths; registered = k ∷ s.registered }

add_path-cases :
    (s : PathChksum) (p : String)
    → ((s.enabled ≡ false) × ((add_path s p).0 ≡ s))
      ⊎ (((s.enabled ≡ true) × (lookup (clean_path p) s.paths ≢ none) × ((add_path s p).0 ≡ s))
          ⊎ ((s.enabled ≡ true)
              × (lookup (clean_path p) s.paths ≡ none)
              × ((add_path s p).0 ≡ added s (clean_path p))))
unfolding add_path
add_path-cases s p = elim (Bool-cases s.enabled) [
  | inr e ↦ inl (e, ground (arith, e))
  | inl e ↦ inr (elim (Option-cases (lookup (clean_path p) s.paths)) [
    | inr (r, f) ↦ inl (e, ground (arith, f), ground (arith, e, f))
    | inl f ↦ inr (
      e,
      f,
      ground (
        arith,
        e,
        f,
        inserted (clean_path p) (record { path = clean_path p; crc64 = 0; last_changed = 0 })
            s.paths f,
      ),
    )
  ])
]

added-IsSound :
    (s : PathChksum) (k : String) → lookup k s.paths ≡ none → IsSound s → IsSound (added s k)
unfolding keys
added-IsSound s k f h = record {
  labels = ap (◌∷◌ k) h.labels;
  distinct = (λ i. (In-keys k s.paths).0 (rw h.labels at i) f, h.distinct);
}

-- What one call makes of the state, for one label.
pub record Adds (s : PathChksum) (k label : String) (t : PathChksum) : Type 0 where
  pub sound : IsSound t
  pub same : t.enabled ≡ s.enabled
  pub kept : In label s.registered → In label t.registered
  pub new : s.enabled ≡ true → label ≡ k → In label t.registered
  pub only : In label t.registered → In label s.registered ⊎ ((s.enabled ≡ true) × (label ≡ k))

pub add_path-Adds :
    (s : PathChksum) (p label : String) → IsSound s → Adds s (clean_path p) label (add_path s p).0
add_path-Adds s p label h = elim (add_path-cases s p) [
  | inl (e, q) ↦
      subst (λ t. Adds s (clean_path p) label t) (sym q)
        (record {
          sound = h;
          same = refl;
          kept = λ i. i;
          new = λ e' l. absurd (ground (arith, e, e'));
          only = λ i. inl i;
        })
  | inr c ↦ elim c [
    | inl (e, f, q) ↦
        subst (λ t. Adds s (clean_path p) label t) (sym q)
          (record {
            sound = h;
            same = refl;
            kept = λ i. i;
            new = λ e' l. rw l (rw h.labels ((In-keys (clean_path p) s.paths).1 f));
            only = λ i. inl i;
          })
    | inr (e, f, q) ↦
        subst (λ t. Adds s (clean_path p) label t) (sym q)
          (record {
            sound = added-IsSound s (clean_path p) f h;
            same = refl;
            kept = λ i. inr i;
            new = λ e' l. inl l;
            only = λ i. elim i [ inl l ↦ inr (e, l) | inr j ↦ inl j ];
          })
  ]
]

abbrev Given : List String → String → Type 0
Given ps label = (p : String) × In p ps × (label ≡ clean_path p)

-- The label was registered before, or is one of the given paths and checksums are enabled.
abbrev Registers : PathChksum → List String → String → Type 0
Registers s ps label = In label s.registered ⊎ ((s.enabled ≡ true) × Given ps label)

add_paths-IsSound : (s : PathChksum) (ps : List String) → IsSound s → IsSound (add_paths s ps)
unfolding add_paths
add_paths-IsSound s [] h = h
add_paths-IsSound s (p ∷ ps) h =
    add_paths-IsSound (add_path s p).0 ps (add_path-Adds s p "" h).sound

add_paths-only :
    (s : PathChksum) (ps : List String) (label : String)
    → IsSound s
    → In label (add_paths s ps).registered
    → Registers s ps label
unfolding add_paths
add_paths-only s [] label h i = inl i
add_paths-only s (p ∷ ps) label h i =
    let a = add_path-Adds s p label h in
    elim (add_paths-only (add_path s p).0 ps label a.sound i) [
      | inl j ↦ elim (a.only j) [ inl k ↦ inl k | inr (e, l) ↦ inr (e, (p, inl refl, l)) ]
      | inr (e, (q, j, l)) ↦ inr (sym a.same ∙ e, (q, inr j, l))
    ]

add_paths-all :
    (s : PathChksum) (ps : List String) (label : String)
    → IsSound s
    → Registers s ps label
    → In label (add_paths s ps).registered
unfolding add_paths
add_paths-all s [] label h (inl i) = i
add_paths-all s [] label h (inr (e, (q, j, l))) = elim j [ ]
add_paths-all s (p ∷ ps) label h (inl i) =
    let a = add_path-Adds s p label h in
    add_paths-all (add_path s p).0 ps label a.sound (inl (a.kept i))
add_paths-all s (p ∷ ps) label h (inr (e, (q, inl o, l))) =
    let a = add_path-Adds s p label h in
    add_paths-all (add_path s p).0 ps label a.sound (inl (a.new e (rw o at l)))
add_paths-all s (p ∷ ps) label h (inr (e, (q, inr j, l))) =
    let a = add_path-Adds s p label h in
    add_paths-all (add_path s p).0 ps label a.sound (inr (a.same ∙ e, (q, j, l)))

-- After any calls of addPath on a new set of paths, no label has been registered twice, so
-- MustRegister never panicked; if checksums are enabled, the labels are exactly the cleaned paths
-- given, and if not there is none.
pub add_paths-labels :
    (env : String) (ps : List String) (label : String)
    → let s = add_paths (new_path_chksum env) ps in
      IsDistinct s.registered
      × (In label s.registered
          ↔ ((is_enabled env ≡ true) × ((p : String) × In p ps × (label ≡ clean_path p))))
unfolding new_path_chksum keys
add_paths-labels env ps label =
    let h : IsSound (new_path_chksum env) = record { labels = refl; distinct = tt } in
    (
      (add_paths-IsSound (new_path_chksum env) ps h).distinct,
      (
        λ i. elim (add_paths-only (new_path_chksum env) ps label h i) [
          | inl j ↦ elim j [ ]
          | inr q ↦ q
        ],
        λ q. add_paths-all (new_path_chksum env) ps label h (inr q),
      ),
    )
