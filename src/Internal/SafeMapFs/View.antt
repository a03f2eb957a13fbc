-- ===== src/Internal/SafeMapFs/View.antt =====
-- What a client sees of the map: a file for each path, whatever the pointers.
use hotload.Prelude.{
  ℕ, suc, ◌<◌, ◌≡◌, refl, sym, subst, ap, ap₂, fun_ext, String, inl, inr, none, some, List, [], ◌∷◌,
  arith, lookup, insert, erase, lookup-insert, lookup-erase, update, str_eq, Option-cases,
  Bool-cases,
}
use mathlib.Core.Option
use hotload.Internal.SafeMapFs.{
  SafeMapFs, MapFile, Files, view, forward, new_safe_map_fs, allocate, unrooted_path,
}
use hotload.Internal.SafeMapFs.Client.{
  Op, adds, upserts, gets, removes, perform, perform_all, perform_last, put, spec, spec_all,
  spec_last,
}

-- Pointers of the map are below the next one.
abbrev Fresh : SafeMapFs → Type 0
Fresh s = (k : String) (p : ℕ) → lookup k s.map_fs ≡ some p → p < s.next

-- One call: the answer, the view and freshness.
record Agrees (s : SafeMapFs) (o : Op) : Type 0 where
  answers : (perform s o).1 ≡ (spec (view s) o).1
  views : (k : String) → view (perform s o).0 k ≡ (spec (view s) o).0 k
  fresh : Fresh (perform s o).0

-- A fresh cell changes no file of the map.
kept :
    (s : SafeMapFs) (f : MapFile) (k : String)
    → Fresh s
    → Option.map (update s.heap s.next f) (lookup k s.map_fs) ≡ view s k
kept s f k h = elim (Option-cases (lookup k s.map_fs)) [
  | inl l ↦ ground (arith, l)
  | inr (q, l) ↦ ground (arith, l, h k q l)
]

-- A fresh cell under a path.
abbrev stored : SafeMapFs → String → MapFile → SafeMapFs
stored s k f = record s {
  map_fs = insert k s.next s.map_fs;
  heap = update s.heap s.next f;
  next = suc s.next;
}

stored-view :
    (s : SafeMapFs) (k j : String) (f : MapFile)
    → Fresh s
    → view (stored s k f) j ≡ put (view s) k (some f) j
stored-view s k j f h = ground (arith, lookup-insert k j s.next s.map_fs, kept s f j h)

stored-Fresh : (s : SafeMapFs) (k : String) (f : MapFile) → Fresh s → Fresh (stored s k f)
stored-Fresh s k f h j q l = elim (Bool-cases (str_eq k j)) [
  | inl b ↦ ground (arith, b, lookup-insert k j s.next s.map_fs)
  | inr b ↦
      let old : lookup j s.map_fs ≡ some q = ground (arith, b, lookup-insert k j s.next s.map_fs) in
      ground (arith, h j q old)
]

grown-Fresh : (s : SafeMapFs) (f : MapFile) → Fresh s → Fresh (allocate s f).0
unfolding allocate
grown-Fresh s f h j q l = ground (arith, h j q l)

erased-Fresh :
    (s : SafeMapFs) (k : String) → Fresh s → Fresh (record s { map_fs = erase k s.map_fs })
erased-Fresh s k h j q l = elim (Bool-cases (str_eq k j)) [
  | inl b ↦ ground (arith, b, lookup-erase k j s.map_fs)
  | inr b ↦
      let old : lookup j s.map_fs ≡ some q = ground (arith, b, lookup-erase k j s.map_fs) in
      h j q old
]

add-Agrees : (s : SafeMapFs) (p : String) (f : MapFile) → Fresh s → Agrees s (adds p f)
unfolding perform spec
add-Agrees s p f h = elim (Option-cases (lookup (unrooted_path p) s.map_fs)) [
  | inl l ↦ record {
    answers = ground (arith, l);
    views = λ k. ground (arith, l, stored-view s (unrooted_path p) k f h);
    fresh = rw l (stored-Fresh s (unrooted_path p) f h);
  }
  | inr (q, l) ↦ record {
    answers = ground (arith, l);
    views = λ k. ground (arith, l, kept s f k h);
    fresh = rw l (grown-Fresh s f h);
  }
]

get-Agrees : (s : SafeMapFs) (p : String) → Fresh s → Agrees s (gets p)
unfolding perform spec
get-Agrees s p h = elim (Option-cases (lookup (unrooted_path p) s.map_fs)) [
  | inl l ↦ record {
    answers = ground (arith, l);
    views = λ k. ground (arith, l);
    fresh = let same : (perform s (gets p)).0 ≡ s = ground (arith, l) in subst Fresh (sym same) h;
  }
  | inr (q, l) ↦ record {
    answers = ground (arith, l);
    views = λ k. ground (arith, l, kept s (s.heap q) k h);
    fresh =
        let same : (perform s (gets p)).0 ≡ (allocate s (s.heap q)).0 = ground (arith, l) in
        subst Fresh (sym same) (grown-Fresh s (s.heap q) h);
  }
]

remove-Agrees : (s : SafeMapFs) (p : String) → Fresh s → Agrees s (removes p)
unfolding perform spec
remove-Agrees s p h = elim (Option-cases (lookup (unrooted_path p) s.map_fs)) [
  | inl l ↦ record {
    answers = ground (arith, l);
    views = λ k. ground (arith, l);
    fresh =
        let same : (perform s (removes p)).0 ≡ s = ground (arith, l) in subst Fresh (sym same) h;
  }
  | inr (q, l) ↦ record {
    answers = ground (arith, l);
    views = λ k. ground (arith, l, lookup-erase (unrooted_path p) k s.map_fs);
    fresh =
        let same : (perform s (removes p)).0
            ≡ record s { map_fs = erase (unrooted_path p) s.map_fs } =
          ground (arith, l) in
        subst Fresh (sym same) (erased-Fresh s (unrooted_path p) h);
  }
]

perform-Agrees : (s : SafeMapFs) (o : Op) → Fresh s → Agrees s o
unfolding perform spec
perform-Agrees s (adds p f) h = add-Agrees s p f h
perform-Agrees s (upserts p f) h = record {
  answers = refl;
  views = λ k. stored-view s (unrooted_path p) k f h;
  fresh = stored-Fresh s (unrooted_path p) f h;
}
perform-Agrees s (gets p) h = get-Agrees s p h
perform-Agrees s (removes p) h = remove-Agrees s p h

perform_all-spec :
    (s : SafeMapFs) (m : Files) (os : List Op)
    → Fresh s
    → view s ≡ m
    → perform_all s os ≡ spec_all m os
unfolding perform_all spec_all
perform_all-spec s m [] h e = refl
perform_all-spec s m (o ∷ os) h e =
    let a = perform-Agrees s o h in
    rw⁻¹ e (
      ap₂ ◌∷◌ a.answers
        (perform_all-spec (perform s o).0 (spec (view s) o).0 os a.fresh (fun_ext a.views)))

perform_last-view :
    (s : SafeMapFs) (m : Files) (os : List Op)
    → Fresh s
    → view s ≡ m
    → view (perform_last s os) ≡ spec_last m os
unfolding perform_last spec_last
perform_last-view s m [] h e = e
perform_last-view s m (o ∷ os) h e =
    let a = perform-Agrees s o h in
    rw⁻¹ e (perform_last-view (perform s o).0 (spec (view s) o).0 os a.fresh (fun_ext a.views))

-- Any calls on a new map, over any heap, get the answers of a map from unrooted paths to files: a
-- file that was stored is read back, a path is added only once, and no call changes another path.
-- A Glob, Open, ReadDir, ReadFile, Stat or Sub after them answers what that method of fstest.MapFS
-- makes of the map from paths to files.
pub perform_all-refines :
    {A : Type 0} (heap : ℕ → MapFile) (next : ℕ) (os : List Op) (method : Files → String → A)
    (name : String)
    → (perform_all (new_safe_map_fs heap next) os ≡ spec_all (λ k. none) os)
      × (forward method (perform_last (new_safe_map_fs heap next) os) name
          ≡ method (spec_last (λ k. none) os) name)
unfolding new_safe_map_fs lookup forward
perform_all-refines heap next os method name =
    let s = new_safe_map_fs heap next in
    let fresh : Fresh s = λ k q l. ground arith in
    (
      perform_all-spec s (λ k. none) os fresh refl,
      ap (λ m. method m name) (perform_last-view s (λ k. none) os fresh refl),
    )
