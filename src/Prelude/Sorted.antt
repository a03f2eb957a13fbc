-- ===== src/Prelude/Sorted.antt =====
-- Lists of strings that strictly ascend, and insertion into them.

use Prim.Native.String.{String}
use mathlib.Core.Path.{◌≡◌, refl, sym, ap₂}
use mathlib.Core.Bool.{true}
use mathlib.Core.Logic.{◌⊎◌, ◌↔◌, inl, inr}
use mathlib.Core.List.{List, [], ◌∷◌}
use native.Mathlib.Omega.{arith}
use hotload.Prelude.Tests.{if◌then◌else◌, Bool-cases}
use hotload.Prelude.Lists.{In, All}
use hotload.Prelude.Order.{str_ltb, str_ltb_irrefl, str_ltb_trans, str_ltb_total}

abbrev pub IsBelow : String → List String → Type 0
IsBelow s l = All (λ t. str_ltb s t ≡ true) l

abbrev pub IsAscending : List String → Type 0
IsAscending [] = Unit
IsAscending (s ∷ l) = IsBelow s l × IsAscending l

-- One round of insertion sort.
unfoldable pub insert_sorted : String → List String → List String
insert_sorted s [] = s ∷ []
insert_sorted s (t ∷ l) =
    let rest = insert_sorted s l in if str_ltb t s then t ∷ rest else s ∷ t ∷ l

-- `sort.Strings`, as insertion sort: the ascending arrangement of a list is unique.
unfoldable pub sort_strings : List String → List String
unfolding insert_sorted
sort_strings [] = []
sort_strings (s ∷ l) = insert_sorted s (sort_strings l)

IsBelow-insert_sorted :
    (s t : String) (l : List String)
    → str_ltb s t ≡ true
    → IsBelow s l
    → IsBelow s (insert_sorted t l)
unfolding insert_sorted
IsBelow-insert_sorted s t [] p h = (p, tt)
IsBelow-insert_sorted s t (u ∷ l) p h = elim (Bool-cases (str_ltb u t)) [
  | inl b ↦ rw b (h.0, IsBelow-insert_sorted s t l p h.1)
  | inr b ↦ rw b (p, h)
]

IsBelow-trans : (s t : String) (l : List String) → str_ltb s t ≡ true → IsBelow t l → IsBelow s l
IsBelow-trans s t [] p h = tt
IsBelow-trans s t (u ∷ l) p h = (str_ltb_trans s t u p h.0, IsBelow-trans s t l p h.1)

insert_sorted-IsAscending :
    (s : String) (l : List String) → ¬ In s l → IsAscending l → IsAscending (insert_sorted s l)
unfolding insert_sorted
insert_sorted-IsAscending s [] n h = (tt, tt)
insert_sorted-IsAscending s (t ∷ l) n h = elim (Bool-cases (str_ltb t s)) [
  | inl b ↦
      rw b (IsBelow-insert_sorted t s l b h.0, insert_sorted-IsAscending s l (λ i. n (inr i)) h.1)
  | inr b ↦ elim (Bool-cases (str_ltb s t)) [
    | inl c ↦ rw b ((c, IsBelow-trans s t l c h.0), h)
    | inr c ↦ absurd (n (inl (str_ltb_total s t c b)))
  ]
]

In-insert_sorted : (k s : String) (l : List String) → In k (insert_sorted s l) ↔ ((k ≡ s) ⊎ In k l)
unfolding insert_sorted
In-insert_sorted k s [] = (λ h. h, λ h. h)
In-insert_sorted k s (t ∷ l) = elim (Bool-cases (str_ltb t s)) [
  | inr b ↦ rw b (λ h. h, λ h. h)
  | inl b ↦ rw b (
    λ h. elim h [
      | inl e ↦ inr (inl e)
      | inr i ↦ elim ((In-insert_sorted k s l).0 i) [ inl e ↦ inl e | inr j ↦ inr (inr j) ]
    ],
    λ h. elim h [
      | inl e ↦ inr ((In-insert_sorted k s l).1 (inl e))
      | inr i ↦ elim i [ inl e ↦ inl e | inr j ↦ inr ((In-insert_sorted k s l).1 (inr j)) ]
    ],
  )
]

pub In-sort_strings : (k : String) (l : List String) → In k (sort_strings l) ↔ In k l
unfolding sort_strings
In-sort_strings k [] = (λ h. h, λ h. h)
In-sort_strings k (s ∷ l) = (
  λ h. elim ((In-insert_sorted k s (sort_strings l)).0 h) [
    | inl e ↦ inl e
    | inr i ↦ inr ((In-sort_strings k l).0 i)
  ],
  λ h.
      (In-insert_sorted k s (sort_strings l)).1
        (elim h [ inl e ↦ inl e | inr i ↦ inr ((In-sort_strings k l).1 i) ]),
)

-- No string stands in the list twice.
abbrev pub IsDistinct : List String → Type 0
IsDistinct [] = Unit
IsDistinct (s ∷ l) = (¬ In s l) × IsDistinct l

pub sort_strings-IsAscending : (l : List String) → IsDistinct l → IsAscending (sort_strings l)
unfolding sort_strings
sort_strings-IsAscending [] h = tt
sort_strings-IsAscending (s ∷ l) h =
    insert_sorted-IsAscending s (sort_strings l) (λ i. h.0 ((In-sort_strings s l).0 i))
      (sort_strings-IsAscending l h.1)

below : (s t : String) (l : List String) → IsBelow s l → In t l → str_ltb s t ≡ true
below s t [] h i = elim i [ ]
below s t (u ∷ l) h (inl e) = rw e h.0
below s t (u ∷ l) h (inr i) = below s t l h.1 i

not_below : (s : String) (l : List String) → IsBelow s l → ¬ In s l
not_below s l h i = let e = below s s l h i in ground (arith, str_ltb_irrefl s)

heads :
    (s t : String) (l m : List String)
    → IsAscending (s ∷ l)
    → IsAscending (t ∷ m)
    → In s (t ∷ m)
    → In t (s ∷ l)
    → s ≡ t
heads s t l m a b (inl e) j = e
heads s t l m a b (inr i) (inl e) = sym e
heads s t l m a b (inr i) (inr j) =
    let p = below t s m b.0 i in
    let q = below s t l a.0 j in ground (arith, str_ltb_trans s t s q p, str_ltb_irrefl s)

tails :
    (s k : String) (l m : List String)
    → IsBelow s l
    → (In k (s ∷ l) → In k (s ∷ m))
    → In k l
    → In k m
tails s k l m h f i = elim (f (inr i)) [ inr j ↦ j | inl e ↦ absurd (not_below s l h (rw e at i)) ]

-- IsAscending lists with the same members are equal.
pub IsAscending-eq :
    (l m : List String) → IsAscending l → IsAscending m → ((k : String) → In k l ↔ In k m) → l ≡ m
IsAscending-eq [] [] a b h = refl
IsAscending-eq [] (t ∷ m) a b h = absurd ((h t).1 (inl refl))
IsAscending-eq (s ∷ l) [] a b h = absurd ((h s).0 (inl refl))
IsAscending-eq (s ∷ l) (t ∷ m) a b h =
    let e : s ≡ t = heads s t l m a b ((h s).0 (inl refl)) ((h t).1 (inl refl)) in
    let b' : IsAscending (s ∷ m) = rw e b in
    let h' : (k : String) → In k (s ∷ l) ↔ In k (s ∷ m) = rw e (rw e at h) in
    ap₂ ◌∷◌ e
      (IsAscending-eq l m a.1 b.1 (λ k. (tails s k l m a.0 (h' k).0, tails s k m l b'.0 (h' k).1)))
