-- ===== src/Prelude/Totals.antt =====
-- Sums over an association list or a range, and how often a number stands in a list.
use Prim.Native.Nat.{ℕ, zero, suc, ◌+◌, ◌≤◌, ◌<◌}
use Prim.Native.String.{String}
use mathlib.Core.Path.{◌≡◌, refl, sym, subst}
use mathlib.Core.Logic.{◌≢◌, ◌⊎◌, inl, inr}
use mathlib.Core.Option.{none, some}
use mathlib.Core.List.{List, [], ◌∷◌}
use native.Mathlib.Omega.{arith}
use text.Mathlib.Text.{◌==◌ as str_eq}
use text.Mathlib.TextEquality.{eq_iff}
use hotload.Prelude.Tests.{◌==◌, ltb, if◌then◌else◌, Bool-cases}
use hotload.Prelude.Assoc.{lookup, erase, insert}

unfoldable pub count : ℕ → List ℕ → ℕ
count c [] = 0
count c (x ∷ xs) = (if c == x then 1 else 0) + count c xs

-- The sum of f over the numbers below n.
abbrev pub total_below : ℕ → (ℕ → ℕ) → ℕ
total_below zero f = 0
total_below (suc n) f = f n + total_below n f

total_below-same :
    (n : ℕ) (f g : ℕ → ℕ) → ((j : ℕ) → j < n → g j ≡ f j) → total_below n g ≡ total_below n f
total_below-same zero f g h = refl
total_below-same (suc n) f g h =
    omega (arith, h n (omega arith), total_below-same n f g (λ j l. h j (omega arith)))

pub total_below-le :
    (n : ℕ) (f g : ℕ → ℕ) → ((j : ℕ) → g j ≤ f j) → total_below n g ≤ total_below n f
total_below-le zero f g h = omega arith
total_below-le (suc n) f g h = omega (arith, h n, total_below-le n f g h)

pub lt_suc-cases : (i n : ℕ) → i < suc n → (i < n) ⊎ (i ≡ n)
lt_suc-cases i n l = elim (Bool-cases (ltb i n)) [
  | inl h ↦ inl (ground arith)
  | inr h ↦ inr (ground arith)
]

-- What holds of each number below n.
abbrev pub AllBelow : ℕ → (ℕ → Type 0) → Type 0
AllBelow zero P = Unit
AllBelow (suc n) P = P n × AllBelow n P

pub AllBelow-intro : (n : ℕ) {P : ℕ → Type 0} → ((i : ℕ) → i < n → P i) → AllBelow n P
AllBelow-intro zero h = tt
AllBelow-intro (suc n) h = (h n (omega arith), AllBelow-intro n (λ i l. h i (omega arith)))

pub AllBelow-elim : (n i : ℕ) (P : ℕ → Type 0) → AllBelow n P → i < n → P i
AllBelow-elim zero i P h l = absurd (omega arith)
AllBelow-elim (suc n) i P h l = elim (lt_suc-cases i n l) [
  | inl k ↦ AllBelow-elim n i P h.1 k
  | inr e ↦ subst P (sym e) h.0
]

-- One number's share changes.
pub total_below-change :
    (n i : ℕ) (f g : ℕ → ℕ)
    → i < n
    → ((j : ℕ) → j ≢ i → g j ≡ f j)
    → total_below n g + f i ≡ total_below n f + g i
total_below-change zero i f g l h = omega arith
total_below-change (suc n) i f g l h = elim (lt_suc-cases i n l) [
  | inl k ↦ omega (arith, h n (λ e. omega arith), total_below-change n i f g k h)
  | inr e ↦ rw e (omega (arith, total_below-same n f g (λ j k. h j (λ e'. omega arith))))
]

module _ {ℓ} {A : Type ℓ} where
  abbrev pub total : (A → ℕ) → List (String × A) → ℕ
  total f [] = 0
  total f (e ∷ m) = f e.1 + total f m

  -- How many entries have the key.
  unfoldable pub entries : String → List (String × A) → ℕ
  entries k [] = 0
  entries k (e ∷ m) = (if str_eq e.0 k then 1 else 0) + entries k m

  abbrev pub Unique : List (String × A) → Type 0
  Unique m = (k : String) → entries k m ≤ 1

  entries-erase :
      (j k : String) (m : List (String × A))
      → entries j (erase k m) ≡ (if str_eq k j then 0 else entries j m)
  unfolding entries erase
  entries-erase j k [] = ground arith
  entries-erase j k (e ∷ m) =
      ground (arith, entries-erase j k m, eq_iff e.0 k, eq_iff e.0 j, eq_iff k j)

  entries-lookup : (k : String) (m : List (String × A)) → lookup k m ≡ none → entries k m ≡ 0
  unfolding entries lookup
  entries-lookup k [] h = refl
  entries-lookup k (e ∷ m) h = ground (arith, λ (l : lookup k m ≡ none). entries-lookup k m l)

  total-erase_absent :
      (f : A → ℕ) (k : String) (m : List (String × A))
      → entries k m ≡ 0
      → total f (erase k m) ≡ total f m
  unfolding entries erase
  total-erase_absent f k [] h = refl
  total-erase_absent f k (e ∷ m) h =
      ground (arith, λ (l : entries k m ≡ 0). total-erase_absent f k m l)

  pub total-erase_found :
      (f : A → ℕ) (k : String) (a : A) (m : List (String × A))
      → Unique m
      → lookup k m ≡ some a
      → total f (erase k m) + f a ≡ total f m
  unfolding entries erase lookup
  total-erase_found f k a [] u h = ground arith
  total-erase_found f k a (e ∷ m) u h = ground (
    arith,
    u k,
    λ (l : entries k m ≡ 0). total-erase_absent f k m l,
    λ (l : lookup k m ≡ some a). total-erase_found f k a m (λ j. omega (arith, u j)) l,
  )

  pub total-insert :
      (f : A → ℕ) (k : String) (a : A) (m : List (String × A))
      → lookup k m ≡ none
      → total f (insert k a m) ≡ f a + total f m
  unfolding insert
  total-insert f k a m h = omega (arith, total-erase_absent f k m (entries-lookup k m h))

  pub total-insert_found :
      (f : A → ℕ) (k : String) (a b : A) (m : List (String × A))
      → Unique m
      → lookup k m ≡ some b
      → total f (insert k a m) + f b ≡ f a + total f m
  unfolding insert
  total-insert_found f k a b m u h = omega (arith, total-erase_found f k b m u h)

  pub total-found :
      (f : A → ℕ) (k : String) (a : A) (m : List (String × A))
      → lookup k m ≡ some a
      → f a ≤ total f m
  unfolding lookup
  total-found f k a [] h = ground arith
  total-found f k a (e ∷ m) h = ground (arith, λ (l : lookup k m ≡ some a). total-found f k a m l)

  pub Unique-erase : (k : String) (m : List (String × A)) → Unique m → Unique (erase k m)
  Unique-erase k m u j = ground (arith, entries-erase j k m, u j)

  pub Unique-insert :
      (k : String) (a : A) (m : List (String × A)) → Unique m → Unique (insert k a m)
  unfolding insert entries
  Unique-insert k a m u j = ground (arith, entries-erase j k m, u j)
