-- ===== src/Registry/Names.antt =====
-- driver.go: SQLDrivers and Strategies, which list the registered names.
use hotload.Prelude.{
  ◌≡◌, ◌≢◌, refl, ap, String, ◌↔◌, inl, inr, Option, none, some, List, [], ◌∷◌, arith, In, lookup,
  insert, erase, str_eq, eq_iff, Bool-cases, Option-cases, IsAscending, IsDistinct, sort_strings,
  insert_sorted, In-sort_strings, sort_strings-IsAscending, IsAscending-eq,
}
use hotload.State.{SqlDriver}
use hotload.Registry.{Registry, Registered, returns, register_sql_driver, apply_all}

-- `for name := range m { list = append(list, name) }`
unfoldable pub keys {ℓ} : {A : Type ℓ} → List (String × A) → List String
keys [] = []
keys (e ∷ m) = e.0 ∷ keys m

unfoldable pub sql_drivers : Registry → List String
unfolding keys sort_strings
sql_drivers r = sort_strings (keys r.sql_drivers)

unfoldable pub strategies : Registry → List String
unfolding keys sort_strings
strategies r = sort_strings (keys r.strategies)

-- The association lists stand for Go maps: each key has one entry.
pub record IsMaps (r : Registry) : Type 0 where
  pub drivers_distinct : IsDistinct (keys r.sql_drivers)
  pub strategies_distinct : IsDistinct (keys r.strategies)

pub In-keys {ℓ} :
    {A : Type ℓ} (k : String) (m : List (String × A)) → In k (keys m) ↔ (lookup k m ≢ none)
unfolding keys lookup
In-keys k [] = (λ i. elim i [ ], λ n. n refl)
In-keys k (e ∷ m) = elim (Bool-cases (str_eq e.0 k)) [
  | inl b ↦ (λ i n. ground (arith, b), λ n. inl (ground (arith, eq_iff e.0 k)))
  | inr b ↦ (
    λ i. elim i [ inl q ↦ ground (arith, eq_iff e.0 k, b) | inr j ↦ rw b ((In-keys k m).0 j) ],
    λ n. inr ((In-keys k m).1 (rw b at n)),
  )
]

erase_absent {ℓ} :
    {A : Type ℓ} (k : String) (m : List (String × A)) → lookup k m ≡ none → erase k m ≡ m
unfolding lookup erase
erase_absent k [] n = refl
erase_absent k (e ∷ m) n = ground (arith, erase_absent k m)

pub inserted {ℓ} :
    {A : Type ℓ} (k : String) (a : A) (m : List (String × A))
    → lookup k m ≡ none
    → insert k a m ≡ (k, a) ∷ m
unfolding insert
inserted k a m n = ap (◌∷◌ (k, a)) (erase_absent k m n)

listed {ℓ} :
    {A : Type ℓ} (k : String) (m : List (String × A))
    → In k (sort_strings (keys m)) ↔ (lookup k m ≢ none)
listed k m = (
  λ i. (In-keys k m).0 ((In-sort_strings k (keys m)).0 i),
  λ n. (In-sort_strings k (keys m)).1 ((In-keys k m).1 n),
)

same {ℓ} :
    {A : Type ℓ} (k : String) (m n : List (String × A))
    → ((lookup k m ≢ none) ↔ (lookup k n ≢ none))
    → In k (sort_strings (keys m)) ↔ In k (sort_strings (keys n))
same k m n h =
    (λ i. (listed k n).1 (h.0 ((listed k m).0 i)), λ i. (listed k m).1 (h.1 ((listed k n).0 i)))

-- SQLDrivers and Strategies list exactly the registered names, each once, in ascending order, if
-- each key of the maps has one entry.
pub names-IsAscending :
    (r : Registry) (k : String)
    → IsMaps r
    → IsAscending (sql_drivers r)
      × (In k (sql_drivers r) ↔ (lookup k r.sql_drivers ≢ none))
      × IsAscending (strategies r)
      × (In k (strategies r) ↔ (lookup k r.strategies ≢ none))
unfolding sql_drivers strategies
names-IsAscending r k h = (
  sort_strings-IsAscending _ h.drivers_distinct,
  listed k r.sql_drivers,
  sort_strings-IsAscending _ h.strategies_distinct,
  listed k r.strategies,
)

-- The lists do not depend on the order in which Go ranges over the maps: two registries with the
-- same names, where each key has one entry, have the same lists.
pub names-eq :
    (r t : Registry)
    → IsMaps r
    → IsMaps t
    → ((k : String) → (lookup k r.sql_drivers ≢ none) ↔ (lookup k t.sql_drivers ≢ none))
    → ((k : String) → (lookup k r.strategies ≢ none) ↔ (lookup k t.strategies ≢ none))
    → (sql_drivers r ≡ sql_drivers t) × (strategies r ≡ strategies t)
unfolding sql_drivers strategies
names-eq r t h g d s = (
  IsAscending-eq _ _ (sort_strings-IsAscending _ h.drivers_distinct)
      (sort_strings-IsAscending _ g.drivers_distinct)
      (λ k. same k r.sql_drivers t.sql_drivers (d k)),
  IsAscending-eq _ _ (sort_strings-IsAscending _ h.strategies_distinct)
      (sort_strings-IsAscending _ g.strategies_distinct)
      (λ k. same k r.strategies t.strategies (s k)),
)

-- If RegisterSQLDriver returns and each key had one entry, each key still has one entry, and
-- SQLDrivers lists the new name in its place among those from before; Strategies is the same.
pub register_sql_driver-listed :
    (r t : Registry) (name : String) (driver : Option (String → SqlDriver))
    (os : List (List (String × String)))
    → IsMaps r
    → register_sql_driver r name driver os ≡ returns t
    → IsMaps t
      × (sql_drivers t ≡ insert_sorted name (sql_drivers r))
      × (strategies t ≡ strategies r)
unfolding register_sql_driver sql_drivers strategies keys
register_sql_driver-listed r t name none os h e = cc
register_sql_driver-listed r t name (some driver) os h e =
    elim (Option-cases (lookup name r.sql_drivers)) [
      | inr (d, f) ↦ absurd (ground (arith, f))
      | inl f ↦
          let d : Registered = apply_all os (record { driver = driver; options = [] }) in
          let put : insert name d r.sql_drivers ≡ (name, d) ∷ r.sql_drivers =
            inserted name d r.sql_drivers f in
          let stored : t ≡ record r { sql_drivers = (name, d) ∷ r.sql_drivers } =
            ground (arith, f, put) in
          let fresh : ¬ In name (keys r.sql_drivers) = λ i. (In-keys name r.sql_drivers).0 i f in
          rw stored (
            record {
              drivers_distinct = (fresh, h.drivers_distinct);
              strategies_distinct = h.strategies_distinct;
            },
            refl,
            refl,
          )
    ]
