-- ===== src/Registry/Tests.antt =====
-- A registration with options that repeat a key.
use hotload.Prelude.{
  last, ◌≡◌, ◌≢◌, refl, ◌↔◌, String, Option, some, none, List, [], ◌∷◌, lookup, insert, str_eq,
  if◌then◌else◌,
}
use hotload.State.{SqlDriver}
use hotload.Registry.{Registry, Registered, panics, register_sql_driver}
use hotload.Prelude.{In, IsAscending, sort_strings, insert_sorted, str_ltb, arith, eq_iff}
use hotload.Registry.Names.{keys, IsMaps, sql_drivers, strategies, names-IsAscending}
use hotload.Registry.Laws.{entries, register_sql_driver-stores}
use hotload.ChanGroup.Tests.{plain_driver}

abbrev empty_registry : Registry
empty_registry = record { sql_drivers = []; strategies = []; strategy_calls = [] }

abbrev new_driver : Option (String → SqlDriver)
new_driver = some (λ name. plain_driver)

abbrev repeated_options : List (List (String × String))
repeated_options = (("sslmode", "off") ∷ ("user", "u") ∷ []) ∷ (("sslmode", "on") ∷ []) ∷ []

abbrev one_driver : Registry
one_driver = record empty_registry {
  sql_drivers =
      (
        "pq",
        record { driver = λ name. plain_driver; options = ("sslmode", "on") ∷ ("user", "u") ∷ [] },
      )
      ∷ [];
}

register_sql_driver-stores_example :
    (lookup "pq" empty_registry.sql_drivers ≡ none)
    × ((d : Registered) × (lookup "pq" one_driver.sql_drivers ≡ some d)
        × (new_driver ≡ some d.driver)
        × (lookup "sslmode" d.options ≡ last "sslmode" (entries repeated_options)))
    × (lookup "mysql" one_driver.sql_drivers ≡ (
        if str_eq "pq" "mysql"
        then lookup "pq" one_driver.sql_drivers
        else lookup "mysql" empty_registry.sql_drivers))
    × (one_driver.strategies ≡ empty_registry.strategies)
unfolding register_sql_driver lookup insert
register_sql_driver-stores_example =
    register_sql_driver-stores empty_registry one_driver "pq" "mysql" "sslmode" new_driver
      repeated_options refl

taken_name : register_sql_driver one_driver "pq" new_driver [] ≡ panics
unfolding register_sql_driver lookup
taken_name = refl

abbrev two_drivers : Registry
two_drivers = record empty_registry {
  sql_drivers =
      ("pq", record { driver = λ name. plain_driver; options = [] })
      ∷ ("mysql", record { driver = λ name. plain_driver; options = [] })
      ∷ [];
}

abbrev two_drivers_swapped : Registry
two_drivers_swapped = record empty_registry {
  sql_drivers =
      ("mysql", record { driver = λ name. plain_driver; options = [] })
      ∷ ("pq", record { driver = λ name. plain_driver; options = [] })
      ∷ [];
}

two_drivers-IsMaps : IsMaps two_drivers
unfolding keys
two_drivers-IsMaps = record {
  drivers_distinct = (λ i. ground (arith, eq_iff "pq" "mysql"), (λ i. i, tt));
  strategies_distinct = tt;
}

two_drivers_swapped-IsMaps : IsMaps two_drivers_swapped
unfolding keys
two_drivers_swapped-IsMaps = record {
  drivers_distinct = (λ i. ground (arith, eq_iff "mysql" "pq"), (λ i. i, tt));
  strategies_distinct = tt;
}

names-IsAscending_example :
    IsAscending (sql_drivers two_drivers)
    × (In "pq" (sql_drivers two_drivers) ↔ (lookup "pq" two_drivers.sql_drivers ≢ none))
    × IsAscending (strategies two_drivers)
    × (In "pq" (strategies two_drivers) ↔ (lookup "pq" two_drivers.strategies ≢ none))
names-IsAscending_example = names-IsAscending two_drivers "pq" two_drivers-IsMaps

same_names :
    (k : String)
    → (lookup k two_drivers.sql_drivers ≢ none) ↔ (lookup k two_drivers_swapped.sql_drivers ≢ none)
unfolding lookup
same_names k = (λ n m. n (ground arith), λ n m. n (ground arith))

two_names : sql_drivers two_drivers ≡ "mysql" ∷ "pq" ∷ []
unfolding sql_drivers keys sort_strings insert_sorted str_ltb
two_names = refl

one_driver-IsMaps : IsMaps one_driver
unfolding keys
one_driver-IsMaps = record { drivers_distinct = (λ i. i, tt); strategies_distinct = tt }
