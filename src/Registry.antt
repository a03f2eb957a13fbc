-- ===== src/Registry.antt =====
-- driver.go: the package's registries of drivers and strategies. The mutex is held for the whole
-- of each function. A panic is a result that keeps no state.
mod Tests
pub mod Laws
pub mod Names
use hotload.Prelude.{
  ◌≡◌, ◌⊎◌, inl, inr, refl, String, Option, none, some, List, [], ◌∷◌, lookup, insert, erase,
}
use hotload.State.{SqlDriver, Result}

pub data Outcome {ℓ} (A : Type ℓ) : Type ℓ where
  returns : A → Outcome A
  panics : Outcome A

pub Outcome-cases {ℓ} : {A : Type ℓ} (r : Outcome A) → ((a : A) × (r ≡ returns a)) ⊎ (r ≡ panics)
Outcome-cases (returns a) = inl (a, refl)
Outcome-cases panics = inr refl

pub data StrategyCall : Type 0 where
  watch_call : String → String → String → StrategyCall
  close_call : String → StrategyCall

-- A strategy: what its Watch answers, as a function of the strategies' calls so far.
pub record Strategy : Type 0 where
  pub watch : List StrategyCall → String → String → Result String

-- A registered driver, as each group sees it.
pub record Registered : Type 0 where
  pub driver : String → SqlDriver
  pub options : List (String × String)

pub record Registry : Type 0 where
  pub sql_drivers : List (String × Registered)
  pub strategies : List (String × Strategy)
  pub strategy_calls : List StrategyCall

-- `for k, v := range options { d.options[k] = v }`
unfoldable pub copy_options :
    List (String × String) → List (String × String) → List (String × String)
unfolding insert
copy_options [] found = found
copy_options ((k, v) ∷ options) found = copy_options options (insert k v found)

-- A driverOption is a function on the instance; WithDriverOptions makes the only kind.
unfoldable pub with_driver_options : List (String × String) → Registered → Registered
unfolding copy_options
with_driver_options options d = record d { options = copy_options options d.options }

unfoldable pub apply_all : List (List (String × String)) → Registered → Registered
unfolding with_driver_options
apply_all [] d = d
apply_all (o ∷ os) d = apply_all os (with_driver_options o d)

-- A nil driver is `none`.
unfoldable pub register_sql_driver :
    Registry
    → String
    → Option (String → SqlDriver)
    → List (List (String × String))
    → Outcome Registry
unfolding apply_all
register_sql_driver r name none options = panics
register_sql_driver r name (some driver) options = elim (lookup name r.sql_drivers) [
  | some d ↦ panics
  | none ↦ returns (record r {
    sql_drivers =
        insert name (apply_all options (record { driver = driver; options = [] })) r.sql_drivers;
  })
]

unfoldable pub unregister_all : Registry → Registry
unregister_all r = record r { sql_drivers = []; strategies = [] }

unfoldable pub register_strategy : Registry → String → Option Strategy → Outcome Registry
unfolding lookup insert
register_strategy r name none = panics
register_strategy r name (some strategy) = elim (lookup name r.strategies) [
  | some s ↦ panics
  | none ↦ returns (record r { strategies = insert name strategy r.strategies })
]

-- A strategy in the map is not nil: RegisterStrategy refuses nil.
unfoldable pub unregister_strategy : Registry → String → Registry
unfolding lookup erase
unregister_strategy r name = elim (lookup name r.strategies) [
  | none ↦ r
  | some s ↦ record r {
    strategies = erase name r.strategies;
    strategy_calls = close_call name ∷ r.strategy_calls;
  }
]
