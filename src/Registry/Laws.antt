-- ===== src/Registry/Laws.antt =====
-- What the registering functions store and refuse.
use hotload.Prelude.{
  last, or_else, ◌≡◌, refl, ap, String, ◌⊎◌, ◌↔◌, inl, inr, Option, some, none, List, [], ◌∷◌,
  arith, lookup, lookup-insert, lookup-insert_self, sym, insert, ◌++◌, ◌≢◌, str_eq, Option-cases,
  if◌then◌else◌,
}
use hotload.State.{SqlDriver}
use hotload.Registry.{
  Outcome, returns, panics, Registered, Registry, copy_options, with_driver_options, apply_all,
  register_sql_driver,
}

copy_options-lookup :
    (k : String) (options found : List (String × String))
    → lookup k (copy_options options found) ≡ or_else (last k options) (lookup k found)
unfolding copy_options last
copy_options-lookup k [] found = refl
copy_options-lookup k (e ∷ rest) found =
    ground (arith, copy_options-lookup k rest (insert e.0 e.1 found), lookup-insert e.0 k e.1 found)

last-append :
    (k : String) (xs ys : List (String × String))
    → last k (xs ++ ys) ≡ or_else (last k ys) (last k xs)
unfolding last
last-append k [] ys = ground arith
last-append k (x ∷ xs) ys = ground (arith, last-append k xs ys)

-- The entries of all options, one after another.
abbrev pub entries : List (List (String × String)) → List (String × String)
entries [] = []
entries (o ∷ os) = o ++ entries os

apply_all-lookup :
    (k : String) (os : List (List (String × String))) (d : Registered)
    → (lookup k (apply_all os d).options ≡ or_else (last k (entries os)) (lookup k d.options))
      × ((apply_all os d).driver ≡ d.driver)
unfolding apply_all with_driver_options last
apply_all-lookup k [] d = (refl, refl)
apply_all-lookup k (o ∷ os) d =
    let ih = apply_all-lookup k os (with_driver_options o d) in
    (ground (arith, ih.0, copy_options-lookup k o d.options, last-append k o (entries os)), ih.1)

apply_all-fresh :
    (k : String) (os : List (List (String × String))) (driver : String → SqlDriver)
    → let d = apply_all os (record { driver = driver; options = [] }) in
      (lookup k d.options ≡ last k (entries os)) × (d.driver ≡ driver)
unfolding lookup
apply_all-fresh k os driver =
    let h = apply_all-lookup k os (record { driver = driver; options = [] }) in
    (ground (arith, h.0), h.1)

-- If RegisterSQLDriver returns, the driver is not nil and the name was free. Then the name has that
-- driver, each option has the value that was given last, and every other name is as before; the
-- strategies are not touched.
pub register_sql_driver-stores :
    (r t : Registry) (name other k : String) (driver : Option (String → SqlDriver))
    (os : List (List (String × String)))
    → register_sql_driver r name driver os ≡ returns t
    → (lookup name r.sql_drivers ≡ none)
      × ((d : Registered) × (lookup name t.sql_drivers ≡ some d)
          × (driver ≡ some d.driver)
          × (lookup k d.options ≡ last k (entries os)))
      × (lookup other t.sql_drivers
          ≡ (if str_eq name other then lookup name t.sql_drivers else lookup other r.sql_drivers))
      × (t.strategies ≡ r.strategies)
unfolding register_sql_driver
register_sql_driver-stores r t name other k none os e = cc
register_sql_driver-stores r t name other k (some driver) os e =
    elim (Option-cases (lookup name r.sql_drivers)) [
      | inr (d, f) ↦
          let bad : ◌≡◌ {A = Outcome Registry} panics (returns t) =
            rw (f, register_sql_driver) at e in
          cc
      | inl f ↦
          let d = apply_all os (record { driver = driver; options = [] }) in
          let stored : t ≡ record r { sql_drivers = insert name d r.sql_drivers } =
            let e' = rw (f, register_sql_driver) at e in ground arith in
          let (options, same) = apply_all-fresh k os driver in
          (
            f,
            (d, rw stored (lookup-insert_self name d r.sql_drivers), ap some (sym same), options),
            rw stored (
                ground (
                  arith,
                  lookup-insert name other d r.sql_drivers,
                  lookup-insert_self name d r.sql_drivers,
                )),
            rw stored refl,
          )
    ]

-- RegisterSQLDriver panics for a nil driver and for a name that is taken, and only then.
pub register_sql_driver-panics :
    (r : Registry) (name : String) (driver : Option (String → SqlDriver))
    (os : List (List (String × String)))
    → (register_sql_driver r name driver os ≡ panics)
      ↔ ((driver ≡ none) ⊎ (lookup name r.sql_drivers ≢ none))
unfolding register_sql_driver
register_sql_driver-panics r name none os = (λ h. inl refl, λ h. refl)
register_sql_driver-panics r name (some d) os = (λ h. ground arith, λ h. ground arith)
