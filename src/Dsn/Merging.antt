-- ===== src/Dsn/Merging.antt =====
-- driver.go: what mergeConnStringOptions makes of the query of a connection string.
use hotload.Prelude.{
  ◌⊎◌, last, or_else, ◌≡◌, ◌≢◌, refl, String, Option, List, [], ◌∷◌, arith, lookup, insert,
  lookup-insert, inl, inr,
}
use mathlib.Core.Option
use hotload.State.{Error, Result-cases, ok, err, unparsable_conn_string, unparsable_query}
use hotload.Dsn.{Values, Url, UrlLib, set_options, merge_conn_string_options}

-- The option's only value, the last one given, or else what the connection string has.
abbrev pub merged : String → List (String × String) → Values → Option (List String)
merged k options values = or_else (Option.map (λ v. v ∷ []) (last k options)) (lookup k values)

set_options-lookup :
    (k : String) (options : List (String × String)) (values : Values)
    → lookup k (set_options options values) ≡ merged k options values
unfolding set_options last
set_options-lookup k [] values = refl
set_options-lookup k (e ∷ rest) values = ground (
  arith,
  set_options-lookup k rest (insert e.0 (e.1 ∷ []) values),
  lookup-insert e.0 k (e.1 ∷ []) values,
)

-- Without options the connection string stays as it is. With options, either net/url refuses the string or its query, and
-- mergeConnStringOptions answers an error of its own for that case with net/url's error in it; or the
-- result is the parsed URL with another query, in which each option has the last value given to it,
-- alone, and every other key has its values from before.
pub merge_conn_string_options-values :
    (url : UrlLib) (dsn : String) (options : List (String × String))
    → let result = merge_conn_string_options url dsn options in
      ((options ≡ []) × (result ≡ ok dsn))
      ⊎ (((options ≢ [])
            × (e : Error) × (((result ≡ err (unparsable_conn_string e))
                  × (url.parse_request_uri dsn ≡ err e))
                ⊎ ((u : Url) × (result ≡ err (unparsable_query e))
                    × (url.parse_request_uri dsn ≡ ok u)
                    × (url.parse_query u.raw_query ≡ err e))))
          ⊎ ((options ≢ [])
              × (u : Url) × (values vs : Values) × (url.parse_request_uri dsn ≡ ok u)
              × (url.parse_query u.raw_query ≡ ok values)
              × (result ≡ ok (url.to_string (record u { raw_query = url.encode vs })))
              × ((k : String) → lookup k vs ≡ merged k options values)))
unfolding merge_conn_string_options
merge_conn_string_options-values url dsn [] = inl (refl, refl)
merge_conn_string_options-values url dsn (o ∷ options) =
    let some_option : o ∷ options ≢ [] = λ e. ground (arith, e) in
    elim (Result-cases (url.parse_request_uri dsn)) [
      | inr (e, p) ↦ inr (inl (some_option, e, inl (ground (arith, p), p)))
      | inl (u, p) ↦ elim (Result-cases (url.parse_query u.raw_query)) [
        | inr (e, q) ↦ inr (inl (some_option, e, inr (u, ground (arith, p, q), p, q)))
        | inl (values, q) ↦ inr (
            inr (
              some_option,
              u,
              values,
              set_options (o ∷ options) values,
              p,
              q,
              ground (arith, p, q),
              λ k. set_options-lookup k (o ∷ options) values,
            ))
      ]
    ]
