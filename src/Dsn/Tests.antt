-- ===== src/Dsn/Tests.antt =====
-- A connection string whose query has one of two options already.
use hotload.Prelude.{◌≡◌, ◌≢◌, ◌⊎◌, String, List, [], ◌∷◌, lookup}
use hotload.State.{Error, ok, err, unparsable_conn_string, unparsable_query}
use hotload.Dsn.{UrlLib, Url, Values, merge_conn_string_options}
use hotload.Dsn.Merging.{merged, merge_conn_string_options-values}

abbrev one_url : UrlLib
one_url = record {
  parse = λ s. ok (record { scheme = "pg"; host = "h"; path = "/"; raw_query = s; remainder = "" });
  parse_request_uri =
      λ s. ok (record { scheme = "pg"; host = "h"; path = "/"; raw_query = s; remainder = "" });
  parse_query = λ s. ok (("a", "1" ∷ "2" ∷ []) ∷ ("b", "3" ∷ []) ∷ []);
  query = λ u. [];
  encode = λ vs. "q";
  to_string = λ u. u.raw_query;
}

abbrev two_options : List (String × String)
two_options = ("a", "4") ∷ ("c", "5") ∷ []

merge_conn_string_options-values_example :
    let result = merge_conn_string_options one_url "dsn" two_options in
    ((two_options ≡ []) × (result ≡ ok "dsn"))
    ⊎ (((two_options ≢ [])
          × (e : Error) × (((result ≡ err (unparsable_conn_string e))
                × (one_url.parse_request_uri "dsn" ≡ err e))
              ⊎ ((u : Url) × (result ≡ err (unparsable_query e))
                  × (one_url.parse_request_uri "dsn" ≡ ok u)
                  × (one_url.parse_query u.raw_query ≡ err e))))
        ⊎ ((two_options ≢ [])
            × (u : Url) × (values vs : Values) × (one_url.parse_request_uri "dsn" ≡ ok u)
            × (one_url.parse_query u.raw_query ≡ ok values)
            × (result ≡ ok (one_url.to_string (record u { raw_query = one_url.encode vs })))
            × ((k : String) → lookup k vs ≡ merged k two_options values)))
merge_conn_string_options-values_example =
    merge_conn_string_options-values one_url "dsn" two_options
