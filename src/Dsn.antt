-- ===== src/Dsn.antt =====
-- driver.go: mergeConnStringOptions, over the parts of net/url that it and hdriver.Open use.
pub mod Merging
mod Tests
use hotload.Prelude.{String, List, [], ◌∷◌, insert}
use hotload.State.{Result, ok, err, unparsable_conn_string, unparsable_query}

-- net/url, as far as mergeConnStringOptions and hdriver.Open use it. `Values` is url.Values.
abbrev pub Values : Type 0
Values = List (String × List String)

pub record Url : Type 0 where
  pub scheme : String
  pub host : String
  pub path : String
  pub raw_query : String
  -- all else that `String` prints
  pub remainder : String

pub record UrlLib : Type 0 where
  pub parse : String → Result Url
  pub parse_request_uri : String → Result Url
  pub parse_query : String → Result Values
  pub query : Url → Values
  pub encode : Values → String
  pub to_string : Url → String

-- The loop `for k, v := range options { values.Set(k, v) }`, in the order of the list.
unfoldable pub set_options : List (String × String) → Values → Values
set_options [] values = values
set_options ((k, v) ∷ options) values = set_options options (insert k (v ∷ []) values)

unfoldable pub merge_conn_string_options : UrlLib → String → List (String × String) → Result String
unfolding set_options
merge_conn_string_options url dsn [] = ok dsn
merge_conn_string_options url dsn (o ∷ options) = elim (url.parse_request_uri dsn) [
  | err e ↦ err (unparsable_conn_string e)
  | ok u ↦ elim (url.parse_query u.raw_query) [
    | err e ↦ err (unparsable_query e)
    | ok values ↦
        ok (url.to_string (record u { raw_query = url.encode (set_options (o ∷ options) values) }))
  ]
]
