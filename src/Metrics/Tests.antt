-- ===== src/Metrics/Tests.antt =====
-- Two urls, and a reset.
use hotload.Prelude.{List, ◌≡◌, refl, some, [], ◌∷◌, lookup, insert, erase}
use hotload.Metrics.{Collectors, counter_value}
use hotload.Metrics.Counting.{Update, incs, sets, resets, update_all}

abbrev empty : Collectors
empty = record {
  sql_stmts_summary = [];
  modtime_latency_histogram = [];
  change_total = [];
  last_changed_timestamp_seconds = [];
}

two_urls :
    let c =
      update_all empty
        (incs "a" ∷ resets ∷ incs "a" ∷ incs "b" ∷ incs "a" ∷ sets "a" 5 ∷ sets "a" 9 ∷ []) in
    (counter_value (lookup "a" c.change_total) ≡ 2)
    × (lookup "a" c.last_changed_timestamp_seconds ≡ some 9)
unfolding update_all lookup insert erase counter_value
two_urls = (refl, refl)

abbrev updates : List Update
updates = incs "a" ∷ resets ∷ incs "a" ∷ incs "b" ∷ incs "a" ∷ sets "a" 5 ∷ sets "a" 9 ∷ []
