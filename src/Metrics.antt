-- ===== src/Metrics.antt =====
-- metrics/prometheus.go: the package's collectors. The client library is not under the repository:
-- the samples observed, the counters and the gauges are kept by their label values, as it documents.
pub mod Counting
mod Tests
use hotload.Prelude.{ℕ, ◌+◌, String, Option, none, some, List, [], ◌∷◌, lookup, insert}
use hotload.State.{Sample}

pub record Latency : Type 0 where
  pub strategy : String
  pub path : String
  pub seconds : ℕ

-- SqlStmtsSummary, HotloadModtimeLatencyHistogram, HotloadChangeTotal and
-- HotloadLastChangedTimestampSeconds. Observations are newest first.
pub record Collectors : Type 0 where
  pub sql_stmts_summary : List Sample
  pub modtime_latency_histogram : List Latency
  pub change_total : List (String × ℕ)
  pub last_changed_timestamp_seconds : List (String × ℕ)

-- `ObserveHotloadModtimeLatencyHistogram`
unfoldable pub observe_modtime_latency : Collectors → String → String → ℕ → Collectors
observe_modtime_latency c strategy path val = record c {
  modtime_latency_histogram =
      record { strategy = strategy; path = path; seconds = val } ∷ c.modtime_latency_histogram;
}

-- What a counter shows: 0 before its first Inc.
unfoldable pub counter_value : Option ℕ → ℕ
counter_value none = 0
counter_value (some n) = n

-- `IncHotloadChangeTotal`
unfoldable pub inc_change_total : Collectors → String → Collectors
unfolding insert counter_value lookup
inc_change_total c url = record c {
  change_total = insert url (counter_value (lookup url c.change_total) + 1) c.change_total;
}

-- `SetHotloadLastChangedTimestampSeconds`
unfoldable pub set_last_changed : Collectors → String → ℕ → Collectors
unfolding insert
set_last_changed c url val = record c {
  last_changed_timestamp_seconds = insert url val c.last_changed_timestamp_seconds;
}

-- `ResetCollectors`
unfoldable pub reset_collectors : Collectors → Collectors
reset_collectors c = record {
  sql_stmts_summary = [];
  modtime_latency_histogram = [];
  change_total = [];
  last_changed_timestamp_seconds = [];
}
