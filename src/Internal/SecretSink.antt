-- ===== src/Internal/SecretSink.antt =====
-- internal/secret_sink.go: a bounded store of secrets and the random values that stand for them.
pub mod Oldest
pub mod Store
pub mod Newer
pub mod Keeping
pub mod Again
mod Tests
use hotload.Prelude.{
  ℕ, ◌+◌, String, Bool, Option, none, some, List, [], ◌∷◌, lookup, insert, erase, length, leb, ltb,
  if◌then◌else◌,
}
use hotload.State.{Result, ok, err}
use hotload.Registry.{Outcome, returns, panics}

-- A time is a number.
pub record RandomSecretData : Type 0 where
  pub actual_secret : String
  pub random_secret : String
  pub last_used_time : ℕ

-- The mutex is held for the whole of Add. A negative maxCount acts as 0 does.
pub record RandomSecretSink : Type 0 where
  pub secret_store : List (String × RandomSecretData)
  pub max_count : ℕ

unfoldable pub new_random_secret_sink : ℕ → RandomSecretSink
new_random_secret_sink max_count = record { secret_store = []; max_count = max_count }

-- The loop over the store: its first strictly oldest entry that is older than the given time. The
-- order of the list is the order in which Go ranges over the map.
unfoldable pub oldest :
    ℕ → Option RandomSecretData → List (String × RandomSecretData) → Option RandomSecretData
oldest time found [] = found
oldest time found ((k, entry) ∷ rest) =
    let older = oldest entry.last_used_time (some entry) rest in
    let same = oldest time found rest in if ltb entry.last_used_time time then older else same

-- The eviction from a full store; `time` is what time.Now answers. A nil pointer is a panic.
unfoldable pub evict : RandomSecretSink → ℕ → Outcome RandomSecretSink
unfolding oldest
evict s time =
    if leb s.max_count (length s.secret_store)
    then elim (oldest time none s.secret_store) [
      | none ↦ panics
      | some d ↦ returns (record s { secret_store = erase d.actual_secret s.secret_store })
    ]
    else returns s

-- `Add`. `time` and `later` are what the calls of time.Now answer, and `random` is the beginning of
-- the uuid, or its error. A nil entry, which nothing stores, is no entry.
unfoldable pub add :
    RandomSecretSink → String → ℕ → ℕ → Result String → Outcome (RandomSecretSink × Result String)
unfolding evict
add s secret time later random = elim (lookup secret s.secret_store) [
  | some d ↦
      let used = record d { last_used_time = time } in
      returns (record s { secret_store = insert secret used s.secret_store }, ok d.random_secret)
  | none ↦ elim (evict s time) [
    | panics ↦ panics
    | returns t ↦ elim random [
      | err e ↦ returns (t, err e)
      | ok r ↦
          let entry : RandomSecretData = record {
            actual_secret = secret;
            random_secret = r;
            last_used_time = later;
          } in
          returns (record t { secret_store = insert secret entry t.secret_store }, ok r)
    ]
  ]
]
