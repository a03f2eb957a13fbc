-- ===== src/Internal/SecretSink/Store.antt =====
-- internal/secret_sink.go: a sink after one call of Add.
use hotload.Prelude.{
  ℕ, suc, ◌<◌, ◌≤◌, ◌≡◌, ◌≢◌, refl, inl, inr, String, some, List, [], ◌∷◌, lookup, insert, erase,
  lookup-insert_self, length, All, arith, Option-cases, Bool-cases, str_eq, eq_iff,
}
use hotload.State.{Result, ok, Result-cases}
use hotload.Registry.{Outcome-cases, returns, panics}
use hotload.Internal.SecretSink.{RandomSecretData, RandomSecretSink, evict, add}
use hotload.Internal.SecretSink.Oldest.{
  Keyed, IsSound, length-erase, length-erase_found, erase-Keyed, evict-IsSound, evict-returns,
}

insert-IsSound :
    (s : RandomSecretSink) (k : String) (m : List (String × RandomSecretData))
    (d : RandomSecretData)
    → k ≡ d.actual_secret
    → suc (length (erase k m)) ≤ s.max_count
    → Keyed m
    → IsSound (record s { secret_store = insert k d m })
unfolding insert
insert-IsSound s k m d q l h = record {
  bounded = ground (arith, l);
  keyed = (q, erase-Keyed k m h);
}

lookup-Keyed :
    (k : String) (d : RandomSecretData) (m : List (String × RandomSecretData))
    → Keyed m
    → lookup k m ≡ some d
    → k ≡ d.actual_secret
unfolding lookup
lookup-Keyed k d [] h l = ground arith
lookup-Keyed k d (e ∷ m) h l = elim (Bool-cases (str_eq e.0 k)) [
  | inl b ↦ ground (arith, eq_iff e.0 k, h.0)
  | inr b ↦ lookup-Keyed k d m h.1 (rw b at l)
]

-- If Add returns, the store still holds at most max_count pairs, each under its own secret.
pub add-IsSound :
    (s t : RandomSecretSink) (secret : String) (time later : ℕ) (random r : Result String)
    → IsSound s
    → add s secret time later random ≡ returns (t, r)
    → IsSound t
unfolding add
add-IsSound s t secret time later random r h e =
    elim (Option-cases (lookup secret s.secret_store)) [
      | inr (d, l) ↦
          let used = record d { last_used_time = time } in
          let k : t ≡ record s { secret_store = insert secret used s.secret_store } =
            ground (arith, l) in
          rw k (
            insert-IsSound s secret s.secret_store used
              (lookup-Keyed secret d s.secret_store h.keyed l)
              (let z = length-erase_found secret d s.secret_store l in
                let b = h.bounded in omega arith)
              h.keyed)
      | inl l ↦ elim (Outcome-cases (evict s time)) [
        | inr p ↦ ground (arith, l, p)
        | inl (u, p) ↦
            let (room, same, keyed) = evict-IsSound s u time h p in
            elim (Result-cases random) [
              | inr (x, q) ↦
                  let k : t ≡ u = ground (arith, l, p, q) in
                  rw k (record { bounded = omega arith; keyed = keyed })
              | inl (v, q) ↦
                  let d : RandomSecretData = record {
                    actual_secret = secret;
                    random_secret = v;
                    last_used_time = later;
                  } in
                  let k : t ≡ record u { secret_store = insert secret d u.secret_store } =
                    ground (arith, l, p, q) in
                  rw k (
                    insert-IsSound u secret u.secret_store d refl
                      (let z = length-erase secret u.secret_store in omega arith) keyed)
            ]
      ]
    ]

pub add-lookup :
    (s t : RandomSecretSink) (secret r : String) (time later : ℕ) (random : Result String)
    → add s secret time later random ≡ returns (t, ok r)
    → (d : RandomSecretData) × (lookup secret t.secret_store ≡ some d) × (d.random_secret ≡ r)
unfolding add
add-lookup s t secret r time later random e = elim (Option-cases (lookup secret s.secret_store)) [
  | inr (d, l) ↦
      let used = record d { last_used_time = time } in
      let k : t ≡ record s { secret_store = insert secret used s.secret_store } =
        ground (arith, l) in
      (used, rw k (lookup-insert_self secret used s.secret_store), ground (arith, l))
  | inl l ↦ elim (Outcome-cases (evict s time)) [
    | inr p ↦ ground (arith, l, p)
    | inl (u, p) ↦ elim (Result-cases random) [
      | inr (x, q) ↦ ground (arith, l, p, q)
      | inl (v, q) ↦
          let d : RandomSecretData = record {
            actual_secret = secret;
            random_secret = v;
            last_used_time = later;
          } in
          let k : t ≡ record u { secret_store = insert secret d u.secret_store } =
            ground (arith, l, p, q) in
          (d, rw k (lookup-insert_self secret d u.secret_store), ground (arith, l, p, q))
    ]
  ]
]

pub add-ok :
    (s t : RandomSecretSink) (secret v : String) (time later : ℕ) (r : Result String)
    → add s secret time later (ok v) ≡ returns (t, r)
    → (x : String) × (r ≡ ok x)
unfolding add
add-ok s t secret v time later r e = elim (Option-cases (lookup secret s.secret_store)) [
  | inr (d, l) ↦ (d.random_secret, ground (arith, l))
  | inl l ↦ elim (Outcome-cases (evict s time)) [
    | inr p ↦ absurd (ground (arith, l, p))
    | inl (u, p) ↦ (v, ground (arith, l, p))
  ]
]

pub add-known :
    (t : RandomSecretSink) (secret : String) (d : RandomSecretData) (r : String) (time later : ℕ)
    (random : Result String)
    → lookup secret t.secret_store ≡ some d
    → d.random_secret ≡ r
    → add t secret time later random
      ≡ returns (
        record t {
          secret_store = insert secret (record d { last_used_time = time }) t.secret_store;
        },
        ok r,
      )
unfolding add
add-known t secret d r time later random l q = ground (arith, l, q)

-- If every pair was used strictly before and max_count is not 0, Add does not panic.
pub add-returns :
    (s : RandomSecretSink) (secret : String) (time later : ℕ) (random : Result String)
    → 1 ≤ s.max_count
    → All (λ e. e.1.last_used_time < time) s.secret_store
    → add s secret time later random ≢ panics
unfolding add
add-returns s secret time later random m h e = elim (Option-cases (lookup secret s.secret_store)) [
  | inr (d, l) ↦ ground (arith, l)
  | inl l ↦ ground (arith, l, evict-returns s time m h)
]
