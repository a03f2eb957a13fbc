-- ===== src/Internal/SecretSink/Oldest.antt =====
-- Which pair a full sink gives up.
use hotload.Prelude.{
  ap, In, ℕ, suc, ◌<◌, ◌≤◌, ◌≡◌, ◌≢◌, refl, ◌⊎◌, inl, inr, String, Option, none, some, List, [],
  ◌∷◌, lookup, erase, length, leb, ltb, All, arith, Option-cases, List-cases, Bool-cases, str_eq,
  eq_iff,
}
use hotload.Registry.{returns, panics}
use hotload.Internal.SecretSink.{RandomSecretData, RandomSecretSink, oldest, evict}

-- Each pair stands under its own secret.
abbrev pub Keyed : List (String × RandomSecretData) → Type 0
Keyed m = All (λ e. e.0 ≡ e.1.actual_secret) m

-- The store holds at most max_count pairs, each under its own secret.
pub record IsSound (s : RandomSecretSink) : Type 0 where
  pub bounded : length s.secret_store ≤ s.max_count
  pub keyed : Keyed s.secret_store

pub length-erase :
    (k : String) (m : List (String × RandomSecretData)) → length (erase k m) ≤ length m
unfolding erase
length-erase k [] = ground arith
length-erase k (e ∷ m) = ground (arith, length-erase k m)

pub length-erase_found :
    (k : String) (d : RandomSecretData) (m : List (String × RandomSecretData))
    → lookup k m ≡ some d
    → suc (length (erase k m)) ≤ length m
unfolding erase lookup
length-erase_found k d [] f = ground arith
length-erase_found k d (e ∷ m) f = elim (Bool-cases (str_eq e.0 k)) [
  | inl b ↦ ground (arith, b, length-erase k m)
  | inr b ↦ ground (arith, b, length-erase_found k d m (rw b at f))
]

pub erase-Keyed : (k : String) (m : List (String × RandomSecretData)) → Keyed m → Keyed (erase k m)
unfolding erase
erase-Keyed k [] h = h
erase-Keyed k (e ∷ m) h = elim (Bool-cases (str_eq e.0 k)) [
  | inl b ↦ rw b (erase-Keyed k m h.1)
  | inr b ↦ rw b (h.0, erase-Keyed k m h.1)
]

abbrev Found : String → List (String × RandomSecretData) → Type 0
Found k m = (e : RandomSecretData) × (lookup k m ≡ some e)

Found-tail :
    (k : String) (x : String × RandomSecretData) (m : List (String × RandomSecretData))
    → Found k m
    → Found k (x ∷ m)
unfolding lookup
Found-tail k x m (e, l) = elim (Bool-cases (str_eq x.0 k)) [
  | inl b ↦ (x.1, rw b refl)
  | inr b ↦ (e, rw b l)
]

Found-head :
    (k : String) (x : String × RandomSecretData) (m : List (String × RandomSecretData))
    → x.0 ≡ k
    → Found k (x ∷ m)
unfolding lookup
Found-head k x m e = (x.1, ground (arith, eq_iff x.0 k))

-- The pair that the loop finds stands in the store under its own secret.
oldest-lookup :
    (time : ℕ) (found : Option RandomSecretData) (d : RandomSecretData)
    (m : List (String × RandomSecretData))
    → Keyed m
    → oldest time found m ≡ some d
    → (found ≡ some d) ⊎ Found d.actual_secret m
unfolding oldest lookup
oldest-lookup time found d [] h e = inl e
oldest-lookup time found d (x ∷ m) h e = elim (Bool-cases (ltb x.1.last_used_time time)) [
  | inl b ↦ inr (elim (oldest-lookup x.1.last_used_time (some x.1) d m h.1 (rw b at e)) [
    | inl p ↦ Found-head d.actual_secret x m (let q : x.1 ≡ d = ground arith in rw q at h.0)
    | inr f ↦ Found-tail d.actual_secret x m f
  ])
  | inr b ↦ elim (oldest-lookup time found d m h.1 (rw b at e)) [
    | inl p ↦ inl p
    | inr f ↦ inr (Found-tail d.actual_secret x m f)
  ]
]

-- It is that very pair, with its own time.
oldest-In :
    (time : ℕ) (found : Option RandomSecretData) (d : RandomSecretData)
    (m : List (String × RandomSecretData))
    → Keyed m
    → oldest time found m ≡ some d
    → (found ≡ some d) ⊎ In (d.actual_secret, d) m
unfolding oldest
oldest-In time found d [] h e = inl e
oldest-In time found d (x ∷ m) h e = elim (Bool-cases (ltb x.1.last_used_time time)) [
  | inl b ↦ inr (elim (oldest-In x.1.last_used_time (some x.1) d m h.1 (rw b at e)) [
    | inl p ↦ inl (ground (arith, p, h.0))
    | inr f ↦ inr f
  ])
  | inr b ↦ elim (oldest-In time found d m h.1 (rw b at e)) [ inl p ↦ inl p | inr f ↦ inr (inr f) ]
]

-- It is the oldest of all.
oldest-le :
    (time : ℕ) (found : Option RandomSecretData) (d : RandomSecretData)
    (m : List (String × RandomSecretData))
    → ((f : RandomSecretData) → found ≡ some f → f.last_used_time ≡ time)
    → oldest time found m ≡ some d
    → (d.last_used_time ≤ time) × All (λ e. d.last_used_time ≤ e.1.last_used_time) m
unfolding oldest
oldest-le time found d [] h e = (rw (h d e) (omega arith), tt)
oldest-le time found d (x ∷ m) h e = elim (Bool-cases (ltb x.1.last_used_time time)) [
  | inl b ↦
      let k = oldest-le x.1.last_used_time (some x.1) d m (λ f p. ground arith) (rw b at e) in
      (ground (arith, b, k.0), (k.0, k.1))
  | inr b ↦ let k = oldest-le time found d m h (rw b at e) in (k.0, (ground (arith, b, k.0), k.1))
]

-- With room for the new pair.
pub evict-IsSound :
    (s t : RandomSecretSink) (time : ℕ)
    → IsSound s
    → evict s time ≡ returns t
    → (suc (length t.secret_store) ≤ s.max_count)
      × (t.max_count ≡ s.max_count)
      × Keyed t.secret_store
unfolding evict
evict-IsSound s t time h e = elim (Bool-cases (leb s.max_count (length s.secret_store))) [
  | inr b ↦ let same : t ≡ s = ground (arith, b) in rw same (ground (arith, b), refl, h.keyed)
  | inl b ↦ elim (Option-cases (oldest time none s.secret_store)) [
    | inl o ↦ ground (arith, b, o)
    | inr (d, o) ↦
        let gone : t ≡ record s { secret_store = erase d.actual_secret s.secret_store } =
          ground (arith, b, o) in
        elim (oldest-lookup time none d s.secret_store h.keyed o) [
          | inl n ↦ ground arith
          | inr (x, l) ↦ rw gone (
            ground (arith, length-erase_found d.actual_secret x s.secret_store l, h.bounded),
            refl,
            erase-Keyed d.actual_secret s.secret_store h.keyed,
          )
        ]
  ]
]

oldest-some :
    (time : ℕ) (f : RandomSecretData) (m : List (String × RandomSecretData))
    → oldest time (some f) m ≢ none
unfolding oldest
oldest-some time f [] e = ground arith
oldest-some time f (x ∷ m) e =
    ground (arith, oldest-some x.1.last_used_time x.1 m, oldest-some time f m)

pub evict-returns :
    (s : RandomSecretSink) (time : ℕ)
    → 1 ≤ s.max_count
    → All (λ e. e.1.last_used_time < time) s.secret_store
    → evict s time ≢ panics
unfolding evict oldest
evict-returns s time m h e = elim (List-cases s.secret_store) [
  | inl n ↦ ground (arith, n)
  | inr (x, rest, n) ↦
      let older : x.1.last_used_time < time = (rw n at h).0 in
      ground (arith, n, older, oldest-some x.1.last_used_time x.1 rest)
]

-- The oldest pair of a full, sound sink is the one that goes.
pub evict-full :
    (s t : RandomSecretSink) (time : ℕ)
    → Keyed s.secret_store
    → s.max_count ≤ length s.secret_store
    → evict s time ≡ returns t
    → (d : RandomSecretData) × In (d.actual_secret, d) s.secret_store
      × (t ≡ record s { secret_store = erase d.actual_secret s.secret_store })
      × All (λ e. d.last_used_time ≤ e.1.last_used_time) s.secret_store
unfolding evict
evict-full s t time h full e = elim (Option-cases (oldest time none s.secret_store)) [
  | inl o ↦ ground (arith, o)
  | inr (d, o) ↦ (
    d,
    elim (oldest-In time none d s.secret_store h o) [ inl n ↦ ground arith | inr f ↦ f ],
    ground (arith, o),
    (oldest-le time none d s.secret_store (λ f p. ground arith) o).1,
  )
]

-- When a full, sound sink makes room, a pair of the store goes, none of the store was last used
-- before it, and the others stay as they are.
pub evict-oldest :
    (s t : RandomSecretSink) (time : ℕ)
    → IsSound s
    → s.max_count ≤ length s.secret_store
    → evict s time ≡ returns t
    → (d : RandomSecretData) × In (d.actual_secret, d) s.secret_store
      × (t.secret_store ≡ erase d.actual_secret s.secret_store)
      × All (λ e. d.last_used_time ≤ e.1.last_used_time) s.secret_store
evict-oldest s t time h full e =
    let (d, f, q, l) = evict-full s t time h.keyed full e in (d, f, ap (λ u. u.secret_store) q, l)
