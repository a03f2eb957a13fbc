-- ===== src/Internal/SecretSink/Again.antt =====
-- internal/secret_sink.go: sequences of calls of Add.
use hotload.Prelude.{
  ℕ, suc, ◌+◌, ◌<◌, ◌≤◌, ◌≡◌, refl, inl, inr, String, some, none, List, [], ◌∷◌, lookup, insert,
  length, leb, subst, sym, All, arith, Option-cases, Bool-cases, str_eq, eq_iff, ◌∙◌,
}
use hotload.State.{Error, Result, ok, err, Result-cases}
use hotload.Registry.{Outcome, Outcome-cases, returns, panics}
use hotload.Internal.SecretSink.{RandomSecretData, RandomSecretSink, evict, add}
use hotload.Internal.SecretSink.Oldest.{Keyed, IsSound, evict-full, evict-IsSound}
use hotload.Internal.SecretSink.Store.{add-IsSound, add-returns, add-known}
use hotload.Internal.SecretSink.Newer.{erase-All, All-weaken}
use hotload.Internal.SecretSink.Keeping.{Keeps, fresh-Keeps, later-Keeps, other-Keeps, evict-Keeps}

-- What Add did, if it returned.
data Added (s t : RandomSecretSink) (x : String) (time later : ℕ) : Result String → Type 0 where
  known :
      (d : RandomSecretData)
      → lookup x s.secret_store ≡ some d
      → t ≡ record s { secret_store = insert x (record d { last_used_time = time }) s.secret_store }
      → Added s t x time later (ok d.random_secret)
  stored :
      (u : RandomSecretSink) (v : String)
      → lookup x s.secret_store ≡ none
      → evict s time ≡ returns u
      → t ≡ record u {
        secret_store =
            insert x
              (record { actual_secret = x; random_secret = v; last_used_time = later })
              u.secret_store;
      }
      → Added s t x time later (ok v)
  failed : (e : Error) → evict s time ≡ returns t → Added s t x time later (err e)

add-Added :
    (s t : RandomSecretSink) (x : String) (time later : ℕ) (random a : Result String)
    → add s x time later random ≡ returns (t, a)
    → Added s t x time later a
unfolding add
add-Added s t x time later random a e = elim (Option-cases (lookup x s.secret_store)) [
  | inr (d, l) ↦
      let q : ok d.random_secret ≡ a = ground (arith, l) in
      subst (Added s t x time later) q (known d l (ground (arith, l)))
  | inl l ↦ elim (Outcome-cases (evict s time)) [
    | inr p ↦ absurd (ground (arith, l, p))
    | inl (u, p) ↦ elim (Result-cases random) [
      | inr (x', q) ↦
          let z : err x' ≡ a = ground (arith, l, p, q) in
          let y : u ≡ t = ground (arith, l, p, q) in
          subst (Added s t x time later) z (failed x' (rw⁻¹ y p))
      | inl (v, q) ↦
          let z : ok v ≡ a = ground (arith, l, p, q) in
          subst (Added s t x time later) z (stored u v l p (ground (arith, l, p, q)))
    ]
  ]
]

evict-All :
    (P : String × RandomSecretData → Type 0) (s u : RandomSecretSink) (time : ℕ)
    → Keyed s.secret_store
    → evict s time ≡ returns u
    → All P s.secret_store
    → All P u.secret_store
unfolding evict
evict-All P s u time h e a = elim (Bool-cases (leb s.max_count (length s.secret_store))) [
  | inr b ↦ let q : s ≡ u = ground (arith, b) in subst (λ t. All P t.secret_store) q a
  | inl b ↦
      let (d, i, q, least) = evict-full s u time h (ground arith) e in
      subst (λ t. All P t.secret_store) (sym q) (erase-All P d.actual_secret s.secret_store a)
]

-- One call of Add.
pub record Use : Type 0 where
  pub secret : String
  pub time : ℕ
  pub later : ℕ
  pub random : Result String

-- The sink after some calls of Add, of which one may panic.
unfoldable pub add_all : RandomSecretSink → List Use → Outcome RandomSecretSink
add_all s [] = returns s
add_all s (u ∷ us) = elim (add s u.secret u.time u.later u.random) [
  | panics ↦ panics
  | returns (t, r) ↦ add_all t us
]

-- Each call is at a later time than those before it.
abbrev pub InTurn : ℕ → List Use → Type 0
InTurn now [] = Unit
InTurn now (u ∷ us) = (now < u.time) × (u.time ≤ u.later) × InTurn u.later us

module _ (limit : ℕ) (secret r : String) where
  start-Keeps :
      (s t : RandomSecretSink) (time later : ℕ) (a : Result String)
      → IsSound s
      → s.max_count ≡ limit
      → IsSound t
      → All (λ e. e.1.last_used_time < time) s.secret_store
      → time ≤ later
      → Added s t secret time later a
      → a ≡ ok r
      → Keeps limit secret r 0 later t
  start-Keeps s t time later a h m i old l (known d f q) e =
      fresh-Keeps limit secret r s t (record d { last_used_time = time }) time later i m old
        (ground (arith, e)) (omega arith) l q
  start-Keeps s t time later a h m i old l (stored u v n p q) e =
      let (room, same, keyed) = evict-IsSound s u time h p in
      fresh-Keeps limit secret r u t _ time later i (same ∙ m)
        (evict-All (λ e. e.1.last_used_time < time) s u time h.keyed p old) (ground (arith, e)) l
        (omega arith) q
  start-Keeps s t time later a h m i old l (failed x p) e = ground (arith, e)

  -- One more call, of the secret or of another.
  Added-Keeps :
      (k now : ℕ) (s t : RandomSecretSink) (x : String) (time later : ℕ) (a : Result String)
      → IsSound t
      → suc k < limit
      → now < time
      → time ≤ later
      → Keeps limit secret r k now s
      → Added s t x time later a
      → Keeps limit secret r (suc k) later t
  Added-Keeps k now s t x time later a i l n n' h (known d f q) =
      elim (Bool-cases (str_eq x secret)) [
        | inl b ↦
            let same : x ≡ secret = ground (arith, eq_iff x secret, b) in
            let found = h.found in
            let value = h.value in
            later-Keeps limit secret r 0 (suc k) later later t (omega arith) (omega arith) (
              fresh-Keeps limit secret r s t (record d { last_used_time = time }) time later i
                h.limit_eq
                (All-weaken (λ e. e.1.last_used_time ≤ now) (λ e. e.1.last_used_time < time)
                  s.secret_store (λ e q. omega arith) h.past)
                (ground (arith, f, found, value, same)) (omega arith) n' (rw same at q))
        | inr b ↦
            other-Keeps limit secret r k later s t x (record d { last_used_time = time }) i
              (λ e. ground (arith, eq_iff x secret, b, e)) n' q
              (later-Keeps limit secret r k k now later s (omega arith) (omega arith) h)
      ]
  Added-Keeps k now s t x time later a i l n n' h (stored u v none_yet p q) =
      let found = h.found in
      other-Keeps limit secret r k later u t x _ i (λ e. ground (arith, none_yet, found, e))
        (omega arith) q
        (later-Keeps limit secret r k k now later u (omega arith) (omega arith)
          (evict-Keeps limit secret r k now time s u l h p))
  Added-Keeps k now s t x time later a i l n n' h (failed e p) =
      later-Keeps limit secret r k (suc k) now later t (omega arith) (omega arith)
        (evict-Keeps limit secret r k now time s t l h p)

  add-Keeps :
      (k now : ℕ) (s : RandomSecretSink) (c : Use)
      → suc k < limit
      → now < c.time
      → c.time ≤ c.later
      → Keeps limit secret r k now s
      → (t : RandomSecretSink) × (a : Result String) × (add s c.secret c.time c.later c.random
          ≡ returns (t, a))
        × Keeps limit secret r (suc k) c.later t
  add-Keeps k now s c l n n' h = elim (Outcome-cases (add s c.secret c.time c.later c.random)) [
    | inr p ↦
        let same = h.limit_eq in
        absurd (
          add-returns s c.secret c.time c.later c.random (omega arith)
            (All-weaken (λ e. e.1.last_used_time ≤ now) (λ e. e.1.last_used_time < c.time)
              s.secret_store (λ e q. omega arith) h.past)
            p)
    | inl ((t, a), p) ↦ (
      t,
      a,
      p,
      Added-Keeps k now s t c.secret c.time c.later a
          (add-IsSound s t c.secret c.time c.later c.random a h.sound p) l n n' h
          (add-Added s t c.secret c.time c.later c.random a p),
    )
  ]

  add_all-Keeps :
      (k now : ℕ) (s : RandomSecretSink) (us : List Use)
      → k + length us < limit
      → InTurn now us
      → Keeps limit secret r k now s
      → (t : RandomSecretSink) × (add_all s us ≡ returns t)
        × ((d : RandomSecretData) × (lookup secret t.secret_store ≡ some d) × (d.random_secret ≡ r))
  unfolding add_all
  add_all-Keeps k now s [] l o h = (s, refl, (h.entry, h.found, h.value))
  add_all-Keeps k now s (c ∷ us) l o h =
      let (t, a, p, kept) = add-Keeps k now s c (omega arith) o.0 o.1 h in
      let (u, q, known_still) = add_all-Keeps (suc k) c.later t us (omega arith) o.2 kept in
      (u, ground (arith, p, q), known_still)

-- If Add stores or uses a secret in a sound sink whose pairs were all used before, then fewer than
-- max_count further calls of Add, for any secrets and each at a later time, do not panic, and after
-- them adding the secret again answers the same random value, whatever the uuid would be.
pub add-again :
    (s t : RandomSecretSink) (secret r : String) (time later next after : ℕ)
    (random other : Result String) (us : List Use)
    → IsSound s
    → All (λ e. e.1.last_used_time < time) s.secret_store
    → time ≤ later
    → add s secret time later random ≡ returns (t, ok r)
    → InTurn later us
    → length us < s.max_count
    → (u : RandomSecretSink) × (add_all t us ≡ returns u)
      × ((v : RandomSecretSink) × (add u secret next after other ≡ returns (v, ok r)))
add-again s t secret r time later next after random other us h old l e o n =
    let kept =
      start-Keeps s.max_count secret r s t time later (ok r) h refl
        (add-IsSound s t secret time later random (ok r) h e) old l
        (add-Added s t secret time later random (ok r) e) refl in
    let (u, q, (d, f, v)) = add_all-Keeps s.max_count secret r 0 later t us (omega arith) o kept in
    (u, q, (_, add-known u secret d r next after other f v))
