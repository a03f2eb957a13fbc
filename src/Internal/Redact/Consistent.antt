-- ===== src/Internal/Redact/Consistent.antt =====
-- internal/url.go: sequences of calls of RedactUrl.
use hotload.Prelude.{
  subst, sym, ℕ, ◌<◌, ◌≤◌, ◌≡◌, refl, ◌∙◌, String, List, [], ◌∷◌, length, All, inl, inr, arith,
}
use hotload.State.{Error, Result, ok, err, Result-cases}
use hotload.Registry.{Outcome, Outcome-cases, returns, panics}
use hotload.Internal.SecretSink.{RandomSecretSink, add}
use hotload.Internal.SecretSink.Oldest.{IsSound}
use hotload.Internal.SecretSink.Store.{add-ok}
use hotload.Internal.SecretSink.Again.{Use, add_all, InTurn, add-again}
use hotload.Internal.Redact.{UserLib, secret_of, redacted, redact_url}

-- One call of RedactUrl.
pub record RedactCall : Type 0 where
  pub dsn_url : String
  pub time : ℕ
  pub later : ℕ
  pub random : Result String

-- Each call is at a later time than those before it.
abbrev pub RedactsInTurn : ℕ → List RedactCall → Type 0
RedactsInTurn now [] = Unit
RedactsInTurn now (c ∷ cs) = (now < c.time) × (c.time ≤ c.later) × RedactsInTurn c.later cs

module _ {Uri : Type 0} (lib : UserLib Uri) where
  -- If uuid answers, RedactUrl shows a password as the random value that the sink has for it.
  redact_url-add :
      (s t : RandomSecretSink) (dsn x r : String) (uri : Uri) (time later : ℕ)
      → lib.parse dsn ≡ ok uri
      → redact_url lib s dsn time later (ok r) ≡ returns (t, x)
      → (pass : String) × (add s (secret_of lib uri) time later (ok r) ≡ returns (t, ok pass))
        × (x ≡ redacted lib uri pass)
  unfolding redact_url
  redact_url-add s t dsn x r uri time later p e =
      elim (Outcome-cases (add s (secret_of lib uri) time later (ok r))) [
        | inr q ↦ absurd (ground (arith, p, q))
        | inl ((u, m), q) ↦
            let (pass, k) = add-ok s u (secret_of lib uri) r time later m q in
            (pass, ground (arith, p, q, k), ground (arith, p, q, k))
      ]

  -- The sink after some calls of RedactUrl, of which one may panic.
  unfoldable pub redact_all : RandomSecretSink → List RedactCall → Outcome RandomSecretSink
  unfolding redact_url
  redact_all s [] = returns s
  redact_all s (c ∷ cs) = elim (redact_url lib s c.dsn_url c.time c.later c.random) [
    | panics ↦ panics
    | returns (t, x) ↦ redact_all t cs
  ]

  -- The calls of Add that they make.
  uses : List RedactCall → List Use
  uses [] = []
  uses (c ∷ cs) = elim (lib.parse c.dsn_url) [
    | err e ↦ uses cs
    | ok uri ↦
        record { secret = secret_of lib uri; time = c.time; later = c.later; random = c.random }
        ∷ uses cs
  ]

  length-uses : (cs : List RedactCall) → length (uses cs) ≤ length cs
  unfolding uses
  length-uses [] = ground arith
  length-uses (c ∷ cs) = ground (arith, length-uses cs)

  use_of : RedactCall → Uri → Use
  use_of c uri = record {
    secret = secret_of lib uri;
    time = c.time;
    later = c.later;
    random = c.random;
  }

  uses-refused :
      (c : RedactCall) (cs : List RedactCall) (e : Error)
      → lib.parse c.dsn_url ≡ err e
      → uses (c ∷ cs) ≡ uses cs
  unfolding uses
  uses-refused c cs e p = ground (arith, p)

  uses-parsed :
      (c : RedactCall) (cs : List RedactCall) (uri : Uri)
      → lib.parse c.dsn_url ≡ ok uri
      → uses (c ∷ cs) ≡ use_of c uri ∷ uses cs
  unfolding uses use_of
  uses-parsed c cs uri p = ground (arith, p)

  uses-InTurn :
      (now before : ℕ) (cs : List RedactCall)
      → before ≤ now
      → RedactsInTurn now cs
      → InTurn before (uses cs)
  unfolding uses use_of
  uses-InTurn now before [] l h = tt
  uses-InTurn now before (c ∷ cs) l h =
      let n = h.0 in
      let n' = h.1 in
      elim (Result-cases (lib.parse c.dsn_url)) [
        | inr (e, p) ↦
            subst (InTurn before) (sym (uses-refused c cs e p))
              (uses-InTurn c.later before cs (omega arith) h.2)
        | inl (uri, p) ↦
            subst (InTurn before) (sym (uses-parsed c cs uri p))
              (omega arith, h.1, uses-InTurn c.later c.later cs (omega arith) h.2)
      ]

  redact_all-add_all :
      (s : RandomSecretSink) (cs : List RedactCall) → redact_all s cs ≡ add_all s (uses cs)
  unfolding redact_all redact_url uses add_all
  redact_all-add_all s [] = refl
  redact_all-add_all s (c ∷ cs) = elim (Result-cases (lib.parse c.dsn_url)) [
    | inr (e, p) ↦ ground (arith, p, redact_all-add_all s cs)
    | inl (uri, p) ↦ elim (Outcome-cases (add s (secret_of lib uri) c.time c.later c.random)) [
      | inr q ↦ ground (arith, p, q)
      | inl ((t, m), q) ↦ elim (Result-cases m) [
        | inl (v, k) ↦ ground (arith, p, q, k, redact_all-add_all t cs)
        | inr (v, k) ↦ ground (arith, p, q, k, redact_all-add_all t cs)
      ]
    ]
  ]

  -- If RedactUrl redacts a connection string, with uuid answering, from a sound sink whose pairs
  -- were all used before, then fewer than max_count further calls of RedactUrl, on any strings and
  -- each at a later time, do not panic, and after them every string with the same password shows
  -- the same text in its place, whatever uuid answers.
  pub redact_url-consistent :
      (s t : RandomSecretSink) (dsn dsn' x r : String) (uri uri' : Uri) (time later next after : ℕ)
      (other : Result String) (cs : List RedactCall)
      → IsSound s
      → All (λ e. e.1.last_used_time < time) s.secret_store
      → time ≤ later
      → lib.parse dsn ≡ ok uri
      → lib.parse dsn' ≡ ok uri'
      → lib.password uri ≡ lib.password uri'
      → redact_url lib s dsn time later (ok r) ≡ returns (t, x)
      → RedactsInTurn later cs
      → length cs < s.max_count
      → (pass : String) × (x ≡ redacted lib uri pass)
        × ((u : RandomSecretSink) × (redact_all t cs ≡ returns u)
            × ((v : RandomSecretSink) × (redact_url lib u dsn' next after other
                  ≡ returns (v, redacted lib uri' pass))))
  unfolding redact_url
  redact_url-consistent s t dsn dsn' x r uri uri' time later next after other cs h old l p p' same e
        turn n =
      let (pass, a, shown) = redact_url-add s t dsn x r uri time later p e in
      let fewer = length-uses cs in
      let (u, q, (v, again)) =
        add-again s t (secret_of lib uri) pass time later next after (ok r) other (uses cs) h old l
          a (uses-InTurn later later cs (omega arith) turn) (omega arith) in
      let same_secret : secret_of lib uri' ≡ secret_of lib uri = rw same refl in
      (pass, shown, (u, redact_all-add_all t cs ∙ q, (v, ground (arith, p', same_secret, again))))
