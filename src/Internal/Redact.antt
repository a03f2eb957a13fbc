-- ===== src/Internal/Redact.antt =====
-- internal/url.go: RedactUrl, which hides the user and the password of a connection string.
pub mod Consistent
mod Tests
use hotload.Prelude.{ℕ, String, List, [], ◌∷◌, ◌++◌, str_eq, if◌then◌else◌}
use hotload.State.{Result, ok, err}
use hotload.Registry.{Outcome, returns, panics}
use hotload.Internal.SecretSink.{RandomSecretSink, new_random_secret_sink, add}

-- net/url, as far as RedactUrl uses it. A user name is its bytes; a missing user has an empty name
-- and password. `with_user` sets uri.User to url.UserPassword.
pub record UserLib (Uri : Type 0) : Type 0 where
  pub parse : String → Result Uri
  pub username : Uri → List ℕ
  pub password : Uri → String
  pub with_user : Uri → List ℕ → String → Uri
  pub to_string : Uri → String

-- "---" and "user"
abbrev pub redact_str : List ℕ
redact_str = b'-' ∷ b'-' ∷ b'-' ∷ []

abbrev pub default_user : List ℕ
default_user = b'u' ∷ b's' ∷ b'e' ∷ b'r' ∷ []

-- The last byte of `c ∷ name`.
unfoldable pub last_byte : ℕ → List ℕ → ℕ
last_byte c [] = c
last_byte c (d ∷ name) = last_byte d name

-- The first byte, "---" and the last byte, of "user" for an empty name.
unfoldable pub redact_user : List ℕ → List ℕ
unfolding last_byte
redact_user [] = b'u' ∷ redact_str ++ (b'r' ∷ [])
redact_user (c ∷ name) = c ∷ redact_str ++ (last_byte c name ∷ [])

-- `rss`, as init makes it.
abbrev pub new_rss : RandomSecretSink
new_rss = new_random_secret_sink 20

abbrev pub secret_of : {Uri : Type 0} → UserLib Uri → Uri → String
secret_of lib uri = if str_eq (lib.password uri) "" then "password" else lib.password uri

-- The uri with both parts replaced, as a text.
abbrev pub redacted : {Uri : Type 0} → UserLib Uri → Uri → String → String
redacted lib uri pass = lib.to_string (lib.with_user uri (redact_user (lib.username uri)) pass)

unfoldable pub redact_url :
    {Uri : Type 0}
    → UserLib Uri
    → RandomSecretSink
    → String
    → ℕ
    → ℕ
    → Result String
    → Outcome (RandomSecretSink × String)
unfolding redact_user add
redact_url lib rss dsn_url time later random = elim (lib.parse dsn_url) [
  | err e ↦ returns (rss, dsn_url)
  | ok uri ↦ elim (add rss (secret_of lib uri) time later random) [
    | panics ↦ panics
    | returns (t, ok pass) ↦ returns (t, redacted lib uri pass)
    | returns (t, err e) ↦ returns (t, redacted lib uri "---")
  ]
]
