-- ===== src/Internal/Redact/Tests.antt =====
-- Two connection strings with one password, over a parser of pairs.
use hotload.Prelude.{
  arith, ℕ, ◌≡◌, refl, String, List, [], ◌∷◌, str_eq, if◌then◌else◌, lookup, insert, erase,
}
use hotload.State.{ok, err, bad_conn}
use hotload.Registry.{returns}
use hotload.Internal.SecretSink.{RandomSecretSink, new_random_secret_sink, add, evict}
use hotload.Internal.Redact.{UserLib, redact_user, redacted, redact_url, new_rss}
use hotload.Internal.Redact.Consistent.{RedactCall, redact_all, redact_url-consistent}

-- A uri is its user, its password and whether it is redacted.
abbrev users : UserLib (List ℕ × String)
users = record {
  parse = λ dsn. if str_eq dsn "%" then err bad_conn else ok (b'a' ∷ b'b' ∷ [], dsn);
  username = λ u. u.0;
  password = λ u. u.1;
  with_user = λ u name pass. (name, pass);
  to_string = λ u. u.1;
}

abbrev after_one : RandomSecretSink
after_one = record {
  secret_store =
      (
        "secret",
        record { actual_secret = "secret"; random_secret = "12345678"; last_used_time = 2 },
      )
      ∷ [];
  max_count = 20;
}

-- A string that net/url refuses, and another password.
abbrev others : List RedactCall
others =
    record { dsn_url = "%"; time = 3; later = 3; random = ok "1" }
    ∷ record { dsn_url = "other"; time = 4; later = 5; random = ok "2" }
    ∷ []

redact_url-consistent_example :
    (pass : String) × ("12345678" ≡ redacted users (b'a' ∷ b'b' ∷ [], "secret") pass)
    × ((u : RandomSecretSink) × (redact_all users after_one others ≡ returns u)
        × ((v : RandomSecretSink) × (redact_url users u "secret" 6 7 (err bad_conn)
              ≡ returns (v, redacted users (b'a' ∷ b'b' ∷ [], "secret") pass))))
unfolding redact_url add evict lookup insert erase new_random_secret_sink
redact_url-consistent_example =
    redact_url-consistent users new_rss after_one "secret" "secret" "12345678" "12345678"
      (b'a' ∷ b'b' ∷ [], "secret") (b'a' ∷ b'b' ∷ [], "secret") 1 2 6 7 (err bad_conn) others
      (record { bounded = omega arith; keyed = tt }) tt (omega arith) refl refl refl refl
      (omega arith, omega arith, (omega arith, omega arith, tt)) (omega arith)

short_names :
    (redact_user (b'a' ∷ b'b' ∷ []) ≡ b'a' ∷ b'-' ∷ b'-' ∷ b'-' ∷ b'b' ∷ [])
    × (redact_user [] ≡ b'u' ∷ b'-' ∷ b'-' ∷ b'-' ∷ b'r' ∷ [])
unfolding redact_user
short_names = (refl, refl)
