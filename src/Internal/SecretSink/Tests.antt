-- ===== src/Internal/SecretSink/Tests.antt =====
-- A sink of two pairs.
use hotload.Prelude.{In, ◌≤◌, ◌≡◌, refl, [], ◌∷◌, lookup, insert, erase, All, arith}
use hotload.State.{ok}
use hotload.Registry.{returns, panics}
use hotload.Internal.SecretSink.{
  RandomSecretData, RandomSecretSink, new_random_secret_sink, oldest, evict, add,
}
use hotload.Internal.SecretSink.Oldest.{IsSound, evict-oldest}
use hotload.Internal.SecretSink.Store.{add-IsSound}
use hotload.Internal.SecretSink.Again.{Use, add_all, add-again}

abbrev full_sink : RandomSecretSink
full_sink = record {
  secret_store =
      ("b", record { actual_secret = "b"; random_secret = "2"; last_used_time = 8 })
      ∷ ("a", record { actual_secret = "a"; random_secret = "1"; last_used_time = 5 })
      ∷ [];
  max_count = 2;
}

abbrev after_add : RandomSecretSink
after_add = record {
  secret_store =
      ("c", record { actual_secret = "c"; random_secret = "3"; last_used_time = 10 })
      ∷ ("b", record { actual_secret = "b"; random_secret = "2"; last_used_time = 8 })
      ∷ [];
  max_count = 2;
}

full_sink-IsSound : IsSound full_sink
full_sink-IsSound = record { bounded = omega arith; keyed = (refl, (refl, tt)) }

add-IsSound_example : IsSound after_add
unfolding add evict oldest lookup insert erase
add-IsSound_example =
    add-IsSound full_sink after_add "c" 9 10 (ok "3") (ok "3") full_sink-IsSound refl

abbrev use_d : Use
use_d = record { secret = "d"; time = 11; later = 12; random = ok "4" }

add-again_example :
    (u : RandomSecretSink) × (add_all after_add (use_d ∷ []) ≡ returns u)
    × ((v : RandomSecretSink) × (add u "c" 13 14 (ok "5") ≡ returns (v, ok "3")))
unfolding add evict oldest lookup insert erase
add-again_example =
    add-again full_sink after_add "c" "3" 9 10 13 14 (ok "3") (ok "5") (use_d ∷ [])
      full_sink-IsSound (omega arith, (omega arith, tt)) (omega arith) refl
      (omega arith, omega arith, tt) (omega arith)

-- Two calls for other secrets, and the secret has gone.
two_more_forget :
    add_all after_add (use_d ∷ record { secret = "e"; time = 13; later = 14; random = ok "5" } ∷ [])
    ≡ returns (record {
      secret_store =
          ("e", record { actual_secret = "e"; random_secret = "5"; last_used_time = 14 })
          ∷ ("d", record { actual_secret = "d"; random_secret = "4"; last_used_time = 12 })
          ∷ [];
      max_count = 2;
    })
unfolding add_all add evict oldest lookup insert erase
two_more_forget = refl

abbrev after_evict : RandomSecretSink
after_evict = record full_sink {
  secret_store =
      ("b", record { actual_secret = "b"; random_secret = "2"; last_used_time = 8 }) ∷ [];
}

evict-oldest_example :
    (d : RandomSecretData) × In (d.actual_secret, d) full_sink.secret_store
    × (after_evict.secret_store ≡ erase d.actual_secret full_sink.secret_store)
    × All (λ e. d.last_used_time ≤ e.1.last_used_time) full_sink.secret_store
unfolding evict oldest erase
evict-oldest_example = evict-oldest full_sink after_evict 9 full_sink-IsSound (omega arith) refl

-- A sink for no pair panics on the first Add.
empty_panics : add (new_random_secret_sink 0) "a" 1 2 (ok "1") ≡ panics
unfolding add evict oldest lookup new_random_secret_sink
empty_panics = refl
