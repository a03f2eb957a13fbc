-- ===== src/Internal/SecretSink/Keeping.antt =====
-- internal/secret_sink.go: the pair of one secret, call after call.
use hotload.Prelude.{
  ℕ, suc, ◌<◌, ◌≤◌, ◌≡◌, ◌≢◌, inl, inr, String, some, lookup, insert, erase, lookup-erase,
  lookup-insert, lookup-insert_self, length, leb, subst, sym, All, In, arith, Bool-cases, eq_iff,
  ◌∙◌,
}
use hotload.Registry.{returns}
use hotload.Internal.SecretSink.{RandomSecretData, RandomSecretSink, evict}
use hotload.Internal.SecretSink.Oldest.{IsSound, evict-full, evict-IsSound}
use hotload.Internal.SecretSink.Newer.{
  newer, newer-erase, newer-none, newer-all, newer-insert, erase-All, erased-All, All-In,
  All-weaken,
}

-- After `calls` calls the secret still has its value, and the pairs that were used since it was
-- used are no more than the calls.
pub record Keeps (limit : ℕ) (secret r : String) (calls now : ℕ) (s : RandomSecretSink)
    : Type 0 where
  pub sound : IsSound s
  pub limit_eq : s.max_count ≡ limit
  pub entry : RandomSecretData
  pub found : lookup secret s.secret_store ≡ some entry
  pub value : entry.random_secret ≡ r
  pub since : ℕ
  pub own : All (λ e. e.0 ≡ secret → since ≤ e.1.last_used_time) s.secret_store
  pub few : newer since s.secret_store ≤ suc calls
  pub past : All (λ e. e.1.last_used_time ≤ now) s.secret_store

module _ (limit : ℕ) (secret r : String) where
  -- A call that uses the secret itself.
  pub fresh-Keeps :
      (u t : RandomSecretSink) (d : RandomSecretData) (time now : ℕ)
      → IsSound t
      → u.max_count ≡ limit
      → All (λ e. e.1.last_used_time < time) u.secret_store
      → d.random_secret ≡ r
      → time ≤ d.last_used_time
      → d.last_used_time ≤ now
      → t ≡ record u { secret_store = insert secret d u.secret_store }
      → Keeps limit secret r 0 now t
  unfolding insert
  fresh-Keeps u t d time now h m old v l l' q =
      let rest = erase secret u.secret_store in
      let none_newer = newer-none time u.secret_store old in
      let fewer = newer-insert time secret d u.secret_store in
      let before =
        All-weaken (λ e. e.1.last_used_time < time) (λ e. e.1.last_used_time ≤ now) rest
          (λ e k. omega arith)
          (erase-All (λ e. e.1.last_used_time < time) secret u.secret_store old) in
      subst (Keeps limit secret r 0 now) (sym q) (record {
        sound = subst IsSound q h;
        limit_eq = m;
        entry = d;
        found = lookup-insert_self secret d u.secret_store;
        value = v;
        since = time;
        own = ((λ e. l), erased-All (λ e. time ≤ e.last_used_time) secret u.secret_store);
        few = omega arith;
        past = (l', before);
      })

  pub later-Keeps :
      (k k' now now' : ℕ) (s : RandomSecretSink)
      → k ≤ k'
      → now ≤ now'
      → Keeps limit secret r k now s
      → Keeps limit secret r k' now' s
  later-Keeps k k' now now' s l l' h =
      let f = h.few in
      record {
        sound = h.sound;
        limit_eq = h.limit_eq;
        entry = h.entry;
        found = h.found;
        value = h.value;
        since = h.since;
        own = h.own;
        few = omega arith;
        past =
            All-weaken (λ e. e.1.last_used_time ≤ now) (λ e. e.1.last_used_time ≤ now')
              s.secret_store (λ e q. omega arith) h.past;
      }

  -- A call that stores or uses another secret.
  pub other-Keeps :
      (k now : ℕ) (u t : RandomSecretSink) (x : String) (d : RandomSecretData)
      → IsSound t
      → x ≢ secret
      → d.last_used_time ≤ now
      → t ≡ record u { secret_store = insert x d u.secret_store }
      → Keeps limit secret r k now u
      → Keeps limit secret r (suc k) now t
  unfolding insert
  other-Keeps k now u t x d h ne l q kept =
      let added = newer-insert kept.since x d u.secret_store in
      let f = kept.few in
      let found = kept.found in
      subst (Keeps limit secret r (suc k) now) (sym q) (record {
        sound = subst IsSound q h;
        limit_eq = kept.limit_eq;
        entry = kept.entry;
        found =
            lookup-insert x secret d u.secret_store ∙ ground (arith, found, eq_iff x secret, ne);
        value = kept.value;
        since = kept.since;
        own = (
          (λ e. absurd (ne e)),
          erase-All (λ e. e.0 ≡ secret → kept.since ≤ e.1.last_used_time) x u.secret_store kept.own,
        );
        few = omega arith;
        past = (l, erase-All (λ e. e.1.last_used_time ≤ now) x u.secret_store kept.past);
      })

  -- The secret is not the one that goes while the calls are fewer than the limit.
  evict-other :
      (k now : ℕ) (s : RandomSecretSink) (d : RandomSecretData)
      → s.max_count ≤ length s.secret_store
      → suc k < limit
      → Keeps limit secret r k now s
      → In (d.actual_secret, d) s.secret_store
      → All (λ e. d.last_used_time ≤ e.1.last_used_time) s.secret_store
      → d.actual_secret ≢ secret
  evict-other k now s d full l h i least e =
      let own =
        All-In (λ e. e.0 ≡ secret → h.since ≤ e.1.last_used_time) (d.actual_secret, d)
          s.secret_store h.own i e in
      let all = newer-all h.since s.secret_store (
        All-weaken (λ e. d.last_used_time ≤ e.1.last_used_time) (λ e. h.since ≤ e.1.last_used_time)
          s.secret_store (λ e q. omega arith) least) in
      let few = h.few in let same = h.limit_eq in omega arith

  pub evict-Keeps :
      (k now time : ℕ) (s u : RandomSecretSink)
      → suc k < limit
      → Keeps limit secret r k now s
      → evict s time ≡ returns u
      → Keeps limit secret r k now u
  unfolding evict
  evict-Keeps k now time s u l h e = elim (Bool-cases (leb s.max_count (length s.secret_store))) [
    | inr b ↦ let q : s ≡ u = ground (arith, b) in subst (Keeps limit secret r k now) q h
    | inl b ↦
        let (room, limit_kept, keyed) = evict-IsSound s u time h.sound e in
        let (d, i, q, least) = evict-full s u time h.sound.keyed (ground arith) e in
        let ne = evict-other k now s d (ground arith) l h i least in
        let fewer = newer-erase h.since d.actual_secret s.secret_store in
        let found = h.found in
        let few = h.few in
        subst (Keeps limit secret r k now) (sym q) (record {
          sound = subst IsSound q (record { bounded = omega arith; keyed = keyed });
          limit_eq = h.limit_eq;
          entry = h.entry;
          found =
              lookup-erase d.actual_secret secret s.secret_store
              ∙ ground (arith, found, eq_iff d.actual_secret secret, ne);
          value = h.value;
          since = h.since;
          own =
              erase-All (λ e. e.0 ≡ secret → h.since ≤ e.1.last_used_time) d.actual_secret
                s.secret_store h.own;
          few = omega arith;
          past = erase-All (λ e. e.1.last_used_time ≤ now) d.actual_secret s.secret_store h.past;
        })
  ]
