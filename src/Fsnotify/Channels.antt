-- ===== src/Fsnotify/Channels.antt =====
-- fsnotify/filewatcher.go: which update channels the watched queries have, and which were
-- closed.
pub mod Steps
pub mod Closures
pub mod Watching
pub mod Running
pub mod Frame
pub mod Labels
mod Tests
use hotload.Prelude.{
  Unique, Unique-erase, Unique-insert, All, erase, insert, lookup, ltb, str_eq, Bool-cases, inl,
  inr, subst, ℕ, suc, ◌+◌, ◌≤◌, ◌<◌, ◌≡◌, refl, String, Bool, true, false, Option, none, some, List,
  [], ◌∷◌, ◌++◌, arith, lookup, insert, erase, count, total, total-erase_found, total-insert,
  total-insert_found, if◌then◌else◌, ◌==◌,
}
use hotload.Fsnotify.{QueryWatch, PathWatch, Strategy, PendingOperation, send_all}

-- How much the queries of a path, and of all paths, weigh, if `g` weighs an update channel.
abbrev pub chan_total : (Option ℕ → ℕ) → List (String × QueryWatch) → ℕ
chan_total g qs = total (λ q. g q.update_chan) qs

abbrev pub sum : (Option ℕ → ℕ) → List (String × PathWatch) → ℕ
sum g m = total (λ w. chan_total g w.queries) m

abbrev pub is_nil : Option ℕ → ℕ
is_nil none = 1
is_nil (some d) = 0

abbrev pub is_chan : ℕ → Option ℕ → ℕ
is_chan c none = 0
is_chan c (some d) = if c == d then 1 else 0

-- A path has one entry, and so has a query of a path.
pub record IsKeyed (m : List (String × PathWatch)) : Type 0 where
  pub paths : Unique m
  pub queries : All (λ e. Unique e.1.queries) m

-- No query has a nil channel. A channel that was made, those before `next`, is that of one query or
-- was closed once. Without a watcher no path is watched.
pub record Sound (watches : List (String × PathWatch)) (closed : List ℕ) (next : ℕ)
    (watching : Bool) : Type 0 where
  pub keyed : IsKeyed watches
  pub no_nil : sum is_nil watches ≡ 0
  pub exact : (c : ℕ) → sum (is_chan c) watches + count c closed ≡ (if ltb c next then 1 else 0)
  pub watched : watching ≡ false → watches ≡ []

abbrev pub IsSound : Strategy → Type 0
IsSound s =
    (m : List (String × PathWatch)) × (s.paths ≡ some m)
    × Sound m s.closed s.next_chan s.has_watcher

queries-erase :
    (k : String) (m : List (String × PathWatch))
    → All (λ e. Unique e.1.queries) m
    → All (λ e. Unique e.1.queries) (erase k m)
unfolding erase
queries-erase k [] a = tt
queries-erase k (e ∷ m) (u, a) = elim (Bool-cases (str_eq e.0 k)) [
  | inl b ↦ rw (b, erase) (queries-erase k m a)
  | inr b ↦ rw (b, erase) (u, queries-erase k m a)
]

pub IsKeyed-erase : (k : String) (m : List (String × PathWatch)) → IsKeyed m → IsKeyed (erase k m)
IsKeyed-erase k m h = record {
  paths = Unique-erase k m h.paths;
  queries = queries-erase k m h.queries;
}

pub IsKeyed-insert :
    (k : String) (w : PathWatch) (m : List (String × PathWatch))
    → Unique w.queries
    → IsKeyed m
    → IsKeyed (insert k w m)
unfolding insert
IsKeyed-insert k w m u h = record {
  paths = Unique-insert k w m h.paths;
  queries = (u, queries-erase k m h.queries);
}

pub queries-Unique :
    (k : String) (w : PathWatch) (m : List (String × PathWatch))
    → All (λ e. Unique e.1.queries) m
    → lookup k m ≡ some w
    → Unique w.queries
unfolding lookup
queries-Unique k w [] a l = absurd (ground (arith, l))
queries-Unique k w (e ∷ m) (u, a) l = elim (Bool-cases (str_eq e.0 k)) [
  | inl b ↦ let same : e.1 ≡ w = ground (arith, b, l) in subst (λ v. Unique v.queries) same u
  | inr b ↦ queries-Unique k w m a (rw b at l)
]

pub Sound-once :
    {m : List (String × PathWatch)} {closed : List ℕ} {next : ℕ} {b : Bool}
    → Sound m closed next b
    → (c : ℕ) → sum (is_chan c) m + count c closed ≤ 1
Sound-once h c = ground (arith, h.exact c)

-- The paths `n` have the channels of `m`.
pub Sound-same :
    (m n : List (String × PathWatch)) (closed : List ℕ) (next : ℕ) (b : Bool)
    → Sound m closed next b
    → IsKeyed n
    → ((g : Option ℕ → ℕ) → sum g n ≡ sum g m)
    → (b ≡ false → n ≡ [])
    → Sound n closed next b
Sound-same m n closed next b h k eq w = record {
  keyed = k;
  no_nil = omega (arith, h.no_nil, eq is_nil);
  exact = λ c. omega (arith, h.exact c, eq (is_chan c));
  watched = w;
}

-- One channel of `m` is no longer watched and is closed.
pub Sound-close :
    (m n : List (String × PathWatch)) (closed : List ℕ) (next c : ℕ) (b : Bool)
    → Sound m closed next b
    → IsKeyed n
    → ((g : Option ℕ → ℕ) → sum g n + g (some c) ≡ sum g m)
    → (b ≡ false → n ≡ [])
    → Sound n (c ∷ closed) next b
unfolding count
Sound-close m n closed next c b h k eq w = record {
  keyed = k;
  no_nil = omega (arith, h.no_nil, eq is_nil);
  exact = λ d. omega (arith, h.exact d, eq (is_chan d));
  watched = w;
}

-- A query with a fresh channel is added.
pub Sound-open :
    (m n : List (String × PathWatch)) (closed : List ℕ) (next : ℕ)
    → Sound m closed next true
    → IsKeyed n
    → ((g : Option ℕ → ℕ) → sum g n ≡ g (some next) + sum g m)
    → Sound n closed (suc next) true
Sound-open m n closed next h k eq = record {
  keyed = k;
  no_nil = omega (arith, h.no_nil, eq is_nil);
  exact = λ d. ground (arith, h.exact d, eq (is_chan d));
  watched = λ z. ground arith;
}
