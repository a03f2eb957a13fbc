-- ===== src/Fsnotify/Locking/Stopping.antt =====
-- fsnotify/filewatcher.go: where the strategy's threads stop between two calls.
use hotload.Prelude.{
  AllBelow, AllBelow-intro, ℕ, zero, suc, sym, subst, ◌<◌, ◌≤◌, ◌≡◌, ◌⊎◌, inl, inr, refl, String,
  false, List, [], ◌∷◌, length, arith, Bool-cases, List-cases, lt_suc-cases, ltb,
}
use hotload.Fsnotify.{PendingOperation}
use hotload.Fsnotify.OpLoop.{Phase, idle, checked, blocked, stuck, capacity}
use hotload.Fsnotify.Locking.{
  Lock, free, sending, shutting, Place, away, waits, inside, System, take_op, Work, unlocks,
  sends_next, takes, begins, hands_over, recovers, locks, leaves,
}
use hotload.Fsnotify.Locking.Kept.{IsKept}

-- The thread waits for an operation.
pub record Resting (s : System) (i : ℕ) : Type 0 where
  pub is_away : s.place i ≡ away
  pub is_idle : (s.thread i).phase ≡ idle
  pub empty : (s.thread i).watch.oper_chan ≡ []

-- The thread sends on a nil channel, or on one whose receiver has stopped.
pub data Dead (s : System) (i : ℕ) : Type 0 where
  sticks : (v : String) → (s.thread i).phase ≡ stuck v → Dead s i
  unheard :
      (v : String)
      → (s.thread i).phase ≡ blocked v
      → (s.thread i).closed ≡ false
      → s.listens i ≡ false
      → Dead s i

pub data Stopped (s : System) (i : ℕ) : Type 0 where
  rests : Resting s i → Stopped s i
  dies : Dead s i → Stopped s i
  awaits : s.place i ≡ waits → Stopped s i
  holds_mutex : s.place i ≡ inside → Stopped s i

abbrev pub CanMove : ℕ → System → Type 0
CanMove n s = (t : System) × Work n s t

idle_moves :
    (n : ℕ) (s : System) (i : ℕ) (p : Place)
    → i < n
    → s.place i ≡ p
    → (s.thread i).phase ≡ idle
    → CanMove n s ⊎ Stopped s i
idle_moves n s i away l e f = elim (List-cases (s.thread i).watch.oper_chan) [
  | inl q ↦ inr (rests (record { is_away = e; is_idle = f; empty = q }))
  | inr (op, rest, q) ↦ inl (take_op s i op rest, takes s i op rest l e f q)
]
idle_moves n s i waits l e f = inr (awaits e)
idle_moves n s i inside l e f = inr (holds_mutex e)

thread_moves :
    (n : ℕ) (s : System) (i : ℕ) (p : Phase)
    → i < n
    → (s.thread i).phase ≡ p
    → CanMove n s ⊎ Stopped s i
thread_moves n s i idle l f = idle_moves n s i (s.place i) l refl f
thread_moves n s i (checked v) l f = inl (_, begins s i v l f)
thread_moves n s i (stuck v) l f = inr (dies (sticks v f))
thread_moves n s i (blocked v) l f = elim (Bool-cases (s.thread i).closed) [
  | inl c ↦ inl (_, recovers s i v l f c)
  | inr c ↦ elim (Bool-cases (s.listens i)) [
    | inl k ↦ inl (_, hands_over s i v l f c k)
    | inr k ↦ inr (dies (unheard v f c k))
  ]
]

-- The thread waits for the mutex, or sends for ever.
abbrev pub Stalled : System → ℕ → Type 0
Stalled s i = ((s.place i ≡ waits) × ((s.thread i).phase ≡ idle)) ⊎ Dead s i

-- setVal or CloseWatch holds the mutex and waits for room in a buffer, whose thread waits for the
-- mutex or sends for ever.
pub record Wedged (n : ℕ) (s : System) : Type 0 where
  pub op : PendingOperation
  pub query : ℕ
  pub rest : List ℕ
  pub below : query < n
  pub held : s.lock ≡ sending op (query ∷ rest)
  pub full : capacity ≤ length (s.thread query).watch.oper_chan
  pub why : Stalled s query

-- The mutex is free, and each thread waits for an operation or sends for ever.
pub record AtRest (n : ℕ) (s : System) : Type 0 where
  pub is_free : s.lock ≡ free
  pub all_rest : AllBelow n (λ i. Resting s i ⊎ Dead s i)

one_rests :
    (n : ℕ) (s : System) (i : ℕ)
    → i < n
    → s.lock ≡ free
    → IsKept n s
    → CanMove n s ⊎ (Resting s i ⊎ Dead s i)
one_rests n s i l f h = elim (thread_moves n s i (s.thread i).phase l refl) [
  | inl m ↦ inl m
  | inr (rests r) ↦ inr (inl r)
  | inr (dies d) ↦ inr (inr d)
  | inr (awaits p) ↦ inl (_, locks s i l p f)
  | inr (holds_mutex p) ↦ absurd (ground (arith, h.holds i p, f))
]

all_rest_below :
    (n m : ℕ) (s : System)
    → m ≤ n
    → s.lock ≡ free
    → IsKept n s
    → CanMove n s ⊎ ((i : ℕ) → i < m → Resting s i ⊎ Dead s i)
all_rest_below n zero s l f h = inr (λ i z. absurd (omega arith))
all_rest_below n (suc m) s l f h = elim (one_rests n s m (omega arith) f h) [
  | inl k ↦ inl k
  | inr r ↦ elim (all_rest_below n m s (omega arith) f h) [
    | inl k ↦ inl k
    | inr a ↦ inr (λ i z. elim (lt_suc-cases i m z) [
      | inl y ↦ a i y
      | inr e ↦ subst (λ j. Resting s j ⊎ Dead s j) (sym e) r
    ])
  ]
]

send_moves :
    (n : ℕ) (s : System) (op : PendingOperation) (i : ℕ) (is : List ℕ)
    → s.lock ≡ sending op (i ∷ is)
    → IsKept n s
    → CanMove n s ⊎ Wedged n s
send_moves n s op i is e h =
    let l : i < n = (h.in_range op (i ∷ is) e).0 in
    elim (Bool-cases (ltb (length (s.thread i).watch.oper_chan) capacity)) [
      | inl b ↦ inl (_, sends_next s op i is l e (ground arith))
      | inr b ↦ elim (thread_moves n s i (s.thread i).phase l refl) [
        | inl m ↦ inl m
        | inr (rests r) ↦ absurd (let q = r.empty in ground (arith, q))
        | inr (dies d) ↦ inr (wedge l (ground arith) (inr d))
        | inr (awaits p) ↦ inr (wedge l (ground arith) (inl (p, h.waits_idle i (ground arith))))
        | inr (holds_mutex p) ↦ absurd (ground (arith, h.holds i p, e))
      ]
    ]
  where
    wedge : i < n → capacity ≤ length (s.thread i).watch.oper_chan → Stalled s i → Wedged n s
    wedge l f w = record { op = op; query = i; rest = is; below = l; held = e; full = f; why = w }

-- Without a move the system is at rest or wedged.
pub progress :
    (n : ℕ) (s : System) (k : Lock)
    → s.lock ≡ k
    → IsKept n s
    → CanMove n s ⊎ (AtRest n s ⊎ Wedged n s)
progress n s free e h = elim (all_rest_below n n s (omega arith) e h) [
  | inl m ↦ inl m
  | inr a ↦ inr (inl (record { is_free = e; all_rest = AllBelow-intro n a }))
]
progress n s (sending op []) e h = inl (_, unlocks s op e)
progress n s (sending op (i ∷ is)) e h = elim (send_moves n s op i is e h) [
  | inl m ↦ inl m
  | inr w ↦ inr (inr w)
]
progress n s (shutting who) e h = inl (_, leaves s who e)
