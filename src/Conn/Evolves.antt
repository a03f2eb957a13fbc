-- ===== src/Conn/Evolves.antt =====
-- What the operations on a connection leave alone: a frame that the group's invariants rest on.
use hotload.Prelude.{
  ℕ, ◌≡◌, refl, ◌∙◌, Bool, true, false, ◌⊎◌, inl, inr, List, [], ◌∷◌, if◌then◌else◌, In, arith,
  ℕ-cases, ◌≢◌, Option-cases,
}
use hotload.State.{State, ManagedConn, DriverCall, close_call}
use hotload.Conn.{write, log, attempt, remove, close_conn, close}

-- The underlying Close was called for the connection.
abbrev pub Closed : State → ℕ → Type 0
Closed s i = In (close_call (s.heap i).conn) s.calls

pub record SameConn (m n : ManagedConn) : Type 0 where
  pub ctx_eq : n.ctx ≡ m.ctx
  pub dsn_eq : n.dsn ≡ m.dsn
  pub conn_eq : n.conn ≡ m.conn
  pub reset_kept : m.reset ≡ true → n.reset ≡ true

pub record Evolves (s t : State) : Type 0 where
  pub group_eq : t.group ≡ record (s.group) { conns = t.group.conns }
  pub next_conn_eq : t.next_conn ≡ s.next_conn
  pub next_ctx_eq : t.next_ctx ≡ s.next_ctx
  pub canceled_eq : t.canceled ≡ s.canceled
  pub parent_eq : t.parent_done ≡ s.parent_done
  pub same : (i : ℕ) → SameConn (s.heap i) (t.heap i)
  pub grows : (k : DriverCall) → In k s.calls → In k t.calls
  pub kept : (i : ℕ) → In i s.group.conns → In i t.group.conns ⊎ Closed t i
  pub shrinks : (i : ℕ) → In i t.group.conns → In i s.group.conns

SameConn-refl : (m : ManagedConn) → SameConn m m
SameConn-refl m = record { ctx_eq = refl; dsn_eq = refl; conn_eq = refl; reset_kept = λ h. h }

pub Evolves-refl : (s : State) → Evolves s s
Evolves-refl s = record {
  group_eq = refl;
  next_conn_eq = refl;
  next_ctx_eq = refl;
  canceled_eq = refl;
  parent_eq = refl;
  same = λ i. SameConn-refl (s.heap i);
  grows = λ k h. h;
  kept = λ i h. inl h;
  shrinks = λ i h. h;
}

pub Closed-Evolves : (s t : State) (i : ℕ) → Evolves s t → Closed s i → Closed t i
Closed-Evolves s t i e h = rw ((e.same i).conn_eq) (e.grows _ h)

pub Evolves-trans : (s t u : State) → Evolves s t → Evolves t u → Evolves s u
Evolves-trans s t u e f = record {
  group_eq = ground arith;
  next_conn_eq = f.next_conn_eq ∙ e.next_conn_eq;
  next_ctx_eq = f.next_ctx_eq ∙ e.next_ctx_eq;
  canceled_eq = f.canceled_eq ∙ e.canceled_eq;
  parent_eq = f.parent_eq ∙ e.parent_eq;
  same = λ i. record {
    ctx_eq = (f.same i).ctx_eq ∙ (e.same i).ctx_eq;
    dsn_eq = (f.same i).dsn_eq ∙ (e.same i).dsn_eq;
    conn_eq = (f.same i).conn_eq ∙ (e.same i).conn_eq;
    reset_kept = λ h. (f.same i).reset_kept ((e.same i).reset_kept h);
  };
  grows = λ k h. f.grows k (e.grows k h);
  kept = λ i h. elim (e.kept i h) [ inl k ↦ f.kept i k | inr k ↦ inr (Closed-Evolves t u i f k) ];
  shrinks = λ i h. e.shrinks i (f.shrinks i h);
}

pub log-Evolves : (s : State) (k : DriverCall) → Evolves s (log s k)
log-Evolves s k = record {
  group_eq = refl;
  next_conn_eq = refl;
  next_ctx_eq = refl;
  canceled_eq = refl;
  parent_eq = refl;
  same = λ i. SameConn-refl (s.heap i);
  grows = λ j h. inr h;
  kept = λ i h. inl h;
  shrinks = λ i h. h;
}

write-same :
    (s : State) (c : ℕ) (m : ManagedConn)
    → SameConn (s.heap c) m
    → (i : ℕ) → SameConn (s.heap i) ((write s c m).heap i)
write-same s c m h i = elim (ℕ-cases c i) [ inl e ↦ ground arith | inr n ↦ ground arith ]

pub write-Evolves :
    (s : State) (c : ℕ) (m : ManagedConn) → SameConn (s.heap c) m → Evolves s (write s c m)
write-Evolves s c m h = record {
  group_eq = refl;
  next_conn_eq = refl;
  next_ctx_eq = refl;
  canceled_eq = refl;
  parent_eq = refl;
  same = write-same s c m h;
  grows = λ j g. g;
  kept = λ i g. inl g;
  shrinks = λ i g. g;
}

In-remove : (c i : ℕ) (xs : List ℕ) → In i (remove c xs) → In i xs
unfolding remove
In-remove c i [] h = h
In-remove c i (x ∷ xs) h = ground (arith, In-remove c i xs)

In-remove_ne : (c i : ℕ) (xs : List ℕ) → i ≢ c → In i xs → In i (remove c xs)
unfolding remove
In-remove_ne c i [] n h = h
In-remove_ne c i (x ∷ xs) n h = ground (arith, In-remove_ne c i xs n)

-- Whether or not the callback is set, only the closed connection may leave the list.
close_conn-kept :
    (s : State) (c i : ℕ)
    → In i s.group.conns
    → In i (close_conn s c).0.group.conns ⊎ Closed (close_conn s c).0 i
unfolding close_conn
close_conn-kept s c i h = elim (ℕ-cases i c) [
  | inl e ↦ inr (ground arith)
  | inr n ↦ inl (ground (arith, In-remove_ne c i s.group.conns n h))
]

close_conn-shrinks :
    (s : State) (c i : ℕ) → In i (close_conn s c).0.group.conns → In i s.group.conns
unfolding close_conn
close_conn-shrinks s c i h = ground (arith, In-remove c i s.group.conns)

pub close_conn-Evolves : (s : State) (c : ℕ) → Evolves s (close_conn s c).0
unfolding close_conn
close_conn-Evolves s c = record {
  group_eq = ground arith;
  next_conn_eq = ground arith;
  next_ctx_eq = ground arith;
  canceled_eq = ground arith;
  parent_eq = ground arith;
  same = λ i. ground (arith, SameConn-refl (s.heap i));
  grows = λ j h. ground arith;
  kept = close_conn-kept s c;
  shrinks = close_conn-shrinks s c;
}

pub log_after : (s t : State) (k : DriverCall) → Evolves s t → Evolves s (log t k)
log_after s t k e = Evolves-trans s t (log t k) e (log-Evolves t k)

pub if-Evolves {ℓ} :
    {A : Type ℓ} (s : State) (b : Bool) (x y : State × A)
    → Evolves s x.0
    → Evolves s y.0
    → Evolves s (if b then x else y).0
if-Evolves s true x y h k = h
if-Evolves s false x y h k = k

pub close-Evolves : (s : State) (c : ℕ) → Evolves s (close s c).0
unfolding close
close-Evolves s c = elim (Option-cases (attempt s (close_call (s.heap c).conn)).1) [
  | inl e ↦
      rw (e, close)
        (Evolves-trans s _ _ (close_conn-Evolves s c) (write-Evolves _ c _ (ground arith)))
  | inr (x, e) ↦ rw (e, close) (close_conn-Evolves s c)
]
