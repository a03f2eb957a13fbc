-- ===== src/ChanGroup/Preservation.antt =====
-- Every move of the threads keeps the group's invariant.
use hotload.Prelude.{
  ℕ, suc, ◌++◌, ◌<◌, ◌≡◌, refl, String, In-append_left, In-append_right, In-append_cases, true,
  false, inl, inr, some, List, [], ◌∷◌, arith, ℕ-cases, update,
}
use hotload.State.{State, Result-cases, ok, open_call}
use hotload.Conn.{close, set_reset, ask}
use hotload.Conn.Evolves.{Closed, close-Evolves, log-Evolves}
use hotload.Conn.Frame.{set_reset-Evolves}
use hotload.Dsn.{UrlLib, merge_conn_string_options}
use hotload.ChanGroup.{open_conn, new_managed_conn, call_cancel}
use hotload.ChanGroup.Steps.{Action, cancel_context, reset_conn, close_conn, perform}
use hotload.ChanGroup.Invariant.{Inv, Fate, Tracked, Inv-Evolves, Inv-drop}

-- Cancelling any context but the present one, or the present one after the parent's end.
pub Inv-cancel :
    (url : UrlLib) (s : State) (todo : List Action) (x : ℕ)
    → Inv url s todo
    → (s.parent_done ≡ false → x < s.group.ctx)
    → Inv url (call_cancel s (some x)) todo
unfolding call_cancel
Inv-cancel url s todo x v h = record {
  cancels_ctx = v.cancels_ctx;
  ctx_lt = v.ctx_lt;
  prev_lt = v.prev_lt;
  todo_lt = v.todo_lt;
  live = λ p. ground (arith, h p, v.live p);
  conn_lt = v.conn_lt;
  fate = λ i p. ground (arith, v.fate i p);
  tracked = v.tracked;
  forced_ctx = λ f y p. ground (arith, v.forced_ctx f y p);
  forced_conns = v.forced_conns;
  listed = v.listed;
  prev_listed = v.prev_listed;
  listed_ctx = v.listed_ctx;
}

close-Closed : (s : State) (c : ℕ) → Closed (close s c).0 c
unfolding close
close-Closed s c = ground arith

set_reset-reset : (s : State) (c : ℕ) → ((set_reset s c true).heap c).reset ≡ true
unfolding set_reset
set_reset-reset s c = ground arith

-- One action of runLoop.
pub Inv-perform :
    (url : UrlLib) (s : State) (a : Action) (todo : List Action)
    → Inv url s (a ∷ todo)
    → Inv url (perform s a) todo
unfolding perform
Inv-perform url s (cancel_context x) todo v =
    Inv-drop url _ todo (cancel_context x) (ground arith)
      (Inv-cancel url s _ x v (λ _. v.todo_lt x (inl refl)))
Inv-perform url s (reset_conn c) todo v =
    Inv-drop url _ todo (reset_conn c) (set_reset-reset s c)
      (Inv-Evolves url s _ _ (set_reset-Evolves s c) v)
Inv-perform url s (close_conn c) todo v =
    Inv-drop url _ todo (close_conn c) (close-Closed s c)
      (Inv-Evolves url s _ _ (close-Evolves s c) v)

-- Open adds a connection with the present connection string and context.
module _ (url : UrlLib) (s : State) (todo : List Action) (v : Inv url s todo)
    (dsn redacted : String) (conn : ℕ) where
  abbrev opened : State
  opened = record s {
    calls = open_call dsn ∷ s.calls;
    group = record (s.group) { conns = s.group.conns ++ (s.next_conn ∷ []) };
    heap = update s.heap s.next_conn (new_managed_conn s.group.ctx dsn redacted conn);
    next_conn = suc s.next_conn;
  }

  Fate-opened :
      merge_conn_string_options url s.group.value s.group.sql_driver.options ≡ ok dsn
      → (i : ℕ) → i < suc s.next_conn
      → Fate url opened todo i
  unfolding new_managed_conn
  Fate-opened e i h = elim (ℕ-cases s.next_conn i) [
    | inl p ↦
        inl
          (ground arith, ground arith, inl (In-append_right i s.group.conns _ (inl (ground arith))))
    | inr n ↦
        ground (arith, v.fate i (omega arith), In-append_left i s.group.conns (s.next_conn ∷ []))
  ]

  Tracked-opened : (i : ℕ) → i < suc s.next_conn → Tracked opened todo i
  unfolding new_managed_conn
  Tracked-opened i h = elim (ℕ-cases s.next_conn i) [
    | inl p ↦ inl (In-append_right i s.group.conns _ (inl (ground arith)))
    | inr n ↦
        ground (arith, v.tracked i (omega arith), In-append_left i s.group.conns (s.next_conn ∷ []))
  ]

  Inv-opened :
      merge_conn_string_options url s.group.value s.group.sql_driver.options ≡ ok dsn
      → Inv url opened todo
  unfolding new_managed_conn
  Inv-opened e = record {
    cancels_ctx = v.cancels_ctx;
    ctx_lt = v.ctx_lt;
    prev_lt = v.prev_lt;
    todo_lt = v.todo_lt;
    live = v.live;
    conn_lt = λ i h. ground (arith, v.conn_lt i);
    fate = Fate-opened e;
    tracked = Tracked-opened;
    forced_ctx = v.forced_ctx;
    forced_conns = λ f i p. elim (ℕ-cases s.next_conn i) [
      | inl e ↦ absurd (omega (arith, v.prev_listed i p))
      | inr n ↦ ground (arith, v.forced_conns f i p)
    ];
    prev_listed = λ i p. omega (arith, v.prev_listed i p);
    listed = λ i h. elim (In-append_cases i s.group.conns _ h) [
      | inl k ↦ omega (arith, v.listed i k)
      | inr k ↦ ground arith
    ];
    listed_ctx = λ i h. elim (In-append_cases i s.group.conns _ h) [
      | inl k ↦ ground (arith, v.listed_ctx i k)
      | inr k ↦ ground arith
    ];
  }

pub Inv-open_conn :
    (url : UrlLib) (s : State) (redacted : String) (todo : List Action)
    → Inv url s todo
    → Inv url (open_conn url s redacted).0 todo
unfolding open_conn
Inv-open_conn url s redacted todo v =
    elim (Result-cases (merge_conn_string_options url s.group.value s.group.sql_driver.options)) [
      | inr (e, p) ↦ rw (p, open_conn) v
      | inl (dsn, p) ↦ elim (Result-cases (ask s (open_call dsn)).1) [
        | inr (e, q) ↦ rw (p, q, open_conn) (Inv-Evolves url s _ todo (log-Evolves s _) v)
        | inl (conn, q) ↦ rw (p, q, open_conn) (Inv-opened url s todo v dsn redacted conn p)
      ]
    ]
