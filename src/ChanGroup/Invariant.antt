-- ===== src/ChanGroup/Invariant.antt =====
-- The invariant of a group: what becomes of every connection that it ever opened.
use hotload.Prelude.{ℕ, ◌<◌, ◌≡◌, true, false, ◌⊎◌, inl, inr, some, List, ◌∷◌, In, arith}
use hotload.State.{State, ok}
use hotload.Conn.Evolves.{Evolves, Closed, Closed-Evolves}
use hotload.Dsn.{UrlLib, merge_conn_string_options}
use hotload.ChanGroup.Steps.{Action, cancel_context, reset_conn, close_conn}

-- The context is cancelled, or about to be.
abbrev pub Stopped : State → List Action → ℕ → Type 0
Stopped s todo x = (s.canceled x ≡ true) ⊎ In (cancel_context x) todo

abbrev pub Shut : State → List Action → ℕ → Type 0
Shut s todo i = Closed s i ⊎ In (close_conn i) todo

-- The connection has the group's present connection string, and is listed unless closed.
abbrev pub Current : UrlLib → State → ℕ → Type 0
Current url s i =
    ((s.heap i).ctx ≡ s.group.ctx)
    × (merge_conn_string_options url s.group.value s.group.sql_driver.options ≡ ok (s.heap i).dsn)
    × (In i s.group.conns ⊎ Closed s i)

-- The connection is one change old, and is closed or marked for database/sql to drop.
abbrev pub Previous : State → List Action → ℕ → Type 0
Previous s todo i =
    (s.group.prev_cancel ≡ some (s.heap i).ctx)
    × (Closed s i ⊎ ((s.heap i).reset ≡ true) ⊎ In (reset_conn i) todo)

abbrev pub Fate : UrlLib → State → List Action → ℕ → Type 0
Fate url s todo i = Current url s i ⊎ (Previous s todo i ⊎ Stopped s todo (s.heap i).ctx)

abbrev pub Tracked : State → List Action → ℕ → Type 0
Tracked s todo i = In i s.group.conns ⊎ (In i s.group.prev_conns ⊎ Shut s todo i)

pub record Inv (url : UrlLib) (s : State) (todo : List Action) : Type 0 where
  pub cancels_ctx : s.group.cancel ≡ some s.group.ctx
  pub ctx_lt : s.group.ctx < s.next_ctx
  pub prev_lt : (x : ℕ) → s.group.prev_cancel ≡ some x → x < s.group.ctx
  pub todo_lt : (x : ℕ) → In (cancel_context x) todo → x < s.group.ctx
  pub live : s.parent_done ≡ false → s.canceled s.group.ctx ≡ false
  pub conn_lt : (i : ℕ) → i < s.next_conn → (s.heap i).ctx < s.next_ctx
  pub fate : (i : ℕ) → i < s.next_conn → Fate url s todo i
  pub tracked : (i : ℕ) → i < s.next_conn → Tracked s todo i
  -- with forceKill the previous context and connections go at once
  pub forced_ctx :
      s.group.force_kill ≡ true → (x : ℕ) → s.group.prev_cancel ≡ some x → Stopped s todo x
  pub forced_conns : s.group.force_kill ≡ true → (i : ℕ) → In i s.group.prev_conns → Shut s todo i
  pub listed : (i : ℕ) → In i s.group.conns → i < s.next_conn
  pub prev_listed : (i : ℕ) → In i s.group.prev_conns → i < s.next_conn
  pub listed_ctx : (i : ℕ) → In i s.group.conns → (s.heap i).ctx ≡ s.group.ctx

module _ (url : UrlLib) (s t : State) (todo : List Action) (e : Evolves s t) where
  Fate-Evolves : (i : ℕ) → Fate url s todo i → Fate url t todo i
  Fate-Evolves i f = ground (arith, e.same i, e.kept i, Closed-Evolves s t i e)

  Tracked-Evolves : (i : ℕ) → Tracked s todo i → Tracked t todo i
  Tracked-Evolves i f = ground (arith, e.kept i, Closed-Evolves s t i e)

  pub Inv-Evolves : Inv url s todo → Inv url t todo
  Inv-Evolves v = record {
    cancels_ctx = ground arith;
    ctx_lt = ground arith;
    prev_lt = λ x h. ground (arith, v.prev_lt x);
    todo_lt = λ x h. ground (arith, v.todo_lt x);
    live = λ h. ground arith;
    conn_lt = λ i h. ground (arith, v.conn_lt i, e.same i);
    fate = λ i h. Fate-Evolves i (v.fate i (ground arith));
    tracked = λ i h. Tracked-Evolves i (v.tracked i (ground arith));
    forced_ctx = λ h x p. ground (arith, v.forced_ctx (ground arith) x);
    forced_conns = λ h i p. ground (arith, v.forced_conns (ground arith) i, Closed-Evolves s t i e);
    listed = λ i h. ground (arith, v.listed i, e.shrinks i h);
    prev_listed = λ i h. ground (arith, v.prev_listed i);
    listed_ctx = λ i h. ground (arith, v.listed_ctx i, e.shrinks i h, e.same i);
  }

abbrev pub Done : State → Action → Type 0
Done s (cancel_context x) = s.canceled x ≡ true
Done s (reset_conn c) = (s.heap c).reset ≡ true
Done s (close_conn c) = Closed s c

module _ (url : UrlLib) (s : State) (todo : List Action) where
  Stopped-drop : (a : Action) (x : ℕ) → Done s a → Stopped s (a ∷ todo) x → Stopped s todo x
  Stopped-drop (cancel_context y) x d h = ground arith
  Stopped-drop (reset_conn y) x d h = ground arith
  Stopped-drop (close_conn y) x d h = ground arith

  Shut-drop : (a : Action) (i : ℕ) → Done s a → Shut s (a ∷ todo) i → Shut s todo i
  Shut-drop (cancel_context y) i d h = ground arith
  Shut-drop (reset_conn y) i d h = ground arith
  Shut-drop (close_conn y) i d h = ground arith

  Previous-drop : (a : Action) (i : ℕ) → Done s a → Previous s (a ∷ todo) i → Previous s todo i
  Previous-drop (cancel_context y) i d h = ground arith
  Previous-drop (reset_conn y) i d h = ground arith
  Previous-drop (close_conn y) i d h = ground arith

  Fate-drop : (a : Action) (i : ℕ) → Done s a → Fate url s (a ∷ todo) i → Fate url s todo i
  Fate-drop a i d (inl h) = inl h
  Fate-drop a i d (inr (inl h)) = inr (inl (Previous-drop a i d h))
  Fate-drop a i d (inr (inr h)) = inr (inr (Stopped-drop a _ d h))

  Tracked-drop : (a : Action) (i : ℕ) → Done s a → Tracked s (a ∷ todo) i → Tracked s todo i
  Tracked-drop a i d (inl h) = inl h
  Tracked-drop a i d (inr (inl h)) = inr (inl h)
  Tracked-drop a i d (inr (inr h)) = inr (inr (Shut-drop a i d h))

  -- An action that has been done is no longer needed.
  pub Inv-drop : (a : Action) → Done s a → Inv url s (a ∷ todo) → Inv url s todo
  Inv-drop a d v = record {
    cancels_ctx = v.cancels_ctx;
    ctx_lt = v.ctx_lt;
    prev_lt = v.prev_lt;
    todo_lt = λ x h. v.todo_lt x (inr h);
    live = v.live;
    conn_lt = v.conn_lt;
    fate = λ i h. Fate-drop a i d (v.fate i h);
    tracked = λ i h. Tracked-drop a i d (v.tracked i h);
    forced_ctx = λ h x p. Stopped-drop a x d (v.forced_ctx h x p);
    forced_conns = λ h i p. Shut-drop a i d (v.forced_conns h i p);
    listed = v.listed;
    prev_listed = v.prev_listed;
    listed_ctx = v.listed_ctx;
  }
