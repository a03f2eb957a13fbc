-- ===== src/ChanGroup/Reachable.antt =====
-- The invariant after any interleaving of runLoop with the group's clients.
use hotload.Prelude.{
  ℕ, ◌≡◌, refl, String, true, false, inl, inr, List, [], ◌∷◌, arith, str_eq, Bool-cases, ltb, subst,
  List-cases, Bool,
}
use hotload.State.{State}
use hotload.Conn.Evolves.{Evolves, Evolves-refl, close-Evolves}
use hotload.Conn.Frame.{
  is_valid-Evolves, reset_session-Evolves, prepare-Evolves, check_named_value-Evolves, exec-Evolves,
  exec_context-Evolves, query-Evolves, query_context-Evolves,
}
use hotload.Transaction.Frame.{begin-Evolves, begin_tx-Evolves, commit-Evolves, rollback-Evolves}
use hotload.Dsn.{UrlLib}
use hotload.ChanGroup.{update_metrics}
use hotload.ChanGroup.Steps.{
  Action, Running, Method, Move, closes, validates, begins, resets_session, prepares,
  checks_named_value, execs, queries, execs_context, queries_context, begins_tx, receives, acts,
  parent_ends, sees_parent, sees_closed, opens, calls_method, commits, rolls_back, call_method,
  receive, act, see_parent, on_conn, when_idle, step, run,
}
use hotload.ChanGroup.Invariant.{Inv, Inv-Evolves}
use hotload.ChanGroup.Change.{Inv-switched, critical_section-changed, critical_section-same}
use hotload.ChanGroup.Preservation.{Inv-perform, Inv-cancel, Inv-open_conn}

call_method-Evolves : (s : State) (c : ℕ) (m : Method) → Evolves s (call_method s c m)
unfolding call_method
call_method-Evolves s c closes = close-Evolves s c
call_method-Evolves s c validates = is_valid-Evolves s c
call_method-Evolves s c begins = begin-Evolves s c
call_method-Evolves s c (resets_session x) = reset_session-Evolves s c x
call_method-Evolves s c (prepares q) = prepare-Evolves s c q
call_method-Evolves s c (checks_named_value v) = check_named_value-Evolves s c v
call_method-Evolves s c (execs q args) = exec-Evolves s c q args
call_method-Evolves s c (queries q args) = query-Evolves s c q args
call_method-Evolves s c (execs_context x q args) = exec_context-Evolves s c x q args
call_method-Evolves s c (queries_context x q args) = query_context-Evolves s c x q args
call_method-Evolves s c (begins_tx x o) = begin_tx-Evolves s c x o

abbrev pub IsSound : UrlLib → Running → Type 0
IsSound url r = Inv url r.state r.pending

metrics-Evolves : (s : State) (now : ℕ) → Evolves s (update_metrics s now)
unfolding update_metrics
metrics-Evolves s now = record {
  group_eq = refl;
  next_conn_eq = refl;
  next_ctx_eq = refl;
  canceled_eq = refl;
  parent_eq = refl;
  same = (Evolves-refl s).same;
  grows = λ j h. h;
  kept = λ i h. inl h;
  shrinks = λ i h. h;
}

module _ (url : UrlLib) where
  receive-IsSound :
      (r : Running) (v redacted : String) (now : ℕ)
      → r.pending ≡ []
      → IsSound url r
      → IsSound url (receive r v redacted now)
  unfolding receive
  receive-IsSound r v redacted now e i = elim (Bool-cases (str_eq v r.state.group.value)) [
    | inl same ↦ rw (critical_section-same r.state v redacted same) i
    | inr new ↦ rw (critical_section-changed r.state v redacted new) (
        Inv-Evolves url _ _ _ (metrics-Evolves _ now)
          (Inv-switched url r.state v redacted (subst (λ p. Inv url r.state p) e i)))
  ]

  act-IsSound : (r : Running) → IsSound url r → IsSound url (act r)
  unfolding act
  act-IsSound r i = elim (List-cases r.pending) [
    | inl e ↦ rw (e, act) i
    | inr (a, rest, e) ↦
        rw (e, act) (Inv-perform url r.state a rest (subst (λ p. Inv url r.state p) e i))
  ]

  see_parent-IsSound : (r : Running) → IsSound url r → IsSound url (see_parent r)
  unfolding see_parent
  see_parent-IsSound r i = elim (Bool-cases r.state.parent_done) [
    | inl e ↦
        simp (e, i.cancels_ctx)
          (Inv-cancel url r.state r.pending r.state.group.ctx i (λ f. ground arith))
    | inr e ↦ simp e i
  ]

  when_idle-IsSound :
      (todo : List Action) (looping : Bool) (r after : Running)
      → (todo ≡ [] → IsSound url after)
      → IsSound url r
      → IsSound url (when_idle todo looping r after)
  when_idle-IsSound [] true r after h i = h refl
  when_idle-IsSound [] false r after h i = i
  when_idle-IsSound (a ∷ todo) looping r after h i = i

  on_conn-IsSound :
      (r : Running) (c : ℕ) (s : State)
      → Evolves r.state s
      → IsSound url r
      → IsSound url (on_conn r c s)
  unfolding on_conn
  on_conn-IsSound r c s e i = elim (Bool-cases (ltb c r.state.next_conn)) [
    | inl l ↦ rw l (Inv-Evolves url r.state s r.pending e i)
    | inr l ↦ rw l i
  ]

  parent_ends-IsSound :
      (r : Running)
      → IsSound url r
      → IsSound url (record r { state = record (r.state) { parent_done = true } })
  parent_ends-IsSound r i = record {
    cancels_ctx = i.cancels_ctx;
    ctx_lt = i.ctx_lt;
    prev_lt = i.prev_lt;
    todo_lt = i.todo_lt;
    live = λ h. cc;
    conn_lt = i.conn_lt;
    fate = i.fate;
    tracked = i.tracked;
    forced_ctx = i.forced_ctx;
    forced_conns = i.forced_conns;
    listed = i.listed;
    prev_listed = i.prev_listed;
    listed_ctx = i.listed_ctx;
  }

  -- Every move keeps the invariant.
  pub step-IsSound : (r : Running) (m : Move) → IsSound url r → IsSound url (step url r m)
  unfolding step
  step-IsSound r (receives v redacted now) i =
      when_idle-IsSound r.pending r.looping r _ (λ e. receive-IsSound r v redacted now e i) i
  step-IsSound r acts i = act-IsSound r i
  step-IsSound r parent_ends i = parent_ends-IsSound r i
  step-IsSound r sees_parent i =
      when_idle-IsSound r.pending r.looping r _ (λ e. see_parent-IsSound r i) i
  step-IsSound r sees_closed i = when_idle-IsSound r.pending r.looping r _ (λ e. i) i
  step-IsSound r (opens redacted) i = Inv-open_conn url r.state redacted r.pending i
  step-IsSound r (calls_method c m) i = on_conn-IsSound r c _ (call_method-Evolves r.state c m) i
  step-IsSound r (commits t) i = on_conn-IsSound r t.conn _ (commit-Evolves r.state t) i
  step-IsSound r (rolls_back t) i = on_conn-IsSound r t.conn _ (rollback-Evolves r.state t) i

  -- So it holds after every interleaving.
  pub run-IsSound : (r : Running) (ms : List Move) → IsSound url r → IsSound url (run url r ms)
  unfolding run
  run-IsSound r [] i = i
  run-IsSound r (m ∷ ms) i = run-IsSound (step url r m) ms (step-IsSound r m i)
