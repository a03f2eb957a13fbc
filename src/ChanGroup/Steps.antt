-- ===== src/ChanGroup/Steps.antt =====
-- driver.go: the threads that work on a group, interleaved. A move is one stretch between two
-- points where another thread may run: the critical section of processNewValue, each cancel, Reset
-- or Close after it, an Open, or one method of a connection.
use hotload.Prelude.{
  ℕ, String, Bool, true, false, Option, none, some, List, [], ◌∷◌, ◌++◌, map, ltb, if◌then◌else◌,
}
use hotload.State.{State, Context, NamedValue, TxOptions}
use hotload.Conn.{
  close, set_reset, is_valid, reset_session, prepare, check_named_value, exec, exec_context, query,
  query_context,
}
use hotload.Transaction.{ManagedTx, begin, begin_tx, commit, rollback}
use hotload.Dsn.{UrlLib}
use hotload.ChanGroup.{OldInfo, open_conn, call_cancel, critical_section, update_metrics}

-- What runLoop has left to do for a change.
pub data Action : Type 0 where
  cancel_context reset_conn close_conn : ℕ → Action

unfoldable pub perform : State → Action → State
unfolding call_cancel set_reset close
perform s (cancel_context x) = call_cancel s (some x)
perform s (reset_conn c) = set_reset s c true
perform s (close_conn c) = (close s c).0

unfoldable pub perform_all : State → List Action → State
perform_all s [] = s
perform_all s (a ∷ as') = perform_all (perform s a) as'

abbrev pub cancel_action : Option ℕ → List Action
cancel_action none = []
cancel_action (some x) = cancel_context x ∷ []

abbrev pub kill_actions : List ℕ → List Action
kill_actions [] = []
kill_actions (c ∷ cs) = reset_conn c ∷ close_conn c ∷ kill_actions cs

-- The calls after the critical section, in the order of the code.
unfoldable pub actions : Bool → OldInfo → List Action
actions true prev = cancel_action prev.prev_cancel ++ kill_actions prev.prev_conns
actions false prev =
    cancel_action prev.prev_prev_cancel
    ++ (map close_conn prev.prev_prev_conns ++ map reset_conn prev.prev_conns)

-- A method that database/sql calls on a connection.
pub data Method : Type 0 where
  closes validates begins : Method
  resets_session : Context → Method
  prepares : String → Method
  checks_named_value : NamedValue → Method
  execs queries : String → List ℕ → Method
  execs_context queries_context : Context → String → List NamedValue → Method
  begins_tx : Context → TxOptions → Method

unfoldable pub call_method : State → ℕ → Method → State
call_method s c closes = (close s c).0
call_method s c validates = (is_valid s c).0
call_method s c begins = (begin s c).0
call_method s c (resets_session x) = (reset_session s c x).0
call_method s c (prepares q) = (prepare s c q).0
call_method s c (checks_named_value v) = (check_named_value s c v).0
call_method s c (execs q args) = (exec s c q args).0
call_method s c (queries q args) = (query s c q args).0
call_method s c (execs_context x q args) = (exec_context s c x q args).0
call_method s c (queries_context x q args) = (query_context s c x q args).0
call_method s c (begins_tx x o) = (begin_tx s c x o).0

pub record Running : Type 0 where
  pub state : State
  pub pending : List Action
  -- runLoop has not returned
  pub looping : Bool

pub data Move : Type 0 where
  -- runLoop takes a value, its redacted form and the time of the metric
  receives : String → String → ℕ → Move
  -- runLoop goes on with its pending work
  acts : Move
  -- the parent context is cancelled; runLoop sees that, or sees its channel closed
  parent_ends sees_parent sees_closed : Move
  -- a client opens a connection, redacted as given
  opens : String → Move
  calls_method : ℕ → Method → Move
  commits rolls_back : ManagedTx → Move

unfoldable pub receive : Running → String → String → ℕ → Running
receive r v redacted now =
    let (s, prev) = critical_section r.state v redacted in
    if prev.changed_flag
    then record r { state = update_metrics s now; pending = actions s.group.force_kill prev }
    else record r { state = s }

-- The select of runLoop is reached again when nothing is pending.
abbrev pub when_idle : List Action → Bool → Running → Running → Running
when_idle [] true r after = after
when_idle [] false r after = r
when_idle (a ∷ todo) looping r after = r

unfoldable pub act : Running → Running
act r = elim r.pending [ [] ↦ r | a ∷ as' ↦ record r { state = perform r.state a; pending = as' } ]

unfoldable pub see_parent : Running → Running
see_parent r =
    if r.state.parent_done
    then record r { state = call_cancel r.state r.state.group.cancel; looping = false }
    else r

-- A method is called on connections that exist.
unfoldable pub on_conn : Running → ℕ → State → Running
on_conn r c s = if ltb c r.state.next_conn then record r { state = s } else r

unfoldable pub step : UrlLib → Running → Move → Running
unfolding receive act see_parent on_conn call_method
step url r (receives v redacted now) = when_idle r.pending r.looping r (receive r v redacted now)
step url r acts = act r
step url r parent_ends = record r { state = record (r.state) { parent_done = true } }
step url r sees_parent = when_idle r.pending r.looping r (see_parent r)
step url r sees_closed = when_idle r.pending r.looping r (record r { looping = false })
step url r (opens redacted) = record r { state = (open_conn url r.state redacted).0 }
step url r (calls_method c m) = on_conn r c (call_method r.state c m)
step url r (commits t) = on_conn r t.conn (commit r.state t).0
step url r (rolls_back t) = on_conn r t.conn (rollback r.state t).0

unfoldable pub run : UrlLib → Running → List Move → Running
unfolding step
run url r [] = r
run url r (m ∷ ms) = run url (step url r m) ms
