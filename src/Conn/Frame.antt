-- ===== src/Conn/Frame.antt =====
-- Every method of managedConn keeps the frame of Conn/Evolves.
use hotload.Prelude.{ℕ, String, true, List, arith}
use hotload.State.{
  reset_session_call, user_context, group_context, exec_context_call, exec_call, query_context_call,
  query_call, State, Context, NamedValue, DriverCall,
}
use hotload.Conn.{
  named_args, log, set_reset, is_valid, reset_session, prepare, check_named_value, exec,
  exec_context, query, query_context, inc_exec_stmts_counter, inc_query_stmts_counter,
  reset_exec_stmts_counter, reset_query_stmts_counter,
}
use hotload.Conn.Evolves.{
  Evolves, Evolves-refl, if-Evolves, log_after, log-Evolves, write-Evolves, close_conn-Evolves,
}

pub set_reset-Evolves : (s : State) (c : ℕ) → Evolves s (set_reset s c true)
unfolding set_reset
set_reset-Evolves s c = write-Evolves s c _ (ground arith)

pub inc_exec_stmts_counter-Evolves : (s : State) (c : ℕ) → Evolves s (inc_exec_stmts_counter s c)
unfolding inc_exec_stmts_counter
inc_exec_stmts_counter-Evolves s c = write-Evolves s c _ (ground arith)

pub inc_query_stmts_counter-Evolves : (s : State) (c : ℕ) → Evolves s (inc_query_stmts_counter s c)
unfolding inc_query_stmts_counter
inc_query_stmts_counter-Evolves s c = write-Evolves s c _ (ground arith)

pub reset_exec_stmts_counter-Evolves :
    (s : State) (c : ℕ) → Evolves s (reset_exec_stmts_counter s c)
unfolding reset_exec_stmts_counter
reset_exec_stmts_counter-Evolves s c = write-Evolves s c _ (ground arith)

pub reset_query_stmts_counter-Evolves :
    (s : State) (c : ℕ) → Evolves s (reset_query_stmts_counter s c)
unfolding reset_query_stmts_counter
reset_query_stmts_counter-Evolves s c = write-Evolves s c _ (ground arith)

pub is_valid-Evolves : (s : State) (c : ℕ) → Evolves s (is_valid s c).0
unfolding is_valid
is_valid-Evolves s c = ground (arith, close_conn-Evolves s c, log-Evolves s _, Evolves-refl s)

pub reset_session-Evolves : (s : State) (c : ℕ) (x : Context) → Evolves s (reset_session s c x).0
unfolding reset_session
reset_session-Evolves s c x =
    ground (
      arith,
      Evolves-refl s,
      log-Evolves s (reset_session_call (s.heap c).conn (user_context x.id)),
    )

pub prepare-Evolves : (s : State) (c : ℕ) (q : String) → Evolves s (prepare s c q).0
unfolding prepare
prepare-Evolves s c q = if-Evolves s _ _ _ (close_conn-Evolves s c) (log-Evolves s _)

pub check_named_value-Evolves :
    (s : State) (c : ℕ) (v : NamedValue) → Evolves s (check_named_value s c v).0
unfolding check_named_value
check_named_value-Evolves s c v = if-Evolves s _ _ _ (log-Evolves s _) (Evolves-refl s)

counted_exec : (s : State) (c : ℕ) (k : DriverCall) → Evolves s (log (inc_exec_stmts_counter s c) k)
counted_exec s c k = log_after s _ k (inc_exec_stmts_counter-Evolves s c)

counted_query :
    (s : State) (c : ℕ) (k : DriverCall) → Evolves s (log (inc_query_stmts_counter s c) k)
counted_query s c k = log_after s _ k (inc_query_stmts_counter-Evolves s c)

pub exec-Evolves : (s : State) (c : ℕ) (q : String) (args : List ℕ) → Evolves s (exec s c q args).0
unfolding exec
exec-Evolves s c q args = ground (
  arith,
  Evolves-refl s,
  counted_exec s c
      (exec_context_call (s.heap c).conn (group_context (s.heap c).ctx) q (named_args args)),
  counted_exec s c (exec_call (s.heap c).conn q args),
)

pub exec_context-Evolves :
    (s : State) (c : ℕ) (x : Context) (q : String) (args : List NamedValue)
    → Evolves s (exec_context s c x q args).0
unfolding exec_context
exec_context-Evolves s c x q args = if-Evolves s _ _ _ (counted_exec s c _) (Evolves-refl s)

pub query-Evolves :
    (s : State) (c : ℕ) (q : String) (args : List ℕ) → Evolves s (query s c q args).0
unfolding query
query-Evolves s c q args = ground (
  arith,
  Evolves-refl s,
  counted_query s c
      (query_context_call (s.heap c).conn (group_context (s.heap c).ctx) q (named_args args)),
  counted_query s c (query_call (s.heap c).conn q args),
)

pub query_context-Evolves :
    (s : State) (c : ℕ) (x : Context) (q : String) (args : List NamedValue)
    → Evolves s (query_context s c x q args).0
unfolding query_context
query_context-Evolves s c x q args = if-Evolves s _ _ _ (counted_query s c _) (Evolves-refl s)
