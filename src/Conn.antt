-- ===== src/Conn.antt =====
-- conn.go: managedConn. A method takes the connection's number in the heap and returns the
-- new state and its result. `logf` only writes a log and is left out.
pub mod Evolves
pub mod Frame
use hotload.Prelude.{
  ℕ, ◌+◌, ◌%◌, ◌^◌, suc, zero, String, Bool, true, false, ◌||◌, Option, none, some, List, [], ◌∷◌,
  ◌==◌, if◌then◌else◌, update,
}
use hotload.State.{
  State, ManagedConn, Context, CallContext, group_context, user_context, merged, NamedValue,
  TxOptions, Interface, conn_begin_tx, execer_context, execer, named_value_checker, queryer_context,
  queryer, validator, session_resetter, DriverCall, close_call, begin_call, begin_tx_call,
  is_valid_call, commit_call, rollback_call, exec_context_call, query_context_call, exec_call,
  query_call, prepare_call, check_named_value_call, reset_session_call, Error, bad_conn, skip,
  no_isolation_level, no_read_only, Result, ok, err, SqlDriver,
}

abbrev pub driver_of : State → SqlDriver
driver_of s = s.group.sql_driver.driver

-- A type assertion on the underlying connection.
abbrev pub has : State → ℕ → Interface → Bool
has s c i = (driver_of s).implements (s.heap c).conn i

abbrev pub write : State → ℕ → ManagedConn → State
write s c m = record s { heap = update s.heap c m }

-- A call of the driver that answers with a value or an error, with an error only, or with a Bool.
abbrev pub log : State → DriverCall → State
log s k = record s { calls = k ∷ s.calls }

abbrev pub ask : State → DriverCall → State × Result ℕ
ask s k = (log s k, (driver_of s).answer s.calls k)

abbrev pub attempt : State → DriverCall → State × Option Error
attempt s k = (log s k, (driver_of s).failure s.calls k)

-- `<-c.ctx.Done()` is ready: the context or its parent is cancelled.
abbrev pub is_done : State → ℕ → Bool
is_done s x = s.parent_done || s.canceled x

-- `append(cg.conns[:i], cg.conns[i+1:]...)` at the first occurrence.
unfoldable pub remove : ℕ → List ℕ → List ℕ
remove c [] = []
remove c (x ∷ xs) = if x == c then xs else x ∷ remove c xs

unfoldable pub remove_mgd_conn : State → ℕ → State
remove_mgd_conn s c = record s { group = record (s.group) { conns = remove c s.group.conns } }

-- `close`: the underlying Close, then the deferred callback.
unfoldable pub close_conn : State → ℕ → State × Option Error
unfolding remove_mgd_conn
close_conn s c =
    let (s', e) = attempt s (close_call (s.heap c).conn) in
    (if (s.heap c).after_close then remove_mgd_conn s' c else s', e)

-- `Close`
unfoldable pub close : State → ℕ → State × Option Error
unfolding close_conn
close s c =
    let (s', e) = close_conn s c in
    elim e [
      | none ↦ (write s' c (record (s'.heap c) { killed = true }), none)
      | some x ↦ (s', some x)
    ]

unfoldable pub set_reset : State → ℕ → Bool → State
set_reset s c v = write s c (record (s.heap c) { reset = v })

unfoldable pub get_reset : State → ℕ → Bool
get_reset s c = (s.heap c).reset

unfoldable pub get_kill : State → ℕ → Bool
get_kill s c = (s.heap c).killed

unfoldable pub is_valid : State → ℕ → State × Bool
unfolding close_conn
is_valid s c =
    if is_done s (s.heap c).ctx
    then ((close_conn s c).0, false)
    else if has s c validator
    then (
      log s (is_valid_call (s.heap c).conn),
      (driver_of s).verdict s.calls (is_valid_call (s.heap c).conn),
    )
    else (s, true)

unfoldable pub reset_session : State → ℕ → Context → State × Option Error
unfolding get_reset
reset_session s c ctx =
    if get_reset s c
    then (s, some bad_conn)
    else if has s c session_resetter
    then attempt s (reset_session_call (s.heap c).conn (user_context ctx.id))
    else (s, none)

unfoldable pub prepare : State → ℕ → String → State × Result ℕ
unfolding close_conn
prepare s c query =
    if is_done s (s.heap c).ctx
    then ((close_conn s c).0, err bad_conn)
    else ask s (prepare_call (s.heap c).conn query)

unfoldable pub check_named_value : State → ℕ → NamedValue → State × Option Error
check_named_value s c v =
    if has s c named_value_checker
    then attempt s (check_named_value_call (s.heap c).conn v)
    else (s, some skip)

-- The counters are int64 values, kept as bit patterns.
abbrev pub word : ℕ
word = 2 ^ 64

unfoldable pub inc_exec_stmts_counter : State → ℕ → State
inc_exec_stmts_counter s c =
    write s c
      (record (s.heap c) { exec_stmts_counter = ((s.heap c).exec_stmts_counter + 1) % word })

unfoldable pub inc_query_stmts_counter : State → ℕ → State
inc_query_stmts_counter s c =
    write s c
      (record (s.heap c) { query_stmts_counter = ((s.heap c).query_stmts_counter + 1) % word })

unfoldable pub reset_exec_stmts_counter : State → ℕ → State
reset_exec_stmts_counter s c = write s c (record (s.heap c) { exec_stmts_counter = 0 })

unfoldable pub reset_query_stmts_counter : State → ℕ → State
reset_query_stmts_counter s c = write s c (record (s.heap c) { query_stmts_counter = 0 })

-- The loop that wraps the arguments, from index `i`.
unfoldable pub named_args_from : ℕ → List ℕ → List NamedValue
named_args_from i [] = []
named_args_from i (a ∷ args) =
    record { name = ""; ordinal = i; value = a } ∷ named_args_from (i + 1) args

abbrev pub named_args : List ℕ → List NamedValue
named_args = named_args_from 0

unfoldable pub exec : State → ℕ → String → List ℕ → State × Result ℕ
unfolding inc_exec_stmts_counter
exec s c query args =
    if has s c execer_context
    then ask (inc_exec_stmts_counter s c)
        (exec_context_call (s.heap c).conn (group_context (s.heap c).ctx) query (named_args args))
    else if has s c execer
    then ask (inc_exec_stmts_counter s c) (exec_call (s.heap c).conn query args)
    else (s, err skip)

unfoldable pub exec_context : State → ℕ → Context → String → List NamedValue → State × Result ℕ
unfolding inc_exec_stmts_counter
exec_context s c ctx query args =
    if has s c execer_context
    then ask (inc_exec_stmts_counter s c)
        (exec_context_call (s.heap c).conn (merged (s.heap c).ctx ctx.id) query args)
    else (s, err skip)

unfoldable pub query : State → ℕ → String → List ℕ → State × Result ℕ
unfolding inc_query_stmts_counter
query s c text args =
    if has s c queryer_context
    then ask (inc_query_stmts_counter s c)
        (query_context_call (s.heap c).conn (group_context (s.heap c).ctx) text (named_args args))
    else if has s c queryer
    then ask (inc_query_stmts_counter s c) (query_call (s.heap c).conn text args)
    else (s, err skip)

unfoldable pub query_context : State → ℕ → Context → String → List NamedValue → State × Result ℕ
unfolding inc_query_stmts_counter
query_context s c ctx text args =
    if has s c queryer_context
    then ask (inc_query_stmts_counter s c)
        (query_context_call (s.heap c).conn (merged (s.heap c).ctx ctx.id) text args)
    else (s, err skip)
