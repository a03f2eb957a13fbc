-- ===== src/Transaction.antt =====
-- conn.go (Begin, BeginTx) and transaction.go: transactions and what they report.
mod Tests
pub mod Frame
pub mod Opening
pub mod Counting
pub mod Lifetime
use hotload.Prelude.{
  ℕ, String, Bool, Option, none, some, List, [], ◌∷◌, ◌==◌, if◌then◌else◌, lookup, not,
}
use hotload.State.{
  State, Context, user_context, TxOptions, conn_begin_tx, begin_call, begin_tx_call, commit_call,
  rollback_call, Error, bad_conn, no_isolation_level, no_read_only, Result, ok, err, Sample,
  LabelValue, absent, other_type, labels,
}
use hotload.Conn.{
  has, ask, attempt, is_done, close_conn, reset_exec_stmts_counter, reset_query_stmts_counter,
}

pub record ManagedTx : Type 0 where
  pub tx : ℕ
  pub conn : ℕ
  pub ctx : Context

-- The driver.Tx that BeginTx returns: a managedTx, or the underlying one as it is.
pub data Tx : Type 0 where
  managed : ManagedTx → Tx
  raw : ℕ → Tx

unfoldable pub begin : State → ℕ → State × Result ℕ
unfolding close_conn
begin s c =
    if is_done s (s.heap c).ctx
    then ((close_conn s c).0, err bad_conn)
    else ask s (begin_call (s.heap c).conn)

-- The part of BeginTx for a driver with ConnBeginTx.
unfoldable pub begin_managed : State → ℕ → Context → TxOptions → State × Result Tx
begin_managed s c ctx opts =
    let (s', r) = ask s (begin_tx_call (s.heap c).conn (user_context ctx.id) opts) in
    elim r [
      | ok tx ↦ (s', ok (managed (record { tx = tx; conn = c; ctx = ctx })))
      | err e ↦ (s', err e)
    ]

-- After a Begin: a caller's context that is done rolls the transaction back.
unfoldable pub settle_begin : State → Context → Result ℕ → State × Result Tx
settle_begin s ctx (err e) = (s, err e)
settle_begin s ctx (ok tx) = elim ctx.done [
  | some e ↦ ((attempt s (rollback_call tx)).0, err e)
  | none ↦ (s, ok (raw tx))
]

-- sql.LevelDefault is 0.
unfoldable pub begin_tx : State → ℕ → Context → TxOptions → State × Result Tx
unfolding close_conn
begin_tx s c ctx opts =
    if is_done s (s.heap c).ctx
    then ((close_conn s c).0, err bad_conn)
    else if has s c conn_begin_tx
    then begin_managed s c ctx opts
    else if not (opts.isolation == 0)
    then (s, err no_isolation_level)
    else if opts.read_only
    then (s, err no_read_only)
    else let (s', r) = ask s (begin_call (s.heap c).conn) in settle_begin s' ctx r

-- A nil map of labels is `none`.
unfoldable pub context_with_exec_labels : Context → Option (List (String × String)) → Context
context_with_exec_labels ctx none = ctx
context_with_exec_labels ctx (some m) = record ctx { label_value = labels m }

-- The type switch on the value under promLabelKey.
unfoldable pub label_map : LabelValue → Option (List (String × String))
label_map absent = none
label_map other_type = none
label_map (labels m) = some m

-- A nil context is `none`.
unfoldable pub get_exec_labels_from_context : Option Context → Option (List (String × String))
unfolding label_map
get_exec_labels_from_context none = none
get_exec_labels_from_context (some ctx) = label_map ctx.label_value

-- Reading a missing key, or a nil map, gives the empty string.
unfoldable pub label : String → Option (List (String × String)) → String
unfolding lookup
label k none = ""
label k (some m) = elim (lookup k m) [ none ↦ "" | some v ↦ v ]

-- A sample holds the int64 of its counter; as a float64 it is the same number below 2^53.
unfoldable pub observe_sql_stmts_summary : State → Context → ℕ → ℕ → State
unfolding label get_exec_labels_from_context
observe_sql_stmts_summary s ctx execs queries =
    let found = get_exec_labels_from_context (some ctx) in
    let service = label "grpc_service" found in
    let method = label "grpc_method" found in
    record s {
      samples =
          record { service = service; method = method; stmt = "query"; count = queries }
          ∷ record { service = service; method = method; stmt = "exec"; count = execs }
          ∷ s.samples;
    }

unfoldable pub cleanup : State → ManagedTx → State
unfolding observe_sql_stmts_summary reset_exec_stmts_counter reset_query_stmts_counter
cleanup s t =
    let observed =
      observe_sql_stmts_summary s t.ctx (s.heap t.conn).exec_stmts_counter
        (s.heap t.conn).query_stmts_counter in
    reset_query_stmts_counter (reset_exec_stmts_counter observed t.conn) t.conn

unfoldable pub commit : State → ManagedTx → State × Option Error
unfolding cleanup
commit s t = let (s', e) = attempt s (commit_call t.tx) in (cleanup s' t, e)

unfoldable pub rollback : State → ManagedTx → State × Option Error
unfolding cleanup
rollback s t = let (s', e) = attempt s (rollback_call t.tx) in (cleanup s' t, e)
