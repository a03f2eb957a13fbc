-- ===== src/State.antt =====
-- driver.go, conn.go and transaction.go: the data that the handlers share.
-- Pointers are numbers: a `*managedConn` indexes `heap`, a context of the group indexes
-- `canceled`, and an underlying `driver.Conn` or `driver.Tx` is the number that the driver
-- answered with.
use hotload.Prelude.{ℕ, String, Bool, Option, List, ◌≡◌, refl, ◌⊎◌, inl, inr}

pub data Error : Type 0 where
  -- driver.ErrBadConn and driver.ErrSkip
  bad_conn skip : Error
  -- the errors.New values of BeginTx
  no_isolation_level no_read_only : Error
  -- ErrUnsupportedStrategy, ErrUnknownDriver, and an error of net/url
  unsupported_strategy unknown_driver malformed_url : Error
  -- the fmt.Errorf values of mergeConnStringOptions, with the text of an error of net/url
  unparsable_conn_string unparsable_query : Error → Error
  -- whatever a driver, a strategy or a context reports
  reported : ℕ → Error

pub data Result {ℓ} (A : Type ℓ) : Type ℓ where
  ok : A → Result A
  err : Error → Result A

-- What a context holds under promLabelKey: no value, a value of another type, or labels.
pub data LabelValue : Type 0 where
  absent other_type : LabelValue
  labels : List (String × String) → LabelValue

-- A caller's context: the error that `Err` reports once it is done, and its labels.
pub record Context : Type 0 where
  pub id : ℕ
  pub done : Option Error
  pub label_value : LabelValue

-- The context that a call of the driver is given.
pub data CallContext : Type 0 where
  group_context : ℕ → CallContext
  user_context : ℕ → CallContext
  -- onecontext.Merge of a group's context and a caller's
  merged : ℕ → ℕ → CallContext

pub record NamedValue : Type 0 where
  pub name : String
  pub ordinal : ℕ
  pub value : ℕ

pub record TxOptions : Type 0 where
  pub isolation : ℕ
  pub read_only : Bool

-- The optional interfaces of database/sql/driver that conn.go asks for.
pub data Interface : Type 0 where
  conn_begin_tx execer_context execer named_value_checker queryer_context : Interface
  queryer validator session_resetter : Interface

-- A call of the underlying driver, the number is the connection (or transaction).
pub data DriverCall : Type 0 where
  open_call : String → DriverCall
  close_call begin_call is_valid_call commit_call rollback_call : ℕ → DriverCall
  begin_tx_call : ℕ → CallContext → TxOptions → DriverCall
  exec_context_call query_context_call : ℕ → CallContext → String → List NamedValue → DriverCall
  exec_call query_call : ℕ → String → List ℕ → DriverCall
  prepare_call : ℕ → String → DriverCall
  check_named_value_call : ℕ → NamedValue → DriverCall
  reset_session_call : ℕ → CallContext → DriverCall

-- The underlying driver: any answers, each a function of the calls so far and of the call.
pub record SqlDriver : Type 0 where
  pub implements : ℕ → Interface → Bool
  pub answer : List DriverCall → DriverCall → Result ℕ
  pub failure : List DriverCall → DriverCall → Option Error
  pub verdict : List DriverCall → DriverCall → Bool

pub record DriverInstance : Type 0 where
  pub driver : SqlDriver
  pub options : List (String × String)

-- The mutex is held for the whole of each operation that takes it, and has no field.
pub record ManagedConn : Type 0 where
  pub ctx : ℕ
  pub dsn : String
  pub redact_dsn : String
  pub conn : ℕ
  pub reset : Bool
  pub killed : Bool
  -- whether the callback is set; it is the group's removeMgdConn
  pub after_close : Bool
  pub exec_stmts_counter : ℕ
  pub query_stmts_counter : ℕ

-- A cancel function is the context that it cancels, `none` is nil.
pub record ChanGroup : Type 0 where
  pub name : String
  pub value : String
  pub redact_val : String
  pub ctx : ℕ
  pub cancel : Option ℕ
  pub sql_driver : DriverInstance
  pub force_kill : Bool
  pub conns : List ℕ
  pub prev_cancel : Option ℕ
  pub prev_redact_val : String
  pub prev_conns : List ℕ

-- metrics.SqlStmtsSummary: one sample under its labels.
pub record Sample : Type 0 where
  pub service : String
  pub method : String
  pub stmt : String
  pub count : ℕ

-- A group with all that its handlers read and write. `calls` is newest first.
pub record State : Type 0 where
  pub group : ChanGroup
  pub heap : ℕ → ManagedConn
  pub next_conn : ℕ
  pub canceled : ℕ → Bool
  pub next_ctx : ℕ
  pub parent_done : Bool
  pub calls : List DriverCall
  -- hotload_change_total and hotload_last_changed_timestamp_seconds of the group
  pub change_total : ℕ
  pub last_changed : ℕ
  pub samples : List Sample

pub Result-cases {ℓ} :
    {A : Type ℓ} (r : Result A) → ((a : A) × (r ≡ ok a)) ⊎ ((e : Error) × (r ≡ err e))
Result-cases (ok a) = inl (a, refl)
Result-cases (err e) = inr (e, refl)
