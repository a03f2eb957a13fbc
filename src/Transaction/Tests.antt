-- ===== src/Transaction/Tests.antt =====
-- Transactions on a small driver that has every optional interface.
use hotload.Prelude.{String, ℕ, ◌≡◌, refl, ◌⊎◌, true, false, some, none, List, [], ◌∷◌, ◌-◌, ◌%◌}
use hotload.State.{State, Context, DriverInstance, TxOptions, conn_begin_tx}
use hotload.Conn.{has, is_done, exec, query_context, word}
use hotload.Dsn.{merge_conn_string_options}
use hotload.ChanGroup.{open_conn, new_managed_conn, parse_url_values}
use hotload.HDriver.{new_state, new_chan_group}
use hotload.Transaction.{
  ManagedTx, managed, raw, begin_managed, begin_tx, commit, rollback, context_with_exec_labels,
}
use hotload.Transaction.Opening.{begin_tx-granted}
use hotload.Transaction.Lifetime.{reports, begin_tx-reports}
use hotload.Transaction.Counting.{
  Stmt, runs_exec, runs_query_context, run_stmts, Observes, execs, queries, end-Observes,
}
use hotload.ChanGroup.Tests.{plain_driver, url, caller}

abbrev able : DriverInstance
able = record { driver = record plain_driver { implements = λ c i. true }; options = [] }

abbrev opened : State
opened = (open_conn url (new_state (new_chan_group "n" "a" "ra" able []) false) "r").0

abbrev defaults : TxOptions
defaults = record { isolation = 0; read_only = false }

abbrev labelled : Context
labelled =
    context_with_exec_labels caller (some (("grpc_service", "s") ∷ ("grpc_method", "m") ∷ []))

abbrev transaction : ManagedTx
transaction = record { tx = 1; conn = 0; ctx = labelled }

begin_tx-granted_example :
    (is_done opened (opened.heap 0).ctx ≡ false)
    × (((has opened 0 conn_begin_tx ≡ true)
          × ((n : ℕ) × (managed transaction
                ≡ managed (record { tx = n; conn = 0; ctx = labelled }))))
        ⊎ ((has opened 0 conn_begin_tx ≡ false)
            × ((n : ℕ) × (managed transaction ≡ raw n))
            × (defaults.isolation ≡ 0)
            × (defaults.read_only ≡ false)
            × (labelled.done ≡ none)))
unfolding begin_tx begin_managed open_conn new_managed_conn new_state new_chan_group
    parse_url_values context_with_exec_labels merge_conn_string_options
begin_tx-granted_example = begin_tx-granted opened 0 labelled defaults (managed transaction) refl

abbrev cancelled : State
cancelled = record opened { canceled = λ x. true }

abbrev statements : List Stmt
statements =
    runs_exec "insert" [] ∷ runs_query_context caller "select" [] ∷ runs_exec "insert" [] ∷ []

abbrev ran : State
ran = run_stmts opened 0 statements

end-Observes_example :
    let n = (execs ran.calls - execs opened.calls) % word in
    let m = (queries ran.calls - queries opened.calls) % word in
    Observes transaction n m opened (commit ran transaction).0
    × Observes transaction n m opened (rollback ran transaction).0
unfolding open_conn new_managed_conn new_state new_chan_group parse_url_values
    merge_conn_string_options
end-Observes_example = end-Observes opened transaction statements refl refl

two_execs : (execs ran.calls ≡ 2) × (queries ran.calls ≡ 1)
unfolding run_stmts exec query_context open_conn new_managed_conn new_state new_chan_group
    parse_url_values merge_conn_string_options
two_execs = (refl, refl)

abbrev label_set : List (String × String)
label_set = ("grpc_service", "s") ∷ ("grpc_method", "m") ∷ []

begin_tx-reports_example :
    let began = (begin_tx opened 0 (context_with_exec_labels caller (some label_set)) defaults).0 in
    let t = run_stmts began 0 statements in
    let n = (execs t.calls - execs began.calls) % word in
    let m = (queries t.calls - queries began.calls) % word in
    ((commit t transaction).0.samples ≡ reports label_set n m opened.samples)
    × ((rollback t transaction).0.samples ≡ reports label_set n m opened.samples)
unfolding begin_tx begin_managed open_conn new_managed_conn new_state new_chan_group
    parse_url_values context_with_exec_labels merge_conn_string_options
begin_tx-reports_example =
    begin_tx-reports opened 0 caller label_set defaults transaction statements refl refl refl
