-- ===== src/Transaction/Lifetime.antt =====
-- conn.go and transaction.go: a transaction from BeginTx to its end, under labels that its caller set.
use hotload.Prelude.{subst, sym, ℕ, ◌-◌, ◌%◌, ◌≡◌, String, some, List, ◌∷◌, arith}
use hotload.State.{State, Context, TxOptions, Sample, ok}
use hotload.Conn.{word}
use hotload.Transaction.{
  ManagedTx, managed, begin_tx, begin_managed, settle_begin, commit, rollback, label,
  context_with_exec_labels, get_exec_labels_from_context,
}
use hotload.Transaction.Counting.{Stmt, run_stmts, execs, queries, end-Observes}

-- What BeginTx leaves alone when it hands out a managed transaction, and what it puts into it.
record Began (s t : State) (c : ℕ) (x : Context) (tx : ManagedTx) : Type 0 where
  same_heap : t.heap ≡ s.heap
  same_samples : t.samples ≡ s.samples
  its : tx ≡ record { tx = tx.tx; conn = c; ctx = x }

begin_tx-Began :
    (s : State) (c : ℕ) (x : Context) (o : TxOptions) (tx : ManagedTx)
    → (begin_tx s c x o).1 ≡ ok (managed tx)
    → Began s (begin_tx s c x o).0 c x tx
unfolding begin_tx begin_managed settle_begin
begin_tx-Began s c x o tx e = ground arith

-- The two samples of a transaction that ran `n` Exec and `m` Query calls.
abbrev pub reports : List (String × String) → ℕ → ℕ → List Sample → List Sample
reports ls n m samples =
    let service = label "grpc_service" (some ls) in
    let method = label "grpc_method" (some ls) in
    record { service = service; method = method; stmt = "query"; count = m }
    ∷ record { service = service; method = method; stmt = "exec"; count = n }
    ∷ samples

-- If BeginTx hands out a managed transaction to a caller that put labels into its context, on a
-- connection whose counters are zero, and the connection's statements then run, Commit and Rollback,
-- whether or not they fail, report two samples under exactly those labels, a missing one being
-- empty: how many Exec and how many Query calls the driver has seen since BeginTx, modulo 2^64. The
-- samples from before stay.
pub begin_tx-reports :
    (s : State) (c : ℕ) (x : Context) (ls : List (String × String)) (o : TxOptions) (tx : ManagedTx)
    (ms : List Stmt)
    → (begin_tx s c (context_with_exec_labels x (some ls)) o).1 ≡ ok (managed tx)
    → (s.heap c).exec_stmts_counter ≡ 0
    → (s.heap c).query_stmts_counter ≡ 0
    → let began = (begin_tx s c (context_with_exec_labels x (some ls)) o).0 in
      let t = run_stmts began c ms in
      let n = (execs t.calls - execs began.calls) % word in
      let m = (queries t.calls - queries began.calls) % word in
      ((commit t tx).0.samples ≡ reports ls n m s.samples)
      × ((rollback t tx).0.samples ≡ reports ls n m s.samples)
unfolding context_with_exec_labels get_exec_labels_from_context
begin_tx-reports s c x ls o tx ms e zero_execs zero_queries =
    let began = (begin_tx s c (context_with_exec_labels x (some ls)) o).0 in
    let t = run_stmts began c ms in
    let b = begin_tx-Began s c (context_with_exec_labels x (some ls)) o tx e in
    let n = (execs t.calls - execs began.calls) % word in
    let m = (queries t.calls - queries began.calls) % word in
    let tx' : ManagedTx = record {
      tx = tx.tx;
      conn = c;
      ctx = context_with_exec_labels x (some ls);
    } in
    let h = end-Observes began tx' ms (rw b.same_heap zero_execs) (rw b.same_heap zero_queries) in
    subst
      (λ z.
        ((commit t z).0.samples ≡ reports ls n m s.samples)
        × ((rollback t z).0.samples ≡ reports ls n m s.samples))
      (sym b.its) (rw b.same_samples at h.0.0, rw b.same_samples at h.1.0)
