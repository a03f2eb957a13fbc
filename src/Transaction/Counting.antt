-- ===== src/Transaction/Counting.antt =====
-- The counters of a connection agree with the calls that its driver has seen.
use hotload.Prelude.{
  ℕ, suc, ◌+◌, ◌-◌, ◌%◌, ◌<◌, ◌≤◌, ◌≡◌, refl, ◌∙◌, String, some, List, [], ◌∷◌, arith,
}
use hotload.State.{
  State, Context, NamedValue, DriverCall, exec_context_call, query_context_call, exec_call,
  query_call,
}
use hotload.Conn.{exec, exec_context, query, query_context, word}
use hotload.Transaction.{ManagedTx, commit, rollback, label, get_exec_labels_from_context}

-- How many of the calls run an Exec, and how many a Query.
abbrev pub execs : List DriverCall → ℕ
execs [] = 0
execs (exec_context_call c x q args ∷ k) = suc (execs k)
execs (exec_call c q args ∷ k) = suc (execs k)
execs (_ ∷ k) = execs k

abbrev pub queries : List DriverCall → ℕ
queries [] = 0
queries (query_context_call c x q args ∷ k) = suc (queries k)
queries (query_call c q args ∷ k) = suc (queries k)
queries (_ ∷ k) = queries k

pub data Stmt : Type 0 where
  runs_exec runs_query : String → List ℕ → Stmt
  runs_exec_context runs_query_context : Context → String → List NamedValue → Stmt

unfoldable pub run_stmt : State → ℕ → Stmt → State
run_stmt s c (runs_exec q args) = (exec s c q args).0
run_stmt s c (runs_query q args) = (query s c q args).0
run_stmt s c (runs_exec_context x q args) = (exec_context s c x q args).0
run_stmt s c (runs_query_context x q args) = (query_context s c x q args).0

unfoldable pub run_stmts : State → ℕ → List Stmt → State
unfolding run_stmt
run_stmts s c [] = s
run_stmts s c (m ∷ ms) = run_stmts (run_stmt s c m) c ms

-- From `s` to `t` the counters grew, modulo 2^64, by the calls made.
record Counts (c : ℕ) (s t : State) : Type 0 where
  execs_eq :
      ((t.heap c).exec_stmts_counter + execs s.calls) % word
      ≡ ((s.heap c).exec_stmts_counter + execs t.calls) % word
  queries_eq :
      ((t.heap c).query_stmts_counter + queries s.calls) % word
      ≡ ((s.heap c).query_stmts_counter + queries t.calls) % word
  samples_eq : t.samples ≡ s.samples
  execs_lt : (s.heap c).exec_stmts_counter < word → (t.heap c).exec_stmts_counter < word
  queries_lt : (s.heap c).query_stmts_counter < word → (t.heap c).query_stmts_counter < word
  execs_le : execs s.calls ≤ execs t.calls
  queries_le : queries s.calls ≤ queries t.calls

run_stmt-Counts : (s : State) (c : ℕ) (m : Stmt) → Counts c s (run_stmt s c m)
unfolding run_stmt exec query exec_context query_context
run_stmt-Counts s c (runs_exec q args) = ground arith
run_stmt-Counts s c (runs_query q args) = ground arith
run_stmt-Counts s c (runs_exec_context x q args) = ground arith
run_stmt-Counts s c (runs_query_context x q args) = ground arith

Counts-trans : (c : ℕ) (s t u : State) → Counts c s t → Counts c t u → Counts c s u
Counts-trans c s t u p q = record {
  execs_eq = omega arith;
  queries_eq = omega arith;
  samples_eq = q.samples_eq ∙ p.samples_eq;
  execs_lt = λ h. q.execs_lt (p.execs_lt h);
  queries_lt = λ h. q.queries_lt (p.queries_lt h);
  execs_le = omega arith;
  queries_le = omega arith;
}

run_stmts-Counts : (s : State) (c : ℕ) (ms : List Stmt) → Counts c s (run_stmts s c ms)
unfolding run_stmts
run_stmts-Counts s c [] = record {
  execs_eq = refl;
  queries_eq = refl;
  samples_eq = refl;
  execs_lt = λ h. h;
  queries_lt = λ h. h;
  execs_le = omega arith;
  queries_le = omega arith;
}
run_stmts-Counts s c (m ∷ ms) =
    Counts-trans c s (run_stmt s c m) _ (run_stmt-Counts s c m)
      (run_stmts-Counts (run_stmt s c m) c ms)

-- `u` follows `t` by the end of the transaction: it has one sample of each kind more, with the
-- given counts under the labels of the transaction's context, and zero counters.
abbrev pub Observes : ManagedTx → ℕ → ℕ → State → State → Type 0
Observes tx n m t u =
    let found = get_exec_labels_from_context (some tx.ctx) in
    let service = label "grpc_service" found in
    let method = label "grpc_method" found in
    (u.samples
      ≡ record { service = service; method = method; stmt = "query"; count = m }
        ∷ record { service = service; method = method; stmt = "exec"; count = n }
        ∷ t.samples)
    × ((u.heap tx.conn).exec_stmts_counter ≡ 0)
    × ((u.heap tx.conn).query_stmts_counter ≡ 0)

commit-Observes :
    (t : State) (tx : ManagedTx)
    → Observes tx
        (t.heap tx.conn).exec_stmts_counter
        (t.heap tx.conn).query_stmts_counter
        t
        (commit t tx).0
unfolding commit
commit-Observes t tx = (refl, ground arith, ground arith)

rollback-Observes :
    (t : State) (tx : ManagedTx)
    → Observes tx
        (t.heap tx.conn).exec_stmts_counter
        (t.heap tx.conn).query_stmts_counter
        t
        (rollback t tx).0
unfolding rollback
rollback-Observes t tx = (refl, ground arith, ground arith)

grown : (c a b : ℕ) → (c + a) % word ≡ (0 + b) % word → c < word → a ≤ b → c ≡ (b - a) % word
grown c a b e lt le = omega arith

-- If the connection's counters are zero and its statements then run, Commit and Rollback, whether
-- or not they fail, observe exactly how many Exec and how many Query calls the driver has seen
-- since, modulo 2^64, and zero the counters.
pub end-Observes :
    (s : State) (tx : ManagedTx) (ms : List Stmt)
    → (s.heap tx.conn).exec_stmts_counter ≡ 0
    → (s.heap tx.conn).query_stmts_counter ≡ 0
    → let t = run_stmts s tx.conn ms in
      let n = (execs t.calls - execs s.calls) % word in
      let m = (queries t.calls - queries s.calls) % word in
      Observes tx n m s (commit t tx).0 × Observes tx n m s (rollback t tx).0
end-Observes s tx ms e q =
    let t = run_stmts s tx.conn ms in
    let k = run_stmts-Counts s tx.conn ms in
    let n = grown _ _ _ (rw e at k.execs_eq) (k.execs_lt (rw e (omega arith))) k.execs_le in
    let m = grown _ _ _ (rw q at k.queries_eq) (k.queries_lt (rw q (omega arith))) k.queries_le in
    ground (arith, n, m, k.samples_eq, commit-Observes t tx, rollback-Observes t tx)
