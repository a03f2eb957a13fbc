-- ===== src/Transaction/Frame.antt =====
-- Transactions keep the frame of Conn/Evolves.
use hotload.Prelude.{ℕ, refl, inl, List, arith}
use hotload.State.{State, begin_call, Context, TxOptions, Result, ok, err, Sample}
use hotload.Conn.{ask}
use hotload.Conn.Evolves.{
  Evolves, Evolves-refl, Evolves-trans, if-Evolves, log-Evolves, log_after, close_conn-Evolves,
}
use hotload.Conn.Frame.{reset_exec_stmts_counter-Evolves, reset_query_stmts_counter-Evolves}
use hotload.Transaction.{
  ManagedTx, begin, begin_managed, settle_begin, begin_tx, cleanup, commit, rollback,
}

pub begin-Evolves : (s : State) (c : ℕ) → Evolves s (begin s c).0
unfolding begin
begin-Evolves s c = if-Evolves s _ _ _ (close_conn-Evolves s c) (log-Evolves s _)

begin_managed-Evolves :
    (s : State) (c : ℕ) (x : Context) (o : TxOptions) → Evolves s (begin_managed s c x o).0
unfolding begin_managed
begin_managed-Evolves s c x o = ground (arith, log-Evolves s _)

settle_begin-Evolves :
    (s t : State) (x : Context) (r : Result ℕ) → Evolves s t → Evolves s (settle_begin t x r).0
unfolding settle_begin
settle_begin-Evolves s t x (err e) h = h
settle_begin-Evolves s t x (ok tx) h = ground (arith, log_after s t _ h)

pub begin_tx-Evolves :
    (s : State) (c : ℕ) (x : Context) (o : TxOptions) → Evolves s (begin_tx s c x o).0
unfolding begin_tx
begin_tx-Evolves s c x o =
    let (t, r) = ask s (begin_call (s.heap c).conn) in
    ground (
      arith,
      close_conn-Evolves s c,
      begin_managed-Evolves s c x o,
      Evolves-refl s,
      settle_begin-Evolves s t x r (log-Evolves s (begin_call (s.heap c).conn)),
    )

samples-Evolves : (s : State) (l : List Sample) → Evolves s (record s { samples = l })
samples-Evolves s l = record {
  group_eq = refl;
  next_conn_eq = refl;
  next_ctx_eq = refl;
  canceled_eq = refl;
  parent_eq = refl;
  same = (Evolves-refl s).same;
  grows = λ j h. h;
  kept = λ i h. inl h;
  shrinks = λ i h. h;
}

cleanup-Evolves : (s : State) (t : ManagedTx) → Evolves s (cleanup s t)
unfolding cleanup
cleanup-Evolves s t = Evolves-trans s _ _ (samples-Evolves s _) (
    Evolves-trans _ _ _ (reset_exec_stmts_counter-Evolves _ t.conn)
      (reset_query_stmts_counter-Evolves _ t.conn))

pub commit-Evolves : (s : State) (t : ManagedTx) → Evolves s (commit s t).0
unfolding commit
commit-Evolves s t = Evolves-trans s _ _ (log-Evolves s _) (cleanup-Evolves _ t)

pub rollback-Evolves : (s : State) (t : ManagedTx) → Evolves s (rollback s t).0
unfolding rollback
rollback-Evolves s t = Evolves-trans s _ _ (log-Evolves s _) (cleanup-Evolves _ t)
