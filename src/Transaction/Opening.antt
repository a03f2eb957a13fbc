-- ===== src/Transaction/Opening.antt =====
-- Which transactions BeginTx hands out, and what a done context refuses.
use hotload.Prelude.{ℕ, ◌≡◌, true, false, ◌⊎◌, none, arith}
use hotload.State.{State, Context, TxOptions, conn_begin_tx, ok}
use hotload.Conn.{has, is_done}
use hotload.Transaction.{Tx, managed, raw, begin_managed, settle_begin, begin_tx}

-- A transaction that BeginTx returns is managed, for this connection and caller, if the driver has
-- ConnBeginTx; else it is the driver's own, the options were the defaults and the caller's context
-- was not done. The connection's context was not done either.
pub begin_tx-granted :
    (s : State) (c : ℕ) (x : Context) (o : TxOptions) (t : Tx)
    → (begin_tx s c x o).1 ≡ ok t
    → (is_done s (s.heap c).ctx ≡ false)
      × (((has s c conn_begin_tx ≡ true)
            × ((n : ℕ) × (t ≡ managed (record { tx = n; conn = c; ctx = x }))))
          ⊎ ((has s c conn_begin_tx ≡ false)
              × ((n : ℕ) × (t ≡ raw n))
              × (o.isolation ≡ 0)
              × (o.read_only ≡ false)
              × (x.done ≡ none)))
unfolding begin_tx begin_managed settle_begin
begin_tx-granted s c x o t e = ground arith
