-- ===== src/ChanGroup/Change.antt =====
-- A new value keeps the group's invariant: each connection moves on by one generation.
use hotload.Prelude.{
  ℕ, suc, ◌<◌, ◌≡◌, refl, String, true, false, inl, inr, some, [], arith, update, str_eq,
  Bool-cases,
}
use hotload.State.{State}
use hotload.Dsn.{UrlLib}
use hotload.ChanGroup.{
  OldInfo, no_change, critical_section, update_metrics, process_new_value, retire,
}
use hotload.ChanGroup.Steps.{actions, Running, receive}
use hotload.ChanGroup.Actions.{actions-cancel, actions-doomed, actions-reset, actions-close}
use hotload.ChanGroup.Invariant.{Inv, Fate, Tracked}

-- What the critical section hands on, and the state that it leaves, for a value that differs.
abbrev pub old_info : State → OldInfo
old_info s = record {
  changed_flag = true;
  prev_prev_cancel = s.group.prev_cancel;
  prev_prev_redact_val = s.group.prev_redact_val;
  prev_prev_conns = s.group.prev_conns;
  prev_cancel = s.group.cancel;
  prev_redact_val = s.group.redact_val;
  prev_conns = s.group.conns;
}

abbrev pub switched : State → String → String → State
switched s v redacted = record s {
  next_ctx = suc s.next_ctx;
  canceled = update s.canceled s.next_ctx false;
  group = record (s.group) {
    prev_conns = s.group.conns;
    conns = [];
    prev_cancel = s.group.cancel;
    ctx = s.next_ctx;
    cancel = some s.next_ctx;
    prev_redact_val = s.group.redact_val;
    value = v;
    redact_val = redacted;
  };
}

pub critical_section-changed :
    (s : State) (v redacted : String)
    → str_eq v s.group.value ≡ false
    → critical_section s v redacted ≡ (switched s v redacted, old_info s)
unfolding critical_section
critical_section-changed s v redacted e = rw e

pub critical_section-same :
    (s : State) (v redacted : String)
    → str_eq v s.group.value ≡ true
    → critical_section s v redacted ≡ (s, no_change)
unfolding critical_section
critical_section-same s v redacted e = rw e

pub process_new_value-same :
    (s : State) (v redacted : String) (now : ℕ)
    → str_eq v s.group.value ≡ true
    → process_new_value s v redacted now ≡ s
unfolding process_new_value
process_new_value-same s v redacted now e = rw (critical_section-same s v redacted e)

pub process_new_value-changed :
    (s : State) (v redacted : String) (now : ℕ)
    → str_eq v s.group.value ≡ false
    → process_new_value s v redacted now
      ≡ retire (update_metrics (switched s v redacted) now) (old_info s)
unfolding process_new_value
process_new_value-changed s v redacted now e = rw (critical_section-changed s v redacted e)

pub receive-same :
    (r : Running) (v redacted : String) (now : ℕ)
    → str_eq v r.state.group.value ≡ true
    → receive r v redacted now ≡ r
unfolding receive
receive-same r v redacted now e = rw (critical_section-same r.state v redacted e)

pub receive-changed :
    (r : Running) (v redacted : String) (now : ℕ)
    → str_eq v r.state.group.value ≡ false
    → receive r v redacted now ≡ record r {
      state = update_metrics (switched r.state v redacted) now;
      pending = actions r.state.group.force_kill (old_info r.state);
    }
unfolding receive
receive-changed r v redacted now e = rw (critical_section-changed r.state v redacted e)

module _ (url : UrlLib) (s : State) (v redacted : String) (inv : Inv url s []) where
  abbrev after : State
  after = switched s v redacted

  Fate-switched :
      (i : ℕ) → i < s.next_conn → Fate url after (actions s.group.force_kill (old_info s)) i
  Fate-switched i h = ground (
    arith,
    inv.cancels_ctx,
    inv.fate i h,
    inv.conn_lt i h,
    λ (f : s.group.force_kill ≡ true). inv.forced_ctx f (s.heap i).ctx,
    actions-cancel s.group.force_kill (old_info s) (s.heap i).ctx,
    actions-reset s.group.force_kill (old_info s) i,
  )

  Tracked-switched :
      (i : ℕ) → i < s.next_conn → Tracked after (actions s.group.force_kill (old_info s)) i
  Tracked-switched i h = elim (inv.tracked i h) [
    | inl k ↦ inr (inl k)
    | inr (inl k) ↦ elim (Bool-cases s.group.force_kill) [
      | inl f ↦ ground (arith, inv.forced_conns f i k)
      | inr f ↦ inr (inr (inr (actions-close s.group.force_kill (old_info s) i (rw f k))))
    ]
    | inr (inr (inl k)) ↦ inr (inr (inl k))
    | inr (inr (inr k)) ↦ absurd k
  ]

  pub Inv-switched : Inv url after (actions s.group.force_kill (old_info s))
  Inv-switched = record {
    cancels_ctx = refl;
    ctx_lt = omega arith;
    prev_lt = λ x h. ground (arith, inv.cancels_ctx, inv.ctx_lt);
    todo_lt = λ x h. ground (
      arith,
      inv.cancels_ctx,
      inv.ctx_lt,
      inv.prev_lt x,
      actions-doomed s.group.force_kill (old_info s) x h,
    );
    live = λ h. ground arith;
    conn_lt = λ i h. omega (arith, inv.conn_lt i h);
    fate = Fate-switched;
    tracked = Tracked-switched;
    forced_ctx = λ f x h. ground (arith, actions-cancel s.group.force_kill (old_info s) x);
    forced_conns = λ f i h. ground (arith, actions-close s.group.force_kill (old_info s) i);
    listed = λ i h. elim h [ ];
    prev_listed = inv.listed;
    listed_ctx = λ i h. elim h [ ];
  }
