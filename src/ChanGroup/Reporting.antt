-- ===== src/ChanGroup/Reporting.antt =====
-- driver.go: what the metrics report of runLoop, hotload_change_total and
-- hotload_last_changed_timestamp_seconds.
use hotload.Prelude.{
  ℕ, ◌+◌, ◌≡◌, refl, ◌∙◌, String, Bool, true, false, Option, none, some, List, [], ◌∷◌, arith,
  str_eq, eq_iff, if◌then◌else◌, inl, inr, Bool-cases,
}
use hotload.State.{State}
use hotload.Conn.{close, close_conn, set_reset, remove}
use hotload.ChanGroup.{
  OldInfo, call_cancel, update_metrics, retire, reset_and_close_all, close_all, reset_all,
  process_new_value, Event, parent_ends, channel_closed, new_value, run_loop,
}
use hotload.ChanGroup.Change.{process_new_value-same, process_new_value-changed, switched, old_info}

-- How many values differ from the one before them, the first from the group's own, up to the end of
-- the loop.
unfoldable pub changes : String → List Event → ℕ
changes v [] = 0
changes v (parent_ends ∷ es) = 0
changes v (channel_closed ∷ es) = 0
changes v (new_value w r now ∷ es) = (if str_eq w v then 0 else 1) + changes w es

-- When the last such value came, or else `t`.
unfoldable pub last_change : String → ℕ → List Event → ℕ
last_change v t [] = t
last_change v t (parent_ends ∷ es) = t
last_change v t (channel_closed ∷ es) = t
last_change v t (new_value w r now ∷ es) = last_change w (if str_eq w v then t else now) es

-- The last value, or else `v`.
unfoldable pub last_value : String → List Event → String
last_value v [] = v
last_value v (parent_ends ∷ es) = v
last_value v (channel_closed ∷ es) = v
last_value v (new_value w r now ∷ es) = last_value w es

-- The metrics and the value stay.
record Keeps (s t : State) : Type 0 where
  total_eq : t.change_total ≡ s.change_total
  time_eq : t.last_changed ≡ s.last_changed
  value_eq : t.group.value ≡ s.group.value

Keeps-trans : (s t u : State) → Keeps s t → Keeps t u → Keeps s u
Keeps-trans s t u a b = record {
  total_eq = b.total_eq ∙ a.total_eq;
  time_eq = b.time_eq ∙ a.time_eq;
  value_eq = b.value_eq ∙ a.value_eq;
}

close-Keeps : (s : State) (c : ℕ) → Keeps s (close s c).0
unfolding close close_conn remove
close-Keeps s c = record {
  total_eq = ground arith;
  time_eq = ground arith;
  value_eq = ground arith;
}

set_reset-Keeps : (s : State) (c : ℕ) → Keeps s (set_reset s c true)
unfolding set_reset
set_reset-Keeps s c = record { total_eq = refl; time_eq = refl; value_eq = refl }

call_cancel-Keeps : (s : State) (o : Option ℕ) → Keeps s (call_cancel s o)
unfolding call_cancel
call_cancel-Keeps s none = record { total_eq = refl; time_eq = refl; value_eq = refl }
call_cancel-Keeps s (some x) = record { total_eq = refl; time_eq = refl; value_eq = refl }

close_all-Keeps : (s : State) (cs : List ℕ) → Keeps s (close_all s cs)
unfolding close_all
close_all-Keeps s [] = record { total_eq = refl; time_eq = refl; value_eq = refl }
close_all-Keeps s (c ∷ cs) = Keeps-trans s _ _ (close-Keeps s c) (close_all-Keeps (close s c).0 cs)

reset_all-Keeps : (s : State) (cs : List ℕ) → Keeps s (reset_all s cs)
unfolding reset_all
reset_all-Keeps s [] = record { total_eq = refl; time_eq = refl; value_eq = refl }
reset_all-Keeps s (c ∷ cs) =
    Keeps-trans s _ _ (set_reset-Keeps s c) (reset_all-Keeps (set_reset s c true) cs)

reset_and_close_all-Keeps : (s : State) (cs : List ℕ) → Keeps s (reset_and_close_all s cs)
unfolding reset_and_close_all
reset_and_close_all-Keeps s [] = record { total_eq = refl; time_eq = refl; value_eq = refl }
reset_and_close_all-Keeps s (c ∷ cs) =
    let t = set_reset s c true in
    Keeps-trans s _ _ (Keeps-trans s t _ (set_reset-Keeps s c) (close-Keeps t c))
      (reset_and_close_all-Keeps (close t c).0 cs)

either : (s x y : State) (b : Bool) → Keeps s x → Keeps s y → Keeps s (if b then x else y)
either s x y true h k = h
either s x y false h k = k

retire-Keeps : (s : State) (o : OldInfo) → Keeps s (retire s o)
unfolding retire
retire-Keeps s o =
    let a = call_cancel s o.prev_cancel in
    let b = call_cancel s o.prev_prev_cancel in
    let c = close_all b o.prev_prev_conns in
    either s _ _ s.group.force_kill
      (Keeps-trans s a _ (call_cancel-Keeps s o.prev_cancel)
        (reset_and_close_all-Keeps a o.prev_conns))
      (Keeps-trans s b _ (call_cancel-Keeps s o.prev_prev_cancel)
        (Keeps-trans b c _ (close_all-Keeps b o.prev_prev_conns) (reset_all-Keeps c o.prev_conns)))

-- What one value makes of the metrics and of the group's value.
pub record Reported (s t : State) (v : String) (now : ℕ) : Type 0 where
  pub total_now : t.change_total ≡ s.change_total + (if str_eq v s.group.value then 0 else 1)
  pub time_now : t.last_changed ≡ (if str_eq v s.group.value then s.last_changed else now)
  pub value_now : t.group.value ≡ v

pub process_new_value-Reported :
    (s : State) (v redacted : String) (now : ℕ)
    → Reported s (process_new_value s v redacted now) v now
unfolding update_metrics
process_new_value-Reported s v redacted now = elim (Bool-cases (str_eq v s.group.value)) [
  | inl e ↦ rw (process_new_value-same s v redacted now e) (record {
    total_now = rw e (omega arith);
    time_now = rw e refl;
    value_now = ground (arith, e, eq_iff v s.group.value);
  })
  | inr e ↦
      let k = retire-Keeps (update_metrics (switched s v redacted) now) (old_info s) in
      rw (process_new_value-changed s v redacted now e)
        (record { total_now = rw e k.total_eq; time_now = rw e k.time_eq; value_now = k.value_eq })
]

-- However runLoop goes on and whatever it receives: hotload_change_total has grown by the number of
-- values that differ from the one before them, the first from the group's own;
-- hotload_last_changed_timestamp_seconds is the time of the last of these, or as before without one;
-- and the group has the last value.
pub run_loop-Reports :
    (s : State) (es : List Event)
    → let t = (run_loop s es).0 in
      (t.change_total ≡ s.change_total + changes s.group.value es)
      × (t.last_changed ≡ last_change s.group.value s.last_changed es)
      × (t.group.value ≡ last_value s.group.value es)
unfolding run_loop changes last_change last_value
run_loop-Reports s [] = (omega arith, refl, refl)
run_loop-Reports s (parent_ends ∷ es) =
    let k = call_cancel-Keeps (record s { parent_done = true }) s.group.cancel in
    (omega (arith, k.total_eq), k.time_eq, k.value_eq)
run_loop-Reports s (channel_closed ∷ es) = (omega arith, refl, refl)
run_loop-Reports s (new_value v r now ∷ es) =
    let p = process_new_value-Reported s v r now in
    let (total, time, value) = run_loop-Reports (process_new_value s v r now) es in
    let total' = rw p.value_now at total in
    (
      omega (arith, total', p.total_now),
      rw (p.value_now, p.time_now) at time,
      rw p.value_now at value,
    )
