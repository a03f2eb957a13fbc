-- ===== src/ChanGroup/Effects.antt =====
-- What processNewValue does, to the last call of the driver, when nobody else runs.
use hotload.Prelude.{
  ℕ, ◌≡◌, refl, ◌∙◌, ap, String, Bool, true, false, Option, some, none, List, [], str_eq,
  if◌then◌else◌, ◌==◌,
}
use hotload.State.{State}
use hotload.ChanGroup.{OldInfo, call_cancel, update_metrics, retire, process_new_value}
use hotload.ChanGroup.Change.{process_new_value-changed, old_info, switched}
use hotload.ChanGroup.Quiet.{
  close_calls, Quiet, Quiet-then, close_all-Quiet, reset_all-Quiet, reset_and_close_all-Quiet,
}

-- Whether an optional cancel function is the one of the context.
abbrev pub names : Option ℕ → ℕ → Bool
names none x = false
names (some y) x = y == x

call_cancel-canceled :
    (s : State) (o : Option ℕ) (x : ℕ)
    → (call_cancel s o).canceled x ≡ (if names o x then true else s.canceled x)
unfolding call_cancel
call_cancel-canceled s none x = refl
call_cancel-canceled s (some y) x = refl

call_cancel-group :
    (s : State) (o : Option ℕ)
    → ((call_cancel s o).group ≡ s.group)
      × ((call_cancel s o).calls ≡ s.calls)
      × ((call_cancel s o).heap ≡ s.heap)
unfolding call_cancel
call_cancel-group s none = (refl, refl, refl)
call_cancel-group s (some y) = (refl, refl, refl)

pick_then : (P : State → Type 0) (b : Bool) (x y : State) → b ≡ true → P x → P (if b then x else y)
pick_then P true x y e p = p
pick_then P false x y e p = cc

pick_else : (P : State → Type 0) (b : Bool) (x y : State) → b ≡ false → P y → P (if b then x else y)
pick_else P true x y e p = cc
pick_else P false x y e p = p

-- What a Quiet step after a cancel leaves, seen from before the cancel.
record Retired (f : ℕ → ℕ) (s t : State) (o : Option ℕ) (cs : List ℕ) : Type 0 where
  group_eq : t.group ≡ s.group
  canceled_eq : (x : ℕ) → t.canceled x ≡ (if names o x then true else s.canceled x)
  calls_eq : t.calls ≡ close_calls f cs s.calls

after_cancel :
    (f : ℕ → ℕ) (s t : State) (o : Option ℕ) (cs : List ℕ)
    → Quiet f (close_calls f cs (call_cancel s o).calls) (call_cancel s o) t
    → Retired f s t o cs
after_cancel f s t o cs q =
    let (group, calls, heap) = call_cancel-group s o in
    record {
      group_eq = q.group_eq ∙ group;
      canceled_eq = λ x. ap (λ c. c x) q.canceled_eq ∙ call_cancel-canceled s o x;
      calls_eq = q.calls_eq ∙ ap (close_calls f cs) calls;
    }

module _ (f : ℕ → ℕ) (s : State) (prev : OldInfo) (empty : s.group.conns ≡ [])
    (same : (i : ℕ) → (s.heap i).conn ≡ f i) where
  graceful-Retired :
      s.group.force_kill ≡ false
      → Retired f s (retire s prev) prev.prev_prev_cancel prev.prev_prev_conns
  unfolding retire
  graceful-Retired e =
      let o = prev.prev_prev_cancel in
      let (group, calls, heap) = call_cancel-group s o in
      let q =
        close_all-Quiet f (call_cancel s o) prev.prev_prev_conns (ap (λ g. g.conns) group ∙ empty)
          (λ i. ap (λ h. (h i).conn) heap ∙ same i) in
      after_cancel f s _ o prev.prev_prev_conns (
        pick_else
          (λ t.
            Quiet f (close_calls f prev.prev_prev_conns (call_cancel s o).calls) (call_cancel s o)
              t)
          s.group.force_kill _ _ e
          (Quiet-then f _ (λ k. k) _ _ _ q (reset_all-Quiet f _ prev.prev_conns q.handles)))

  forced-Retired :
      s.group.force_kill ≡ true → Retired f s (retire s prev) prev.prev_cancel prev.prev_conns
  unfolding retire
  forced-Retired e =
      let o = prev.prev_cancel in
      let (group, calls, heap) = call_cancel-group s o in
      after_cancel f s _ o prev.prev_conns (
        pick_then
          (λ t. Quiet f (close_calls f prev.prev_conns (call_cancel s o).calls) (call_cancel s o) t)
          s.group.force_kill _ _ e
          (reset_and_close_all-Quiet f (call_cancel s o) prev.prev_conns
            (ap (λ g. g.conns) group ∙ empty) (λ i. ap (λ h. (h i).conn) heap ∙ same i)))

module _ (s : State) (v redacted : String) (time : ℕ)
    (differs : str_eq v s.group.value ≡ false) where
  abbrev handle : ℕ → ℕ
  handle i = (s.heap i).conn

  -- Without forceKill and for a value that differs, processNewValue run alone switches the group to
  -- the value with no connections and the old ones as the previous ones, cancels the context of
  -- two values ago and no other, leaves the fresh context alive, and calls the driver for one Close
  -- of each connection of two values ago, in order, and for nothing else.
  pub process_new_value-graceful :
      s.group.force_kill ≡ false
      → (x : ℕ)
      → let t = process_new_value s v redacted time in
        (t.group ≡ (switched s v redacted).group)
        × (t.canceled x ≡ (
            if names s.group.prev_cancel x
            then true
            else (if s.next_ctx == x then false else s.canceled x)))
        × (t.calls ≡ close_calls handle s.group.prev_conns s.calls)
  unfolding update_metrics
  process_new_value-graceful graceful x =
      let r =
        graceful-Retired handle (update_metrics (switched s v redacted) time) (old_info s) refl
          (λ i. refl) graceful in
      rw (process_new_value-changed s v redacted time differs)
        (r.group_eq, r.canceled_eq x, r.calls_eq)

  -- With forceKill and for a value that differs, it is the context just replaced that is cancelled
  -- and its connections that are closed, one Close each, in order; the rest is as above.
  pub process_new_value-forced :
      s.group.force_kill ≡ true
      → (x : ℕ)
      → let t = process_new_value s v redacted time in
        (t.group ≡ (switched s v redacted).group)
        × (t.canceled x ≡ (
            if names s.group.cancel x
            then true
            else (if s.next_ctx == x then false else s.canceled x)))
        × (t.calls ≡ close_calls handle s.group.conns s.calls)
  unfolding update_metrics
  process_new_value-forced forced x =
      let r =
        forced-Retired handle (update_metrics (switched s v redacted) time) (old_info s) refl
          (λ i. refl) forced in
      rw (process_new_value-changed s v redacted time differs)
        (r.group_eq, r.canceled_eq x, r.calls_eq)
