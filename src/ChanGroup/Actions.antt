-- ===== src/ChanGroup/Actions.antt =====
-- Which actions a change leaves to runLoop.
use hotload.Prelude.{
  ℕ, ◌≡◌, Bool, true, false, inl, inr, Option, some, none, List, [], ◌∷◌, In, arith, map,
  In-append_left, In-append_right, In-append_cases,
}
use hotload.ChanGroup.{OldInfo}
use hotload.ChanGroup.Steps.{
  cancel_context, reset_conn, close_conn, cancel_action, kill_actions, actions,
}

In-map_close : (i : ℕ) (cs : List ℕ) → In i cs → In (close_conn i) (map close_conn cs)
In-map_close i [] h = elim h [ ]
In-map_close i (c ∷ cs) h = ground (arith, In-map_close i cs)

In-map_reset : (i : ℕ) (cs : List ℕ) → In i cs → In (reset_conn i) (map reset_conn cs)
In-map_reset i [] h = elim h [ ]
In-map_reset i (c ∷ cs) h = ground (arith, In-map_reset i cs)

In-kill_reset : (i : ℕ) (cs : List ℕ) → In i cs → In (reset_conn i) (kill_actions cs)
In-kill_reset i [] h = elim h [ ]
In-kill_reset i (c ∷ cs) h = ground (arith, In-kill_reset i cs)

In-kill_close : (i : ℕ) (cs : List ℕ) → In i cs → In (close_conn i) (kill_actions cs)
In-kill_close i [] h = elim h [ ]
In-kill_close i (c ∷ cs) h = ground (arith, In-kill_close i cs)

In-cancel_action : (x : ℕ) (o : Option ℕ) → o ≡ some x → In (cancel_context x) (cancel_action o)
In-cancel_action x none e = cc
In-cancel_action x (some y) e = inl (ground arith)

not-map_close : (x : ℕ) (cs : List ℕ) → ¬ In (cancel_context x) (map close_conn cs)
not-map_close x [] h = h
not-map_close x (c ∷ cs) h = ground (arith, not-map_close x cs)

not-map_reset : (x : ℕ) (cs : List ℕ) → ¬ In (cancel_context x) (map reset_conn cs)
not-map_reset x [] h = h
not-map_reset x (c ∷ cs) h = ground (arith, not-map_reset x cs)

not-kill : (x : ℕ) (cs : List ℕ) → ¬ In (cancel_context x) (kill_actions cs)
not-kill x [] h = h
not-kill x (c ∷ cs) h = ground (arith, not-kill x cs)

cancel_action-In : (x : ℕ) (o : Option ℕ) → In (cancel_context x) (cancel_action o) → o ≡ some x
cancel_action-In x none h = elim h [ ]
cancel_action-In x (some y) h = ground arith

-- The context that a change cancels: the old one by force, else the one before it.
abbrev pub doomed : Bool → OldInfo → Option ℕ
doomed true prev = prev.prev_cancel
doomed false prev = prev.prev_prev_cancel

pub actions-cancel :
    (b : Bool) (prev : OldInfo) (x : ℕ)
    → doomed b prev ≡ some x
    → In (cancel_context x) (actions b prev)
unfolding actions
actions-cancel true prev x e = In-append_left _ _ _ (In-cancel_action x _ e)
actions-cancel false prev x e = In-append_left _ _ _ (In-cancel_action x _ e)

pub actions-doomed :
    (b : Bool) (prev : OldInfo) (x : ℕ)
    → In (cancel_context x) (actions b prev)
    → doomed b prev ≡ some x
unfolding actions
actions-doomed true prev x h = elim (In-append_cases _ (cancel_action prev.prev_cancel) _ h) [
  | inl k ↦ cancel_action-In x _ k
  | inr k ↦ absurd (not-kill x prev.prev_conns k)
]
actions-doomed false prev x h = elim (In-append_cases _ (cancel_action prev.prev_prev_cancel) _ h) [
  | inl k ↦ cancel_action-In x _ k
  | inr k ↦ elim (In-append_cases _ (map close_conn prev.prev_prev_conns) _ k) [
    | inl j ↦ absurd (not-map_close x prev.prev_prev_conns j)
    | inr j ↦ absurd (not-map_reset x prev.prev_conns j)
  ]
]

-- In both modes the old connections are reset.
pub actions-reset :
    (b : Bool) (prev : OldInfo) (i : ℕ) → In i prev.prev_conns → In (reset_conn i) (actions b prev)
unfolding actions
actions-reset true prev i h = In-append_right _ _ _ (In-kill_reset i _ h)
actions-reset false prev i h =
    In-append_right _ (cancel_action prev.prev_prev_cancel) _
      (In-append_right _ (map close_conn prev.prev_prev_conns) _ (In-map_reset i _ h))

abbrev pub closing : Bool → OldInfo → List ℕ
closing true prev = prev.prev_conns
closing false prev = prev.prev_prev_conns

-- By force the old connections are closed, else those before them.
pub actions-close :
    (b : Bool) (prev : OldInfo) (i : ℕ) → In i (closing b prev) → In (close_conn i) (actions b prev)
unfolding actions
actions-close true prev i h = In-append_right _ _ _ (In-kill_close i _ h)
actions-close false prev i h =
    In-append_right _ (cancel_action prev.prev_prev_cancel) _
      (In-append_left _ _ _ (In-map_close i _ h))
