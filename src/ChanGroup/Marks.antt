-- ===== src/ChanGroup/Marks.antt =====
-- driver.go: which connections processNewValue marks for a reset.
use hotload.Prelude.{
  ℕ, ◌≡◌, refl, ◌∙◌, ap, String, Bool, true, false, Option, none, some, List, [], ◌∷◌, arith, inl,
  inr, str_eq, Bool-cases, if◌then◌else◌, ◌==◌,
}
use hotload.State.{State}
use hotload.Conn.{close, close_conn, set_reset}
use hotload.ChanGroup.{
  OldInfo, call_cancel, update_metrics, reset_and_close_all, close_all, reset_all, retire,
  process_new_value,
}
use hotload.ChanGroup.Change.{process_new_value-same, process_new_value-changed, old_info, switched}

-- The mark of a connection, once those of a list are marked: `b` is what it was.
unfoldable pub marks : List ℕ → ℕ → Bool → Bool
marks [] i b = b
marks (c ∷ cs) i b = if c == i then true else marks cs i b

marks-true : (cs : List ℕ) (i : ℕ) → marks cs i true ≡ true
unfolding marks
marks-true [] i = refl
marks-true (c ∷ cs) i = ground (arith, marks-true cs i)

marks-first :
    (c : ℕ) (cs : List ℕ) (i : ℕ) (b : Bool)
    → marks cs i (if c == i then true else b) ≡ (if c == i then true else marks cs i b)
marks-first c cs i b = elim (Bool-cases (c == i)) [
  | inl e ↦ rw e (marks-true cs i)
  | inr e ↦ rw e refl
]

call_cancel-reset :
    (s : State) (o : Option ℕ) (i : ℕ) → ((call_cancel s o).heap i).reset ≡ (s.heap i).reset
unfolding call_cancel
call_cancel-reset s none i = refl
call_cancel-reset s (some y) i = refl

close-reset : (s : State) (c i : ℕ) → (((close s c).0).heap i).reset ≡ (s.heap i).reset
unfolding close close_conn
close-reset s c i = ground arith

set_reset-reset :
    (s : State) (c i : ℕ)
    → ((set_reset s c true).heap i).reset ≡ (if c == i then true else (s.heap i).reset)
unfolding set_reset
set_reset-reset s c i = ground arith

close_all-reset :
    (s : State) (cs : List ℕ) (i : ℕ) → ((close_all s cs).heap i).reset ≡ (s.heap i).reset
unfolding close_all
close_all-reset s [] i = refl
close_all-reset s (c ∷ cs) i = close_all-reset (close s c).0 cs i ∙ close-reset s c i

reset_all-reset :
    (s : State) (cs : List ℕ) (i : ℕ)
    → ((reset_all s cs).heap i).reset ≡ marks cs i (s.heap i).reset
unfolding reset_all marks
reset_all-reset s [] i = refl
reset_all-reset s (c ∷ cs) i =
    reset_all-reset (set_reset s c true) cs i
    ∙ ap (marks cs i) (set_reset-reset s c i)
    ∙ marks-first c cs i (s.heap i).reset

reset_and_close_all-reset :
    (s : State) (cs : List ℕ) (i : ℕ)
    → ((reset_and_close_all s cs).heap i).reset ≡ marks cs i (s.heap i).reset
unfolding reset_and_close_all marks
reset_and_close_all-reset s [] i = refl
reset_and_close_all-reset s (c ∷ cs) i =
    reset_and_close_all-reset (close (set_reset s c true) c).0 cs i
    ∙ ap (marks cs i) (close-reset (set_reset s c true) c i ∙ set_reset-reset s c i)
    ∙ marks-first c cs i (s.heap i).reset

retire_branch-reset :
    (b : Bool) (s : State) (prev : OldInfo) (i : ℕ)
    → let t =
        if b
        then reset_and_close_all (call_cancel s prev.prev_cancel) prev.prev_conns
        else reset_all
            (close_all (call_cancel s prev.prev_prev_cancel) prev.prev_prev_conns)
            prev.prev_conns in
      (t.heap i).reset ≡ marks prev.prev_conns i (s.heap i).reset
retire_branch-reset true s prev i =
    reset_and_close_all-reset (call_cancel s prev.prev_cancel) prev.prev_conns i
    ∙ ap (marks prev.prev_conns i) (call_cancel-reset s prev.prev_cancel i)
retire_branch-reset false s prev i =
    let t = call_cancel s prev.prev_prev_cancel in
    reset_all-reset (close_all t prev.prev_prev_conns) prev.prev_conns i
    ∙ ap (marks prev.prev_conns i)
        (close_all-reset t prev.prev_prev_conns i ∙ call_cancel-reset s prev.prev_prev_cancel i)

retire-reset :
    (s : State) (prev : OldInfo) (i : ℕ)
    → ((retire s prev).heap i).reset ≡ marks prev.prev_conns i (s.heap i).reset
unfolding retire
retire-reset s prev i = retire_branch-reset s.group.force_kill s prev i

-- For a value that differs, with forceKill or without, the connections that were in the group are
-- marked and no other mark moves.
pub process_new_value-marks :
    (s : State) (v redacted : String) (time i : ℕ)
    → ((process_new_value s v redacted time).heap i).reset ≡ (
        if str_eq v s.group.value then (s.heap i).reset else marks s.group.conns i (s.heap i).reset)
unfolding update_metrics
process_new_value-marks s v redacted time i = elim (Bool-cases (str_eq v s.group.value)) [
  | inl e ↦ rw (process_new_value-same s v redacted time e, e) refl
  | inr e ↦
      rw (process_new_value-changed s v redacted time e, e)
        (retire-reset (update_metrics (switched s v redacted) time) (old_info s) i)
]
