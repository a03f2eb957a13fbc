-- ===== src/ChanGroup/Refinement.antt =====
-- processNewValue, run alone, is the moves of runLoop in a row.
use hotload.Prelude.{
  ℕ, zero, suc, ◌≡◌, refl, sym, ◌∙◌, ap, String, Bool, true, false, inl, inr, Option, some, none,
  List, [], ◌∷◌, ◌++◌, map, length, str_eq, Bool-cases, if◌then◌else◌,
}
use hotload.State.{State}
use hotload.Dsn.{UrlLib}
use hotload.ChanGroup.{
  OldInfo, call_cancel, update_metrics, reset_and_close_all, close_all, reset_all, retire,
  process_new_value,
}
use hotload.ChanGroup.Steps.{
  Action, perform, perform_all, cancel_action, kill_actions, actions, reset_conn, close_conn,
  Running, Move, receives, acts, step, run,
}
use hotload.ChanGroup.Marks.{marks, process_new_value-marks}
use hotload.ChanGroup.Change.{
  receive-same, receive-changed, process_new_value-same, process_new_value-changed, old_info,
  switched,
}

perform_all-append :
    (s : State) (xs ys : List Action) → perform_all s (xs ++ ys) ≡ perform_all (perform_all s xs) ys
unfolding perform_all
perform_all-append s [] ys = refl
perform_all-append s (x ∷ xs) ys = perform_all-append (perform s x) xs ys

cancel_action-perform :
    (s : State) (o : Option ℕ) → perform_all s (cancel_action o) ≡ call_cancel s o
unfolding perform_all perform
cancel_action-perform s none = refl
cancel_action-perform s (some x) = refl

kill_actions-perform :
    (s : State) (cs : List ℕ) → perform_all s (kill_actions cs) ≡ reset_and_close_all s cs
unfolding perform_all perform reset_and_close_all
kill_actions-perform s [] = refl
kill_actions-perform s (c ∷ cs) =
    kill_actions-perform (perform (perform s (reset_conn c)) (close_conn c)) cs

close_all-perform : (s : State) (cs : List ℕ) → perform_all s (map close_conn cs) ≡ close_all s cs
unfolding perform_all perform close_all
close_all-perform s [] = refl
close_all-perform s (c ∷ cs) = close_all-perform (perform s (close_conn c)) cs

reset_all-perform : (s : State) (cs : List ℕ) → perform_all s (map reset_conn cs) ≡ reset_all s cs
unfolding perform_all perform reset_all
reset_all-perform s [] = refl
reset_all-perform s (c ∷ cs) = reset_all-perform (perform s (reset_conn c)) cs

-- The two branches of `retire`, at any value of the test.
retire_branch :
    (b : Bool) (s : State) (prev : OldInfo)
    → perform_all s (actions b prev) ≡ (
        if b
        then reset_and_close_all (call_cancel s prev.prev_cancel) prev.prev_conns
        else reset_all
            (close_all (call_cancel s prev.prev_prev_cancel) prev.prev_prev_conns)
            prev.prev_conns)
unfolding actions
retire_branch true s prev =
    rw (perform_all-append, cancel_action-perform) (kill_actions-perform _ prev.prev_conns)
retire_branch false s prev =
    rw (perform_all-append, cancel_action-perform, perform_all-append, close_all-perform)
      (reset_all-perform _ prev.prev_conns)

retire-perform :
    (s : State) (prev : OldInfo) → perform_all s (actions s.group.force_kill prev) ≡ retire s prev
unfolding retire
retire-perform s prev = retire_branch s.group.force_kill s prev

abbrev pub repeated : ℕ → List Move
repeated zero = []
repeated (suc n) = acts ∷ repeated n

run-acts :
    (url : UrlLib) (s : State) (todo : List Action) (b : Bool)
    → run url (record { state = s; pending = todo; looping = b }) (repeated (length todo))
      ≡ record { state = perform_all s todo; pending = []; looping = b }
unfolding run step perform_all
run-acts url s [] b = refl
run-acts url s (a ∷ todo) b = run-acts url (perform s a) todo b

abbrev pub idle : State → Running
idle s = record { state = s; pending = []; looping = true }

to_process_new_value :
    (url : UrlLib) (s : State) (v redacted : String) (now : ℕ)
    → (k : ℕ) × (run url (idle s) (receives v redacted now ∷ repeated k)
        ≡ idle (process_new_value s v redacted now))
unfolding run step update_metrics
to_process_new_value url s v redacted now = elim (Bool-cases (str_eq v s.group.value)) [
  | inl same ↦ (
    0,
    receive-same (idle s) v redacted now same
        ∙ ap idle (sym (process_new_value-same s v redacted now same)),
  )
  | inr new ↦
      let after = update_metrics (switched s v redacted) now in
      let todo = actions s.group.force_kill (old_info s) in
      (
        length todo,
        ap (λ r. run url r (repeated (length todo))) (receive-changed (idle s) v redacted now new)
            ∙ run-acts url after todo true
            ∙ ap idle (retire-perform after (old_info s))
            ∙ ap idle (sym (process_new_value-changed s v redacted now new)),
      )
]

-- The moves of runLoop for one value, with nobody in between, end with nothing pending and in the
-- state of processNewValue, and what they marked for a reset is described apart from both: for the
-- value that the group has, no mark moves; for another, with forceKill or without, the connections
-- that the group had before are marked and every other connection has the mark that it had.
pub run-process_new_value :
    (url : UrlLib) (s : State) (v redacted : String) (now : ℕ)
    → (k : ℕ) × (let r = run url (idle s) (receives v redacted now ∷ repeated k) in
        (r ≡ idle (process_new_value s v redacted now))
        × ((i : ℕ)
            → (r.state.heap i).reset ≡ (
                if str_eq v s.group.value
                then (s.heap i).reset
                else marks s.group.conns i (s.heap i).reset)))
run-process_new_value url s v redacted now =
    let (k, e) = to_process_new_value url s v redacted now in
    (k, (e, λ i. ap (λ r. (r.state.heap i).reset) e ∙ process_new_value-marks s v redacted now i))
