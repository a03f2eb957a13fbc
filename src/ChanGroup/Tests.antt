-- ===== src/ChanGroup/Tests.antt =====
-- Runs of a group over a small driver, and the theorems at concrete inputs.
use hotload.Prelude.{
  str_eq, if◌then◌else◌, ℕ, ◌+◌, ◌≡◌, refl, true, false, ◌⊎◌, inl, none, List, [], ◌∷◌, In, arith,
  length, lookup, insert,
}
use hotload.State.{State, Context, DriverInstance, SqlDriver, ok, absent, close_call, open_call}
use hotload.Conn.{
  is_valid, reset_session, close, close_conn, remove, remove_mgd_conn, set_reset, get_reset,
}
use hotload.Conn.Evolves.{Closed}
use hotload.Dsn.{UrlLib, Url, Values, merge_conn_string_options}
use hotload.ChanGroup.{
  open_conn, new_managed_conn, parse_url_values, process_new_value, critical_section, with_cancel,
  update_metrics, retire, call_cancel, close_all, reset_all, reset_and_close_all, run_loop,
  new_value, parent_ends,
}
use hotload.ChanGroup.Steps.{
  Running, Move, run, step, receive, act, on_conn, see_parent, perform, actions, call_method,
  receives, acts, opens, calls_method, validates,
}
use hotload.ChanGroup.Guarantees.{start, reuse-current, conns-tracked, forced-tracked, listed-live}
use hotload.ChanGroup.Effects.{process_new_value-graceful, process_new_value-forced}
use hotload.ChanGroup.Reporting.{changes, last_change, last_value, run_loop-Reports}
use hotload.ChanGroup.Quiet.{close_calls}
use hotload.ChanGroup.Change.{switched}
use hotload.ChanGroup.Marks.{marks}
use hotload.ChanGroup.Refinement.{repeated, idle, run-process_new_value}
use hotload.HDriver.{new_chan_group, new_state}

-- The driver numbers its connections by the calls that it has seen, and never fails.
abbrev pub plain_driver : SqlDriver
plain_driver = record {
  implements = λ c i. false;
  answer = λ calls k. ok (length calls);
  failure = λ calls k. none;
  verdict = λ calls k. true;
}

abbrev pub plain : DriverInstance
plain = record { driver = plain_driver; options = [] }

abbrev pub plain_url : Url
plain_url = record {
  scheme = "fsnotify";
  host = "postgres";
  path = "/dsn";
  raw_query = "";
  remainder = "";
}

abbrev pub url : UrlLib
url = record {
  parse = λ s. ok plain_url;
  parse_request_uri = λ s. ok plain_url;
  parse_query = λ s. ok [];
  query = λ u. [];
  encode = λ v. "";
  to_string = λ u. u.path;
}

abbrev pub caller : Context
caller = record { id = 1; done = none; label_value = absent }

abbrev forced_query : Values
forced_query = ("forceKill", "true" ∷ []) ∷ []

-- Two connections, a change while a client checks one of them, and a third connection.
abbrev history : List Move
history =
    opens "r"
    ∷ opens "r"
    ∷ receives "b" "rb" 7
    ∷ acts
    ∷ calls_method 0 validates
    ∷ acts
    ∷ opens "r"
    ∷ acts
    ∷ acts
    ∷ acts
    ∷ []

program : Unit {0}
unfolding run step receive act on_conn see_parent perform call_method actions open_conn
    new_managed_conn close close_conn remove remove_mgd_conn set_reset get_reset is_valid
    reset_session new_state new_chan_group parse_url_values critical_section with_cancel
    update_metrics call_cancel merge_conn_string_options lookup insert retire close_all reset_all
    reset_and_close_all process_new_value run_loop close_calls
program = tt

abbrev graceful_start : Running
graceful_start = start "n" "a" "ra" plain [] false

abbrev forced_start : Running
forced_start = start "n" "a" "ra" plain forced_query false

forced_start_forces : forced_start.state.group.force_kill ≡ true
unfolding program
forced_start_forces = refl

reuse-current_example :
    let r = run url graceful_start history in
    (merge_conn_string_options url r.state.group.value r.state.group.sql_driver.options
      ≡ ok (r.state.heap 2).dsn)
    ⊎ Closed r.state 2
unfolding program
reuse-current_example =
    reuse-current url "n" "a" "ra" plain [] false history 2 caller refl (omega arith) refl refl

conns-tracked_example :
    let r = run url graceful_start history in
    In 0 r.state.group.conns ⊎ (In 0 r.state.group.prev_conns ⊎ Closed r.state 0)
unfolding program
conns-tracked_example = conns-tracked url "n" "a" "ra" plain [] false history 0 refl (omega arith)

forced-tracked_example :
    let r = run url forced_start history in
    (In 0 r.state.group.conns ⊎ Closed r.state 0)
    × (((r.state.heap 0).ctx ≡ r.state.group.ctx) ⊎ (r.state.canceled (r.state.heap 0).ctx ≡ true))
unfolding program
forced-tracked_example =
    forced-tracked url "n" "a" "ra" plain forced_query false history 0 refl (omega arith) refl

listed-live_example :
    let r = run url forced_start history in r.state.canceled (r.state.heap 2).ctx ≡ false
unfolding program
listed-live_example =
    listed-live url "n" "a" "ra" plain forced_query false history 2 (inl refl) refl

-- The client's check closes connection 0, and runLoop closes it once more.
forced_history_calls :
    (run url forced_start history).state.calls
    ≡ close_call 1
      ∷ close_call 0
      ∷ open_call "b"
      ∷ close_call 0
      ∷ open_call "a"
      ∷ open_call "a"
      ∷ []
unfolding program
forced_history_calls = refl

abbrev two_open : State
two_open =
    (run url graceful_start (opens "r" ∷ opens "r" ∷ receives "b" "rb" 7 ∷ acts ∷ acts ∷ [])).state

abbrev two_forced : State
two_forced = (run url forced_start (opens "r" ∷ opens "r" ∷ [])).state

process_new_value-graceful_example :
    let t = process_new_value two_open "c" "rc" 9 in
    (t.group ≡ (switched two_open "c" "rc").group)
    × (t.canceled 0 ≡ true)
    × (t.calls ≡ close_call 1 ∷ close_call 0 ∷ two_open.calls)
unfolding program
process_new_value-graceful_example = process_new_value-graceful two_open "c" "rc" 9 refl refl 0

process_new_value-forced_example :
    let t = process_new_value two_forced "c" "rc" 9 in
    (t.group ≡ (switched two_forced "c" "rc").group)
    × (t.canceled 0 ≡ true)
    × (t.calls ≡ close_call 1 ∷ close_call 0 ∷ two_forced.calls)
unfolding program
process_new_value-forced_example = process_new_value-forced two_forced "c" "rc" 9 refl refl 0

run-process_new_value_example :
    (k : ℕ) × (let r = run url (idle two_open) (receives "c" "rc" 9 ∷ repeated k) in
      (r ≡ idle (process_new_value two_open "c" "rc" 9))
      × ((i : ℕ)
          → (r.state.heap i).reset ≡ (
              if str_eq "c" two_open.group.value
              then (two_open.heap i).reset
              else marks two_open.group.conns i (two_open.heap i).reset)))
run-process_new_value_example = run-process_new_value url two_open "c" "rc" 9

run_loop-Reports_example :
    let (t, returned) =
      run_loop two_open
        (new_value "c" "rc" 9 ∷ new_value "c" "rc" 10 ∷ new_value "d" "rd" 11 ∷ parent_ends ∷ []) in
    (t.change_total ≡ two_open.change_total + 2) × (t.last_changed ≡ 11) × (t.group.value ≡ "d")
unfolding program changes last_change last_value
run_loop-Reports_example =
    run_loop-Reports two_open
      (new_value "c" "rc" 9 ∷ new_value "c" "rc" 10 ∷ new_value "d" "rd" 11 ∷ parent_ends ∷ [])
