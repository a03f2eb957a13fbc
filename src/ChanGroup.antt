-- ===== src/ChanGroup.antt =====
-- driver.go: chanGroup, a hotload location that is being monitored, with its connections.
pub mod Steps
pub mod Invariant
pub mod Actions
pub mod Change
pub mod Preservation
pub mod Reachable
pub mod Guarantees
pub mod Quiet
pub mod Effects
pub mod Marks
pub mod Reporting
pub mod Tests
pub mod Refinement
use hotload.Prelude.{
  ℕ, ◌+◌, suc, String, Bool, true, false, Option, none, some, List, [], ◌∷◌, ◌++◌, map,
  if◌then◌else◌, update, lookup, str_eq,
}
use hotload.State.{
  State, ChanGroup, ManagedConn, DriverInstance, DriverCall, open_call, Error, Result, ok, err,
}
use hotload.Dsn.{UrlLib, Values, merge_conn_string_options}
use hotload.Conn.{ask, write, close, set_reset}

-- `newManagedConn` with the group's callback, stored at a fresh place of the heap.
unfoldable pub new_managed_conn : ℕ → String → String → ℕ → ManagedConn
new_managed_conn ctx dsn redact_dsn conn = record {
  ctx = ctx;
  dsn = dsn;
  redact_dsn = redact_dsn;
  conn = conn;
  reset = false;
  killed = false;
  after_close = true;
  exec_stmts_counter = 0;
  query_stmts_counter = 0;
}

-- `Open`. `redact_dsn` is what RedactUrl makes of the connection string.
unfoldable pub open_conn : UrlLib → State → String → State × Result ℕ
unfolding merge_conn_string_options new_managed_conn
open_conn url s redact_dsn =
    elim (merge_conn_string_options url s.group.value s.group.sql_driver.options) [
      | err e ↦ (s, err e)
      | ok dsn ↦
          let (s', r) = ask s (open_call dsn) in
          elim r [
            | err e ↦ (s', err e)
            | ok conn ↦ (
              record s' {
                group = record (s.group) { conns = s.group.conns ++ (s.next_conn ∷ []) };
                heap = update s.heap s.next_conn (new_managed_conn s.group.ctx dsn redact_dsn conn);
                next_conn = suc s.next_conn;
              },
              ok s.next_conn,
            )
          ]
    ]

-- `parseUrlValues`
unfoldable pub parse_url_values : ChanGroup → Values → ChanGroup
unfolding lookup
parse_url_values cg vs = elim (lookup "forceKill" vs) [
  | none ↦ cg
  | some [] ↦ cg
  | some (v ∷ _) ↦ record cg { force_kill = str_eq v "true" }
]

-- `context.WithCancel(cg.parentCtx)`: a fresh context that is not cancelled.
unfoldable pub with_cancel : State → State × ℕ
with_cancel s = (
  record s { next_ctx = suc s.next_ctx; canceled = update s.canceled s.next_ctx false },
  s.next_ctx,
)

-- A cancel function that may be nil.
unfoldable pub call_cancel : State → Option ℕ → State
call_cancel s none = s
call_cancel s (some x) = record s { canceled = update s.canceled x true }

pub record OldInfo : Type 0 where
  pub changed_flag : Bool
  pub prev_prev_cancel : Option ℕ
  pub prev_prev_redact_val : String
  pub prev_prev_conns : List ℕ
  pub prev_cancel : Option ℕ
  pub prev_redact_val : String
  pub prev_conns : List ℕ

abbrev pub no_change : OldInfo
no_change = record {
  changed_flag = false;
  prev_prev_cancel = none;
  prev_prev_redact_val = "";
  prev_prev_conns = [];
  prev_cancel = none;
  prev_redact_val = "";
  prev_conns = [];
}

-- `criticalSection`, which holds the group's mutex throughout.
unfoldable pub critical_section : State → String → String → State × OldInfo
unfolding with_cancel
critical_section s new_value new_redact_val =
    if str_eq new_value s.group.value
    then (s, no_change)
    else let g = s.group in
      let (s', ctx) = with_cancel s in
      (
        record s' {
          group = record g {
            prev_conns = g.conns;
            conns = [];
            prev_cancel = g.cancel;
            ctx = ctx;
            cancel = some ctx;
            prev_redact_val = g.redact_val;
            value = new_value;
            redact_val = new_redact_val;
          };
        },
        record {
          changed_flag = true;
          prev_prev_cancel = g.prev_cancel;
          prev_prev_redact_val = g.prev_redact_val;
          prev_prev_conns = g.prev_conns;
          prev_cancel = g.cancel;
          prev_redact_val = g.redact_val;
          prev_conns = g.conns;
        },
      )

-- metrics.IncHotloadChangeTotal and SetHotloadLastChangedTimestampSeconds
unfoldable pub update_metrics : State → ℕ → State
update_metrics s now = record s { change_total = s.change_total + 1; last_changed = now }

-- The loops over connections at the end of processNewValue. Errors of Close are ignored.
unfoldable pub reset_and_close_all : State → List ℕ → State
unfolding set_reset close
reset_and_close_all s [] = s
reset_and_close_all s (c ∷ cs) = reset_and_close_all (close (set_reset s c true) c).0 cs

unfoldable pub close_all : State → List ℕ → State
unfolding close
close_all s [] = s
close_all s (c ∷ cs) = close_all (close s c).0 cs

unfoldable pub reset_all : State → List ℕ → State
unfolding set_reset
reset_all s [] = s
reset_all s (c ∷ cs) = reset_all (set_reset s c true) cs

-- What processNewValue does after the critical section, once the value has changed.
unfoldable pub retire : State → OldInfo → State
unfolding call_cancel reset_and_close_all close_all reset_all
retire s prev =
    if s.group.force_kill
    then reset_and_close_all (call_cancel s prev.prev_cancel) prev.prev_conns
    else reset_all (close_all (call_cancel s prev.prev_prev_cancel) prev.prev_prev_conns)
        prev.prev_conns

unfoldable pub process_new_value : State → String → String → ℕ → State
unfolding critical_section update_metrics retire
process_new_value s new_value new_redact_val now =
    let (s', prev) = critical_section s new_value new_redact_val in
    if prev.changed_flag then retire (update_metrics s' now) prev else s'

-- What the select of runLoop receives. A value comes with its redacted form and the time.
pub data Event : Type 0 where
  parent_ends : Event
  channel_closed : Event
  new_value : String → String → ℕ → Event

-- `runLoop` over the events that it selects, and whether it has returned.
unfoldable pub run_loop : State → List Event → State × Bool
unfolding call_cancel process_new_value
run_loop s [] = (s, false)
run_loop s (parent_ends ∷ es) = (call_cancel (record s { parent_done = true }) s.group.cancel, true)
run_loop s (channel_closed ∷ es) = (s, true)
run_loop s (new_value v r now ∷ es) = run_loop (process_new_value s v r now) es
