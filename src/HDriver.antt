-- ===== src/HDriver.antt =====
-- driver.go: hdriver, which finds or makes the group of a location and opens a connection in it.
mod Tests
pub mod Opening
use hotload.Prelude.{ℕ, String, Bool, false, none, some, List, [], ◌∷◌, lookup, insert}
use hotload.State.{
  State, ChanGroup, ManagedConn, DriverInstance, unsupported_strategy, unknown_driver, Result, ok,
  err,
}
use hotload.Dsn.{Url, UrlLib, Values}
use hotload.ChanGroup.{open_conn, parse_url_values}
use hotload.Registry.{Registry, StrategyCall, watch_call}

-- `cgroup` holds each group with its own heap and contexts; `done` is whether `ctx` is done.
pub record HDriver : Type 0 where
  pub registry : Registry
  pub cgroup : List (String × State)
  pub done : Bool

-- A heap cell that nothing has been stored in.
abbrev pub blank : ManagedConn
blank = record {
  ctx = 0;
  dsn = "";
  redact_dsn = "";
  conn = 0;
  reset = false;
  killed = false;
  after_close = false;
  exec_stmts_counter = 0;
  query_stmts_counter = 0;
}

-- The literal of `Open`, after parseUrlValues. The group's first context is 0.
unfoldable pub new_chan_group : String → String → String → DriverInstance → Values → ChanGroup
unfolding parse_url_values
new_chan_group name value redact_val d query =
    parse_url_values
      (record {
        name = name;
        value = value;
        redact_val = redact_val;
        ctx = 0;
        cancel = some 0;
        sql_driver = d;
        force_kill = false;
        conns = [];
        prev_cancel = none;
        prev_redact_val = "";
        prev_conns = [];
      })
      query

unfoldable pub new_state : ChanGroup → Bool → State
new_state g done = record {
  group = g;
  heap = λ i. blank;
  next_conn = 0;
  canceled = λ x. false;
  next_ctx = 1;
  parent_done = done;
  calls = [];
  change_total = 0;
  last_changed = 0;
  samples = [];
}

abbrev pub log_watch : HDriver → StrategyCall → HDriver
log_watch h k = record h {
  registry = record (h.registry) { strategy_calls = k ∷ h.registry.strategy_calls };
}

-- `Open` in a group: the group's state is stored back under its name.
unfoldable pub open_in : UrlLib → HDriver → String → State → String → HDriver × Result ℕ
unfolding open_conn insert
open_in url h name s redact_dsn =
    let (s', r) = open_conn url s redact_dsn in (record h { cgroup = insert name s' h.cgroup }, r)

-- The part of `Open` that makes a new group. The redacted forms are what RedactUrl answers.
unfoldable pub open_new : UrlLib → HDriver → String → Url → String → String → HDriver × Result ℕ
unfolding lookup open_in new_chan_group new_state
open_new url h name uri redact_val redact_dsn = elim (lookup uri.scheme h.registry.strategies) [
  | none ↦ (h, err unsupported_strategy)
  | some strategy ↦ elim (lookup uri.host h.registry.sql_drivers) [
    | none ↦ (h, err unknown_driver)
    | some d ↦
        let query = url.query uri in
        let params = url.encode query in
        let h' = log_watch h (watch_call uri.scheme uri.path params) in
        elim (strategy.watch h.registry.strategy_calls uri.path params) [
          | err e ↦ (h', err e)
          | ok value ↦
              let target : DriverInstance = record {
                driver = d.driver name;
                options = d.options;
              } in
              open_in url h' name
                (new_state (new_chan_group name value redact_val target query) h.done) redact_dsn
        ]
  ]
]

-- `Open`
unfoldable pub open_driver : UrlLib → HDriver → String → String → String → HDriver × Result ℕ
unfolding lookup open_in open_new
open_driver url h name redact_val redact_dsn = elim (url.parse name) [
  | err e ↦ (h, err e)
  | ok uri ↦ elim (lookup name h.cgroup) [
    | some s ↦ open_in url h name s redact_dsn
    | none ↦ open_new url h name uri redact_val redact_dsn
  ]
]
