-- ===== src/Fsnotify.antt =====
-- fsnotify/filewatcher.go: the strategy that watches files. The mutex is held for the whole of
-- each operation that takes it.
mod Tests
pub mod Close
pub mod Closing
pub mod Channels
pub mod Loop
pub mod OpLoop
pub mod Locking
pub mod Delivery
pub mod Watching
pub mod Again
use hotload.Prelude.{
  ℕ, suc, ◌+◌, String, Bool, true, false, Option, none, some, List, [], ◌∷◌, ◌++◌, lookup, insert,
  erase, count, if◌then◌else◌, ltb,
}
use mathlib.Core.Option
use hotload.State.{Error, Result, ok, err}
use hotload.Text.{trim_space, clean}
use hotload.Registry.{Outcome, returns, panics}
use hotload.PathChksum.{PathChksum, new_path_chksum, add_path}

pub data WatcherCall : Type 0 where
  construct close_watcher : WatcherCall
  add remove : String → WatcherCall

pub data PendingOperation : Type 0 where
  -- "send" with a dsn (its redacted form is only logged), "close" with a path and a query
  send : String → PendingOperation
  close : String → String → PendingOperation

-- A channel is a number; `none` is nil. `oper_chan` is the buffer, oldest first.
pub record QueryWatch : Type 0 where
  pub path_query : String
  pub update_chan : Option ℕ
  pub oper_chan : List PendingOperation

pub record PathWatch : Type 0 where
  pub watch_path : String
  pub value : String
  pub queries : List (String × QueryWatch)

-- The world of the strategy: fsnotify's watcher and the files, as functions of the watcher's calls
-- so far, and the value of HOTLOAD_PATH_CHKSUM_METRICS_ENABLE.
pub record Environment : Type 0 where
  pub failure : List WatcherCall → WatcherCall → Option Error
  pub is_non_existent_watch : Error → Bool
  pub read_file : List WatcherCall → String → Result String
  pub chksum_enable : String

-- `paths` is `none` once it is nil. `closed` lists the channels that were closed, `loops` counts
-- the runLoop and `op_loops` the opLoop threads started. `chksum` is the defaultPathChksum of package
-- metrics, which this strategy alone adds paths to.
pub record Strategy : Type 0 where
  pub env : Environment
  pub paths : Option (List (String × PathWatch))
  pub has_watcher : Bool
  pub calls : List WatcherCall
  pub next_chan : ℕ
  pub closed : List ℕ
  pub loops : ℕ
  pub op_loops : ℕ
  pub chksum : PathChksum

unfoldable pub new_strategy : Environment → Strategy
unfolding new_path_chksum
new_strategy env = record {
  env = env;
  paths = some [];
  has_watcher = false;
  calls = [];
  next_chan = 0;
  closed = [];
  loops = 0;
  op_loops = 0;
  chksum = new_path_chksum env.chksum_enable;
}

abbrev pub call_watcher : Strategy → WatcherCall → Strategy × Option Error
call_watcher s k = (record s { calls = k ∷ s.calls }, s.env.failure s.calls k)

-- `metrics.AddToDefaultPathChksum`. Watch ignores that the path was added before, and no other
-- error is answered.
unfoldable pub add_to_default_path_chksum : Strategy → String → Strategy
unfolding add_path
add_to_default_path_chksum s pth = record s { chksum = (add_path s.chksum pth).0 }

-- Reading a nil map finds nothing.
abbrev pub find_path : Strategy → String → Option PathWatch
find_path s pth = elim s.paths [ none ↦ none | some m ↦ lookup pth m ]

-- Writing to a nil map panics.
abbrev pub put_path : Strategy → String → PathWatch → Outcome Strategy
put_path s pth w = elim s.paths [
  | none ↦ panics
  | some m ↦ returns (record s { paths = some (insert pth w m) })
]

unfoldable pub read_config_file : Strategy → String → Result String
unfolding trim_space
read_config_file s pth = elim (s.env.read_file s.calls pth) [
  | err e ↦ err e
  | ok text ↦ ok (trim_space text)
]

-- The first part of Watch: a watcher, and its thread, on first use.
unfoldable pub start_watcher : Strategy → Strategy × Option Error
start_watcher s =
    if s.has_watcher
    then (s, none)
    else let (s', e) = call_watcher s construct in
      elim e [
        | some x ↦ (s', some x)
        | none ↦ (record s' { has_watcher = true; loops = s.loops + 1 }, none)
      ]

-- The last part of Watch: the path's value and the query's channel, made on first use.
unfoldable pub watch_query :
    Strategy → PathWatch → String → String → Outcome (Strategy × Result (String × Option ℕ))
watch_query s w pth qry = elim (lookup qry w.queries) [
  | some q ↦ returns (s, ok (w.value, q.update_chan))
  | none ↦
      let q : QueryWatch = record {
        path_query = qry;
        update_chan = some s.next_chan;
        oper_chan = [];
      } in
      elim (put_path (record s { next_chan = suc s.next_chan; op_loops = s.op_loops + 1 }) pth
        (record w { queries = insert qry q w.queries })) [
          | panics ↦ panics
          | returns s' ↦ returns (s', ok (w.value, some s.next_chan))
        ]
]

-- The middle part of Watch, for a path that is not watched yet.
unfoldable pub watch_path :
    Strategy → String → String → Outcome (Strategy × Result (String × Option ℕ))
unfolding read_config_file watch_query add_to_default_path_chksum
watch_path s pth qry =
    let (added, e) = call_watcher s (add pth) in
    let s' = add_to_default_path_chksum added pth in
    elim e [
      | some x ↦ returns (added, err x)
      | none ↦ elim (read_config_file s' pth) [
        | err x ↦ returns ((call_watcher s' (remove pth)).0, err x)
        | ok value ↦
            let w : PathWatch = record { watch_path = pth; value = value; queries = [] } in
            elim (put_path s' pth w) [ panics ↦ panics | returns s'' ↦ watch_query s'' w pth qry ]
      ]
    ]

-- `Watch`
unfoldable pub watch : Strategy → String → String → Outcome (Strategy × Result (String × Option ℕ))
unfolding start_watcher watch_path watch_query clean trim_space
watch s pth qry =
    let (s', e) = start_watcher s in
    elim e [
      | some x ↦ returns (s', err x)
      | none ↦ elim (find_path s' (clean pth)) [
        | some w ↦ watch_query s' w (clean pth) (trim_space qry)
        | none ↦ watch_path s' (clean pth) (trim_space qry)
      ]
    ]

-- The sends of setVal, to each query of the path. That the buffer has room, so that none of them
-- blocks, is taken for granted.
unfoldable pub send_all : PendingOperation → List (String × QueryWatch) → List (String × QueryWatch)
send_all op [] = []
send_all op ((k, q) ∷ qs) = (k, record q { oper_chan = q.oper_chan ++ (op ∷ []) }) ∷ send_all op qs

-- `setVal`
unfoldable pub set_val : Strategy → String → String → Outcome Strategy
unfolding send_all
set_val s pth val = elim (find_path s pth) [
  | none ↦ returns s
  | some w ↦ put_path s pth (record w { value = val; queries = send_all (send val) w.queries })
]

-- `CloseWatch`
unfoldable pub close_watch : Strategy → String → String → Outcome Strategy
unfolding clean trim_space
close_watch s pth qry = elim (find_path s (clean pth)) [
  | none ↦ returns s
  | some w ↦ elim (lookup (trim_space qry) w.queries) [
    | none ↦ returns s
    | some q ↦
        let op = close (clean pth) (trim_space qry) in
        put_path s (clean pth) (record w {
          queries =
              insert (trim_space qry) (record q { oper_chan = q.oper_chan ++ (op ∷ []) }) w.queries;
        })
  ]
]

-- `resync`
unfoldable pub resync : Strategy → String → Strategy × Result String
unfolding read_config_file
resync s pth =
    let (s', e) = call_watcher s (remove pth) in
    let reread : Strategy × Result String = elim (read_config_file s' pth) [
      | err x ↦ (s', err x)
      | ok text ↦
          let (s'', f) = call_watcher s' (add pth) in
          (s'', elim f [ none ↦ ok text | some x ↦ err x ])
    ] in
    elim e [
      | none ↦ reread
      | some x ↦ if s.env.is_non_existent_watch x then reread else (s', err x)
    ]
