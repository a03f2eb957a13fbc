-- ===== src/Fsnotify/Loop.antt =====
-- fsnotify/filewatcher.go: the thread runLoop, over what its select receives. Go's map failedPaths
-- is an association list, whose order is that in which Go ranges over it.
use hotload.Prelude.{String, Bool, true, false, List, [], ◌∷◌, insert, erase, if◌then◌else◌}
use hotload.State.{ok, err}
use hotload.Registry.{Outcome, returns, panics}
use hotload.Fsnotify.{Strategy, resync, set_val}

-- An event has a path, and whether it is a Write or a Remove.
pub data Signal : Type 0 where
  event : String → Bool → Signal
  events_closed watcher_error errors_closed resync_timeout : Signal

pub record Loop : Type 0 where
  pub strategy : Strategy
  pub failed_paths : List (String × Unit {0})
  pub returned : Bool

-- resync and then setVal, or its error, for one path. `fixed` is whether it succeeded.
unfoldable pub refresh : Strategy → String → Outcome (Strategy × Bool)
unfolding resync set_val
refresh s pth =
    let (s', r) = resync s pth in
    elim r [
      | err x ↦ returns (s', false)
      | ok val ↦ elim (set_val s' pth val) [ panics ↦ panics | returns t ↦ returns (t, true) ]
    ]

unfoldable pub on_event : Loop → String → Outcome Loop
unfolding refresh insert
on_event l pth = elim (refresh l.strategy pth) [
  | panics ↦ panics
  | returns (t, fixed) ↦ returns (record l {
    strategy = t;
    failed_paths = if fixed then l.failed_paths else insert pth tt l.failed_paths;
  })
]

-- The loop over failedPaths, with the paths that were fixed.
unfoldable pub retry_paths : Strategy → List (String × Unit {0}) → Outcome (Strategy × List String)
unfolding refresh
retry_paths s [] = returns (s, [])
retry_paths s ((pth, u) ∷ rest) = elim (refresh s pth) [
  | panics ↦ panics
  | returns (t, fixed) ↦ elim (retry_paths t rest) [
    | panics ↦ panics
    | returns (v, paths) ↦ returns (v, if fixed then pth ∷ paths else paths)
  ]
]

unfoldable pub delete_paths : List String → List (String × Unit {0}) → List (String × Unit {0})
unfolding erase
delete_paths [] failed = failed
delete_paths (pth ∷ fixed) failed = delete_paths fixed (erase pth failed)

-- One turn, from the moment the select is entered. Close leaves the watcher nil, and the select's call of its GetEvents then panics.
unfoldable pub turn : Loop → Signal → Outcome Loop
unfolding on_event retry_paths delete_paths
turn l sig =
    let received : Outcome Loop = elim sig [
      | event pth changes ↦ if changes then on_event l pth else returns l
      | events_closed ↦ returns (record l { returned = true })
      | watcher_error ↦ returns l
      | errors_closed ↦ returns (record l { returned = true })
      | resync_timeout ↦ elim (retry_paths l.strategy l.failed_paths) [
        | panics ↦ panics
        | returns (t, fixed) ↦
            returns (record l { strategy = t; failed_paths = delete_paths fixed l.failed_paths })
      ]
    ] in
    if l.strategy.has_watcher then received else panics

-- `runLoop` over the signals that it receives.
unfoldable pub event_loop : Loop → List Signal → Outcome Loop
unfolding turn
event_loop l [] = returns l
event_loop l (sig ∷ sigs) = elim (turn l sig) [
  | panics ↦ panics
  | returns k ↦ let rest = event_loop k sigs in if k.returned then returns k else rest
]
