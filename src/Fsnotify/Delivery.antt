-- ===== src/Fsnotify/Delivery.antt =====
-- What runLoop delivers of a changed file.
use hotload.Prelude.{
  ◌≡◌, refl, ◌∙◌, inl, inr, String, Bool, true, false, some, List, [], ◌∷◌, ◌++◌, arith, lookup,
  insert, lookup-insert, str_eq, eq_iff, if◌then◌else◌, Option-cases,
}
use mathlib.Core.Option
use hotload.State.{Error, ok, err, Result-cases}
use hotload.Registry.{returns, panics}
use hotload.Fsnotify.Close.{close_strategy}
use hotload.Fsnotify.{
  Strategy, PathWatch, QueryWatch, PendingOperation, send, find_path, send_all, set_val, resync,
  read_config_file,
}
use hotload.Fsnotify.Closing.{close_strategy-stops}
use hotload.Fsnotify.Loop.{Loop, Signal, event, refresh, on_event, turn}

-- The query's watch with one more operation in its buffer.
abbrev pub queued : PendingOperation → QueryWatch → QueryWatch
queued op q = record q { oper_chan = q.oper_chan ++ (op ∷ []) }

send_all-lookup :
    (op : PendingOperation) (k : String) (qs : List (String × QueryWatch))
    → lookup k (send_all op qs) ≡ Option.map (queued op) (lookup k qs)
unfolding send_all lookup
send_all-lookup op k [] = refl
send_all-lookup op k (x ∷ qs) = ground (arith, send_all-lookup op k qs)

-- The path's watch after a value was set.
abbrev updated : PathWatch → String → PathWatch
updated w val = record w { value = val; queries = send_all (send val) w.queries }

set_val-find :
    (s : Strategy) (pth val other : String) (w : PathWatch)
    → find_path s pth ≡ some w
    → (t : Strategy) × (set_val s pth val ≡ returns t)
      × (find_path t other ≡ (if str_eq pth other then some (updated w val) else find_path s other))
unfolding set_val
set_val-find s pth val other w f = elim (Option-cases s.paths) [
  | inl p ↦ ground (arith, p)
  | inr (m, p) ↦ (
    record s { paths = some (insert pth (updated w val) m) },
    ground (arith, p, f),
    ground (arith, p, lookup-insert pth other (updated w val) m),
  )
]

resync-paths : (s : Strategy) (pth : String) → (resync s pth).0.paths ≡ s.paths
unfolding resync read_config_file
resync-paths s pth = ground arith

find_path-resync :
    (s : Strategy) (pth other : String) → find_path (resync s pth).0 other ≡ find_path s other
find_path-resync s pth other = ground (arith, resync-paths s pth)

-- What one refresh makes of the watch of its path: the value that was read, and one pending send of
-- it for each query, or nothing if the resync failed.
pub data Refreshed (s : Strategy) (pth : String) (w w' : PathWatch) (fixed : Bool) : Type 0 where
  delivered :
      (val : String)
      → (resync s pth).1 ≡ ok val
      → w'.value ≡ val
      → ((qry : String)
          → lookup qry w'.queries ≡ Option.map (queued (send val)) (lookup qry w.queries))
      → fixed ≡ true
      → Refreshed s pth w w' fixed
  failed :
      (e : Error) → (resync s pth).1 ≡ err e → w' ≡ w → fixed ≡ false → Refreshed s pth w w' fixed

same_path :
    (s : Strategy) (pth other : String) (w : PathWatch)
    → find_path s pth ≡ some w
    → find_path s other ≡ (if str_eq pth other then some w else find_path s other)
same_path s pth other w f = ground (arith, f, eq_iff pth other)

refresh-Refreshed :
    (s : Strategy) (pth other : String) (w : PathWatch)
    → find_path s pth ≡ some w
    → (t : Strategy) × (fixed : Bool) × (w' : PathWatch) × (refresh s pth ≡ returns (t, fixed))
      × Refreshed s pth w w' fixed
      × (find_path t other ≡ (if str_eq pth other then some w' else find_path s other))
unfolding refresh
refresh-Refreshed s pth other w f =
    let before = find_path-resync s pth in
    elim (Result-cases (resync s pth).1) [
      | inr (x, r) ↦ (
        (resync s pth).0,
        false,
        w,
        ground (arith, r),
        failed x r refl refl,
        before other ∙ same_path s pth other w f,
      )
      | inl (val, r) ↦
          let (t, e, o) = set_val-find (resync s pth).0 pth val other w (before pth ∙ f) in
          (
            t,
            true,
            updated w val,
            ground (arith, r, e),
            delivered val r refl (λ qry. send_all-lookup (send val) qry w.queries) refl,
            ground (arith, o, before other),
          )
    ]

-- The loop after a refresh.
abbrev refreshed : Loop → String → Strategy → Bool → Loop
refreshed l pth t fixed = record l {
  strategy = t;
  failed_paths = if fixed then l.failed_paths else insert pth tt l.failed_paths;
}

turn-event :
    (l : Loop) (pth : String) (t : Strategy) (fixed : Bool)
    → l.strategy.has_watcher ≡ true
    → refresh l.strategy pth ≡ returns (t, fixed)
    → turn l (event pth true) ≡ returns (refreshed l pth t fixed)
unfolding turn on_event
turn-event l pth t fixed h e = ground (arith, h, e)

refreshed-lookup :
    (l : Loop) (pth key : String) (t : Strategy) (fixed : Bool)
    → lookup key (refreshed l pth t fixed).failed_paths ≡ (
        if fixed
        then lookup key l.failed_paths
        else if str_eq pth key
        then some tt
        else lookup key l.failed_paths)
refreshed-lookup l pth key t fixed = ground (arith, lookup-insert pth key tt l.failed_paths)

-- While the strategy has a watcher, a Write or Remove of a watched path makes runLoop go on. Either
-- the file was read, and then the path has its value, each of its queries one pending send of it,
-- and the failed paths are as before; or the resync failed, and then the path is as before and is
-- among the failed ones. Every other path is as before.
pub event-delivers :
    (l : Loop) (pth other : String) (w : PathWatch)
    → l.strategy.has_watcher ≡ true
    → find_path l.strategy pth ≡ some w
    → (k : Loop) × (fixed : Bool) × (w' : PathWatch) × (turn l (event pth true) ≡ returns k)
      × (k.returned ≡ l.returned)
      × Refreshed l.strategy pth w w' fixed
      × (find_path k.strategy other
          ≡ (if str_eq pth other then some w' else find_path l.strategy other))
      × (lookup other k.failed_paths ≡ (
          if fixed
          then lookup other l.failed_paths
          else if str_eq pth other
          then some tt
          else lookup other l.failed_paths))
event-delivers l pth other w h f =
    let (t, fixed, w', e, r, o) = refresh-Refreshed l.strategy pth other w f in
    (
      refreshed l pth t fixed,
      fixed,
      w',
      turn-event l pth t fixed h e,
      refl,
      r,
      o,
      refreshed-lookup l pth other t fixed,
    )

-- If Close returns while runLoop is between two turns, its next turn panics, whatever it would
-- receive: it calls GetEvents of a nil watcher.
pub close_strategy-turn :
    (l : Loop) (t : Strategy) (sig : Signal)
    → close_strategy l.strategy ≡ returns t
    → turn (record l { strategy = t }) sig ≡ panics
unfolding turn
close_strategy-turn l t sig e = ground (arith, close_strategy-stops l.strategy t e)
