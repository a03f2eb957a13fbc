-- ===== src/EndToEnd/Tests.antt =====
-- A file that changes while its query's thread still has a value to send, and a file with two queries.
use hotload.Prelude.{
  AllBelow, ℕ, ◌+◌, ◌≤◌, ◌≡◌, refl, true, false, some, none, [], ◌∷◌, ◌++◌, All, arith, lookup,
}
use hotload.State.{State, DriverInstance, ok}
use hotload.Text.{trim_space}
use hotload.Registry.{returns}
use hotload.HDriver.{new_chan_group, new_state}
use hotload.ChanGroup.{run_loop}
use hotload.Fsnotify.{
  Environment, PathWatch, QueryWatch, send, construct, add, find_path, resync, read_config_file,
}
use hotload.Fsnotify.Loop.{Loop, event, turn}
use hotload.Fsnotify.OpLoop.{
  OpLoop, idle, blocked, start, enqueue, process, check, begin_send, hand_over, enqueues, processes,
  begins, hands_over, Step, Reach, here, next,
}
use hotload.Fsnotify.OpLoop.Fifo.{sends}
use hotload.Fsnotify.Locking.{
  System, free, sending as sending_lock, new_system, send_next, Works, set_vals, works, done,
  sends_next, called, begun,
}
use hotload.Fsnotify.Locking.Measure.{measure}
use hotload.EndToEnd.AllGroups.{Informed, sending-reaches_groups}
use hotload.EndToEnd.{arrivals}
use hotload.EndToEnd.Delivered.{at_rest-value, event-reaches_group}

abbrev file : Environment
file = record {
  failure = λ calls k. none;
  is_non_existent_watch = λ e. false;
  chksum_enable = "yes";
  read_file = λ calls pth. ok " third\n";
}

abbrev fresh_query : QueryWatch
fresh_query = record { path_query = "q"; update_chan = some 0; oper_chan = [] }

-- The first value is being sent, and the second waits in the buffer.
abbrev sending : OpLoop
sending = record {
  watch = record fresh_query { oper_chan = send "second" ∷ [] };
  phase = blocked "first";
  closed = false;
  received = [];
  closures = [];
  enqueued = send "first" ∷ send "second" ∷ [];
  dropped = [];
}

sending_reached : Reach (start fresh_query) sending
unfolding start enqueue process check begin_send
sending_reached =
    let s0 = start fresh_query in
    let s1 = enqueue s0 (send "first") in
    let s2 = process s1 (send "first") [] in
    let s3 = enqueue s2 (send "second") in
    let r1 : Reach s0 s1 = next here (enqueues s0 (send "first") (omega arith)) in
    let r2 : Reach s0 s2 = next r1 (processes s1 (send "first") [] refl refl) in
    let r3 : Reach s0 s3 = next r2 (enqueues s2 (send "second") (omega arith)) in
    next r3 (begins s3 "first" refl)

abbrev file_watch : PathWatch
file_watch = record { watch_path = "/a"; value = "second"; queries = ("q", sending.watch) ∷ [] }

abbrev looping : Loop
looping = record {
  strategy = record {
    env = file;
    paths = some (("/a", file_watch) ∷ []);
    has_watcher = true;
    calls = add "/a" ∷ construct ∷ [];
    next_chan = 1;
    closed = [];
    loops = 1;
    op_loops = 1;
    chksum = record { enabled = false; paths = []; registered = [] };
  };
  failed_paths = [];
  returned = false;
}

abbrev silent_driver : DriverInstance
silent_driver = record {
  driver = record {
    implements = λ c i. false;
    answer = λ calls k. ok 0;
    failure = λ calls k. none;
    verdict = λ calls k. true;
  };
  options = [];
}

-- The group as Open made it, when the file had another value.
abbrev group : State
group = new_state (new_chan_group "n" "zeroth" "r" silent_driver []) false

abbrev clock : ℕ → ℕ
clock n = n

event-reaches_group_example :
    (k : Loop) × (w' : PathWatch) × (t : OpLoop) × (turn looping (event "/a" true) ≡ returns k)
    × (k.returned ≡ looping.returned)
    × (find_path k.strategy "/a" ≡ some w')
    × (w'.value ≡ "third")
    × (lookup "q" w'.queries ≡ some ((enqueue sending (send "third")).watch))
    × Step sending (enqueue sending (send "third"))
    × Reach (enqueue sending (send "third")) t
    × (t.received ≡ sends sending.enqueued ++ ("third" ∷ []))
    × ((run_loop group (arrivals (λ v. v) clock 0 t.received)).0.group.value ≡ "third")
unfolding resync read_config_file lookup trim_space
event-reaches_group_example =
    event-reaches_group (λ v. v) clock looping "/a" "q" "third" file_watch fresh_query 0 sending
      group refl refl refl refl (omega arith) sending_reached refl refl (tt, tt) (omega arith)

-- The first value was received, and nothing else is to be sent.
abbrev resting : OpLoop
resting = record {
  watch = fresh_query;
  phase = idle;
  closed = false;
  received = "first" ∷ [];
  closures = [];
  enqueued = send "first" ∷ [];
  dropped = [];
}

resting_reached : Reach (start fresh_query) resting
unfolding start enqueue process check begin_send hand_over
resting_reached =
    let s0 = start fresh_query in
    let s1 = enqueue s0 (send "first") in
    let s2 = process s1 (send "first") [] in
    let s3 = begin_send s2 (some 0) "first" in
    let r1 : Reach s0 s1 = next here (enqueues s0 (send "first") (omega arith)) in
    let r2 : Reach s0 s2 = next r1 (processes s1 (send "first") [] refl refl) in
    let r3 : Reach s0 s3 = next r2 (begins s2 "first" refl) in
    next r3 (hands_over s3 "first" refl refl)

at_rest-value_example :
    let (t, returned) = run_loop group (arrivals (λ v. v) clock 0 ("first" ∷ [])) in
    (t.group.value ≡ "first") × (returned ≡ false)
at_rest-value_example =
    at_rest-value (λ v. v) clock fresh_query 0 resting group [] "first" refl (omega arith)
      resting_reached refl refl refl refl

-- setVal has the mutex for both queries of a file, and then has sent to the first.
abbrev queries : ℕ → QueryWatch
queries i = record { path_query = "q"; update_chan = some i; oper_chan = [] }

abbrev called_once : System
called_once = record (new_system queries) { lock = sending_lock (send "a") (0 ∷ 1 ∷ []) }

abbrev sent_once : System
sent_once = send_next called_once (send "a") 0 (1 ∷ [])

sending-reaches_groups_example :
    (j : ℕ) × (u : System) × Works 2 sent_once j u
    × (1 + j ≤ measure 2 called_once)
    × (u.lock ≡ free)
    × All
        (λ i.
          (run_loop group (arrivals (λ v. v) clock 0 (u.thread i).received)).0.group.value ≡ "a")
        (0 ∷ 1 ∷ [])
    × AllBelow 2 (λ i. Informed (λ v. v) clock group (u.thread i))
unfolding new_system start
sending-reaches_groups_example =
    sending-reaches_groups (λ v. v) clock 2 queries (λ i. i) (λ i. group) "a" (0 ∷ 1 ∷ [])
      called_once 1 sent_once (λ i. refl) (λ i. refl)
      (called begun
        (set_vals (new_system queries) "a" (0 ∷ 1 ∷ []) refl (omega arith, (omega arith, tt))))
      refl
      (works done (sends_next called_once (send "a") 0 (1 ∷ []) (omega arith) refl (omega arith)))
