-- ===== src/Indexer/Queue.antt =====
-- indexer/queue.go: `Enqueue`, `publish` and `reconcileWorkspace`. An operation that holds the lock
-- throughout is one function; `publish` and `reconcileWorkspace` give the lock up around their
-- callback, and are a beginning and an end.
pub mod Backoff
pub mod Shrinking
use agent_wayfinder.Prelude.{
  String, List, [], ◌∷◌, ◌++◌, Bool, true, false, not, ◌&&◌, ◌||◌, if◌then◌else◌, contains, lookup,
  insert, is_empty, is_found, Option, none, some, Result, ok, err,
}
use agent_wayfinder.Prelude.Int.{ℤ, pos, ltb_ℤ, eq_ℤ, double64}
use agent_wayfinder.Indexer.{Duration, Event, Batch, Status, Worker, Manager}
use agent_wayfinder.Indexer.EventPath.{PathError, normalize_event_path, unique_paths}
use Prim.Native.String

pub data EnqueueError : Type 0 where
  not_running : EnqueueError
  bad_path : PathError → EnqueueError

unfoldable pub set_worker : Manager → String → Worker → Manager
set_worker m workspace w = record m { workers = insert workspace w m.workers }

-- The loop of `Enqueue`. It returns early at a path that is refused, with the paths before it
-- queued.
unfoldable pub enqueue_paths : String → Worker → List Event → Worker × Option PathError
enqueue_paths workspace w [] = (w, none)
enqueue_paths workspace w (event ∷ events) = elim (normalize_event_path workspace event.path) [
  | err e ↦ (w, some e)
  | ok path ↦
      enqueue_paths workspace
        (if contains w.pending_set path
          then w
          else record w { pending_set = path ∷ w.pending_set; pending = w.pending ++ path ∷ [] })
        events
]

-- `schedulePublishLocked` behind its guard.
unfoldable pub schedule_publish : Duration → Worker → Worker
schedule_publish throttle w =
    if not (is_empty w.pending) && not w.publishing && not (is_found w.timer)
    then record w { timer = some throttle }
    else w

unfoldable pub after_enqueue : Duration → Worker × Option PathError → Worker × Option EnqueueError
unfolding schedule_publish
after_enqueue throttle (w, some e) = (w, some (bad_path e))
after_enqueue throttle (w, none) = (
  schedule_publish throttle (record w { status = record w.status { queued_paths = w.pending } }),
  none,
)

unfoldable pub enqueue_worker :
    Duration → String → Worker → List Event → Worker × Option EnqueueError
unfolding after_enqueue
enqueue_worker throttle workspace w events =
    if w.stopping
    then (w, some not_running)
    else after_enqueue throttle (enqueue_paths workspace w events)

-- `Enqueue`, from the lock on; `workspace` is the absolute root.
unfoldable pub enqueue : Manager → String → List Event → Manager × Option EnqueueError
unfolding set_worker
enqueue m workspace events = elim (lookup workspace m.workers) [
  | none ↦ (m, some not_running)
  | some w ↦
      let (w', e) = enqueue_worker m.throttle workspace w events in (set_worker m workspace w', e)
]

-- The first critical section of `publish`: the batch is taken, or nothing is done.
unfoldable pub begin_worker : Worker → Option (Worker × List String)
begin_worker w =
    if w.stopping || w.publishing || is_empty w.pending
    then none
    else some (
      record w {
        pending = [];
        pending_set = [];
        status = record w.status { queued_paths = [] };
        timer = none;
        publishing = true;
      },
      w.pending,
    )

unfoldable pub begin_publish : Manager → String → Manager × Option Batch
begin_publish m workspace = elim (lookup workspace m.workers) [
  | none ↦ (m, none)
  | some w ↦ elim (begin_worker w) [
    | none ↦ (m, none)
    | some (w', paths) ↦
        (set_worker m workspace w', some (record { workspace = workspace; paths = paths }))
  ]
]

-- How the publisher comes back: it returns nil, returns an error, or panics.
pub data Outcome : Type 0 where
  published : Outcome
  failed panicked : String → Outcome

-- `callPublisher` turns a panic into an error.
unfoldable pub call_publisher : Outcome → Option String
call_publisher published = none
call_publisher (failed e) = some e
call_publisher (panicked r) = some (String.◌++◌ "publish batch: " r)

unfoldable pub next_delay : Manager → Duration → Duration
next_delay m delay =
    if eq_ℤ delay (pos 0)
    then m.retry_base
    else let doubled = double64 delay in if ltb_ℤ m.retry_max doubled then m.retry_max else doubled

-- The result of the publisher on the worker.
unfoldable pub settle : Manager → List String → Option String → Worker → Worker
unfolding next_delay
settle m paths none w = record w {
  publishing = false;
  status = record w.status { error = "" };
  retry_delay = pos 0;
}
settle m paths (some e) w =
    let pending = unique_paths (paths ++ w.pending) in
    record w {
      publishing = false;
      status = record w.status { error = e; queued_paths = pending };
      pending = pending;
      pending_set = pending;
      retry_delay = next_delay m w.retry_delay;
    }

unfoldable pub reschedule : Manager → Option String → Worker → Worker
reschedule m e w =
    if not (is_empty w.pending) && not w.stopping && not (is_found w.timer)
    then record w { timer = some (if is_found e then w.retry_delay else m.throttle) }
    else w

unfoldable pub end_worker : Manager → List String → Outcome → Worker → Worker
unfolding settle reschedule call_publisher
end_worker m paths outcome w = let e = call_publisher outcome in reschedule m e (settle m paths e w)

-- The second critical section of `publish`. It keeps the worker that it looked up before; a worker
-- that publishes stays in the map, since `Stop` waits for it.
unfoldable pub end_publish : Manager → String → List String → Outcome → Manager
unfolding end_worker
end_publish m workspace paths outcome = elim (lookup workspace m.workers) [
  | none ↦ m
  | some w ↦ set_worker m workspace (end_worker m paths outcome w)
]

-- `reconcileWorkspace` up to the call of the reconciler, which is made if the flag is true.
unfoldable pub begin_reconcile : Manager → String → Manager × Bool
begin_reconcile m workspace = elim (lookup workspace m.workers) [
  | none ↦ (m, false)
  | some w ↦
      if w.stopping || not m.reconciler
      then (m, false)
      else (set_worker m workspace (record w { reconcile_timer = none }), true)
]

-- Its end, with the error of the reconciler or of the `Enqueue` between.
unfoldable pub end_reconcile : Manager → String → Option String → Manager
end_reconcile m workspace e = elim (lookup workspace m.workers) [
  | none ↦ m
  | some w ↦
      if w.stopping
      then m
      else set_worker m workspace (record w {
        status = elim e [
          | none ↦ w.status
          | some text ↦ record w.status { error = String.◌++◌ "reconcile workspace: " text }
        ];
        reconcile_timer = some m.reconcile;
      })
]
