-- ===== src/Indexer/Lifecycle.antt =====
-- indexer/lifecycle.go: `Start`, `Status`, `Touch` and `Stop`, from the lock on.
use agent_wayfinder.Prelude.{
  String, [], Bool, true, false, if◌then◌else◌, lookup, delete, Option, none, some, Result, ok, err,
}
use agent_wayfinder.Prelude.Int.{pos}
use agent_wayfinder.Indexer.{Time, Status, Owner, Worker, Manager, add_duration}
use agent_wayfinder.Indexer.Queue.{set_worker}

abbrev pub touch_worker : Manager → Time → Worker → Worker
touch_worker m now w = record w {
  status = record w.status { activity = now; idle_deadline = add_duration now m.idle };
}

unfoldable pub new_worker : Manager → String → Owner → Time → Worker
new_worker m workspace owner now = record {
  owner = owner;
  status = record {
    workspace = workspace;
    endpoint = owner.endpoint;
    running = true;
    activity = now;
    progress = record { completed = 0; total = 0 };
    queued_paths = [];
    version = 0;
    error = "";
    idle_deadline = add_duration now m.idle;
  };
  pending = [];
  pending_set = [];
  timer = none;
  publishing = false;
  stopping = false;
  retry_delay = pos 0;
  reconcile_timer = if m.reconciler then some m.reconcile else none;
}

-- `acquired` is the answer of `Acquire`, which is asked only if the workspace has no worker.
unfoldable pub start :
    Manager → String → Result String Owner → Time → Manager × Result String Status
unfolding new_worker set_worker
start m workspace acquired now = elim (lookup workspace m.workers) [
  | some w ↦ (set_worker m workspace (touch_worker m now w), ok (touch_worker m now w).status)
  | none ↦ elim acquired [
    | err e ↦ (m, err e)
    | ok owner ↦ let w = new_worker m workspace owner now in (set_worker m workspace w, ok w.status)
  ]
]

-- What `Status` and `Touch` show of a workspace with no worker.
abbrev pub no_status : String → Status
no_status workspace = record {
  workspace = workspace;
  endpoint = "";
  running = false;
  activity = 0;
  progress = record { completed = 0; total = 0 };
  queued_paths = [];
  version = 0;
  error = "";
  idle_deadline = 0;
}

unfoldable pub status : Manager → String → Status × Bool
status m workspace = elim (lookup workspace m.workers) [
  | none ↦ (no_status workspace, false)
  | some w ↦ (w.status, true)
]

unfoldable pub touch : Manager → String → Time → Manager × Status × Bool
unfolding set_worker
touch m workspace now = elim (lookup workspace m.workers) [
  | none ↦ (m, no_status workspace, false)
  | some w ↦ (set_worker m workspace (touch_worker m now w), (touch_worker m now w).status, true)
]

-- How a round of `Stop` ends: the worker is gone, the round waits for the publisher, or the lock
-- could not be given up.
pub data StopResult : Type 0 where
  stopped waits : StopResult
  close_failed : String → StopResult

abbrev pub halt : Worker → Worker
halt w = record w { stopping = true; timer = none; reconcile_timer = none }

-- The end of a round in which no `publish` runs.
unfoldable pub close_worker : Manager → String → Worker → Option String → Manager × StopResult
unfolding set_worker
close_worker m workspace w none = (record m { workers = delete workspace m.workers }, stopped)
close_worker m workspace w (some e) =
    (set_worker m workspace (record (halt w) { stopping = false }), close_failed e)

-- One round of the loop of `Stop`; `closed` is the answer of `owner.Close()`.
unfoldable pub stop_round : Manager → String → Option String → Manager × StopResult
unfolding set_worker
stop_round m workspace closed = elim (lookup workspace m.workers) [
  | none ↦ (m, stopped)
  | some w ↦
      if w.publishing
      then (set_worker m workspace (halt w), waits)
      else close_worker m workspace w closed
]
