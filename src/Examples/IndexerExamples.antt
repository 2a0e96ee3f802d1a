-- ===== src/Examples/IndexerExamples.antt =====
-- indexer/queue.go and indexer/lifecycle.go at one workspace.
use agent_wayfinder.Prelude.{
  String, List, [], ◌∷◌, ◌≡◌, ◌≢◌, ◌↔◌, refl, some, none, ok, err, Has, All, IsDistinct, lookup,
  insert, contains, arith, eq_iff, ◌++◌, true, false,
}
use agent_wayfinder.Prelude.Int.{pos, ◌<ℤ◌, double64}
use agent_wayfinder.Indexer.{Event, Worker, Manager}
use agent_wayfinder.Indexer.EventPath.{
  normalize_event_path, outside_workspace, unique_paths, is_parent_path,
}
use agent_wayfinder.Indexer.EventPath.Unique.{unique_paths-append}
use agent_wayfinder.Indexer.Options.{
  with_idle_timeout, new_manager, max_retry_backoff, default_manager,
}
use agent_wayfinder.Indexer.Options.Bounds.{IsPositive, new_manager-IsPositive}
use agent_wayfinder.Indexer.Queue.{
  Outcome, published, failed, panicked, enqueue, bad_path, enqueue_worker, enqueue_paths,
  set_worker, end_worker,
}
use agent_wayfinder.Indexer.Queue.Backoff.{settle_all, streak, backoff, retry_backoff}
use agent_wayfinder.Indexer.Queue.Shrinking.{overlong, retry_delay_shrinks}
use agent_wayfinder.Indexer.Lifecycle.{start, new_worker, stop_round, close_failed}
use agent_wayfinder.Indexer.System.{
  Action, started, enqueued, fired, returned, stop_tried, step, run, initial,
}
use agent_wayfinder.Indexer.System.Invariant.{run-Inv}
use agent_wayfinder.Indexer.System.Cells.{Inv}
use agent_wayfinder.Indexer.System.Accounts.{IsAccounted}
use agent_wayfinder.Indexer.System.Enqueued.{enqueue_loses_nothing}
use agent_wayfinder.Indexer.System.Liveness.{AllAwake, run-AllAwake}
use agent_wayfinder.Indexer.System.Stranded.{IsStranded, stop-IsStranded, enqueue-IsStranded}
use agent_wayfinder.Paths.{clean, join_path, rel, split, join, is_abs, strip_common, push_segment}

inside : normalize_event_path "/repo" "src/../main.go" ≡ ok "main.go"
unfolding normalize_event_path is_parent_path clean join_path rel split join is_abs strip_common
    push_segment
inside = refl

outside : normalize_event_path "/repo" "../main.go" ≡ err (outside_workspace "/main.go")
unfolding normalize_event_path is_parent_path clean join_path rel split join is_abs strip_common
    push_segment
outside = refl

abbrev event : String → Event
event p = record { path = p }

abbrev opening : List Action
opening = started "/repo" (ok (record { endpoint = "/repo/indexer.sock" })) 0 ∷ []

abbrev rest : List Action
rest = fired "/repo" ∷ returned 0 (failed "disk full") ∷ stop_tried "/other" none ∷ []

run-Inv_example : Inv (run (initial []) (opening ++ rest))
run-Inv_example = run-Inv [] (opening ++ rest)

accepted : (enqueue (run (initial []) opening).manager "/repo" (event "main.go" ∷ [])).1 ≡ none
unfolding run initial step new_manager start new_worker set_worker enqueue enqueue_worker
    enqueue_paths normalize_event_path is_parent_path clean join_path rel contains lookup insert
accepted = refl

other_spared : ◌≢◌ {A = String} "/other" "/repo"
other_spared = ground (arith, eq_iff "/other" "/repo")

enqueue_loses_nothing_example :
    All
      (λ (e : Event).
        (p : String) × (normalize_event_path "/repo" e.path ≡ ok p)
        × IsAccounted
            (run (initial []) opening).begun
            (run (step (run (initial []) opening) (enqueued "/repo" (event "main.go" ∷ []))) rest)
            "/repo"
            p)
      (event "main.go" ∷ [])
enqueue_loses_nothing_example =
    enqueue_loses_nothing [] opening rest "/repo" (event "main.go" ∷ []) accepted
      (tt, (tt, (other_spared, tt)))

main_path : normalize_event_path "/repo" "main.go" ≡ ok "main.go"
unfolding normalize_event_path is_parent_path clean join_path rel
main_path = refl

abbrev smooth : List Action
smooth = enqueued "/repo" (event "main.go" ∷ []) ∷ fired "/repo" ∷ []

run-AllAwake_example : AllAwake (run (initial []) smooth)
run-AllAwake_example = run-AllAwake [] smooth ((("main.go", main_path), tt), (tt, tt))

new_manager-IsPositive_example : IsPositive (new_manager (with_idle_timeout (pos 0) ∷ []))
new_manager-IsPositive_example = new_manager-IsPositive (with_idle_timeout (pos 0) ∷ [])

abbrev worker : Worker
worker = record {
  owner = record { endpoint = "/repo/indexer.sock" };
  status = record {
    workspace = "/repo";
    endpoint = "/repo/indexer.sock";
    running = true;
    activity = 0;
    progress = record { completed = 0; total = 0 };
    queued_paths = [];
    version = 0;
    error = "";
    idle_deadline = 0;
  };
  pending = [];
  pending_set = [];
  timer = none;
  publishing = false;
  stopping = false;
  retry_delay = pos 0;
  reconcile_timer = none;
}

abbrev two_failures : List (List String × Outcome)
two_failures = ("a" ∷ [], failed "x") ∷ ("a" ∷ [], panicked "y") ∷ []

retry_delay_shrinks_example :
    let m = overlong 120000000000 (pos 5) in
    let once = end_worker m ("a" ∷ []) (failed "x") worker in
    (once.retry_delay ≡ pos 120000000000)
    × ((settle_all m worker two_failures).retry_delay ≡ max_retry_backoff)
    × ((settle_all m worker two_failures).retry_delay <ℤ once.retry_delay)
retry_delay_shrinks_example =
    retry_delay_shrinks 120000000000 (pos 5) (omega arith) (omega arith) (omega arith) worker
      ("a" ∷ [], failed "x") ("a" ∷ [], panicked "y") [] refl (tt, (tt, tt))

abbrev calls : List (List String × Outcome)
calls =
    ("a" ∷ [], failed "x")
    ∷ ("a" ∷ [], published)
    ∷ ("b" ∷ [], failed "x")
    ∷ ("b" ∷ [], panicked "y")
    ∷ []

retry_backoff_example :
    (settle_all default_manager worker calls).retry_delay
    ≡ pos (backoff 1000000000 60000000000 (streak 0 calls))
retry_backoff_example =
    retry_backoff default_manager 1000000000 60000000000 refl refl (omega arith) (omega arith)
      (omega arith) worker calls refl

two_seconds : (settle_all default_manager worker calls).retry_delay ≡ pos 2000000000
unfolding end_worker double64 unique_paths contains
two_seconds = refl

a-IsDistinct : IsDistinct {A = String} ("a" ∷ "b" ∷ [])
a-IsDistinct = ground (arith, eq_iff "a" "b")

unique_paths-append_example :
    (rest : List String) × (unique_paths ("a" ∷ "b" ∷ "b" ∷ "c" ∷ []) ≡ "a" ∷ "b" ∷ rest)
    × ((p : String) → Has p rest ↔ (Has p ("b" ∷ "c" ∷ []) × (¬ Has p ("a" ∷ "b" ∷ []))))
unique_paths-append_example = unique_paths-append ("a" ∷ "b" ∷ []) ("b" ∷ "c" ∷ []) a-IsDistinct

abbrev manager_of : Worker → Manager
manager_of w = record default_manager { workers = ("/repo", w) ∷ [] }

abbrev waiting : Worker
waiting = record worker {
  pending = "main.go" ∷ [];
  pending_set = "main.go" ∷ [];
  timer = some (pos 250000000);
}

waiting_there : lookup "/repo" (manager_of waiting).workers ≡ some waiting
unfolding lookup
waiting_there = refl

stop-IsStranded_example :
    ((stop_round (manager_of waiting) "/repo" (some "busy")).1 ≡ close_failed "busy")
    × IsStranded (stop_round (manager_of waiting) "/repo" (some "busy")).0 "/repo"
stop-IsStranded_example =
    stop-IsStranded (manager_of waiting) "/repo" waiting "busy" waiting_there refl refl

worker_there : lookup "/repo" (manager_of worker).workers ≡ some worker
unfolding lookup
worker_there = refl

new_path : contains worker.pending_set "main.go" ≡ false
unfolding contains
new_path = refl

enqueue-IsStranded_example :
    ((enqueue (manager_of worker) "/repo" (event "main.go" ∷ event "../main.go" ∷ [])).1
      ≡ some (bad_path (outside_workspace "/main.go")))
    × IsStranded
        (enqueue (manager_of worker) "/repo" (event "main.go" ∷ event "../main.go" ∷ [])).0
        "/repo"
enqueue-IsStranded_example =
    enqueue-IsStranded (manager_of worker) "/repo" worker (event "main.go") (event "../main.go")
      "main.go" (outside_workspace "/main.go") worker_there refl refl refl new_path main_path
      outside
