-- ===== src/Indexer/System/Invariant.antt =====
-- The invariant of the indexer, under every interleaving of its critical sections.
use agent_wayfinder.Prelude.{
  String, List, [], ◌∷◌, ◌≡◌, inl, inr, refl, sym, false, arith, Option, none, some, Result, ok,
  err, lookup, Option-cases, if_elim, Bool, not, ◌||◌, ◌∙◌, subst, ℕ, suc,
}
use agent_wayfinder.Indexer.{Worker, Manager, Event, Owner, Time}
use agent_wayfinder.Indexer.Options.{
  ManagerOption, apply_option, apply_options, default_manager, new_manager,
}
use agent_wayfinder.Indexer.Queue.{
  Outcome, enqueue, enqueue_worker, begin_worker, begin_publish, end_worker, end_publish,
  begin_reconcile, end_reconcile,
}
use agent_wayfinder.Indexer.Lifecycle.{
  start, touch, touch_worker, new_worker, stop_round, close_worker, halt, StopResult,
}
use agent_wayfinder.Indexer.System.{
  Call, System, call_at, drop_call, finished, Action, started, touched, enqueued, fired, returned,
  reconcile_fired, reconciled, stop_tried, step, run, initial,
}
use agent_wayfinder.Indexer.System.Worker.{IsConsistent}
use agent_wayfinder.Indexer.System.Worker.Sections.{
  enqueue_worker-IsConsistent, begin_worker-IsConsistent, end_worker-IsConsistent,
  new_worker-IsConsistent, halt-IsConsistent,
}
use agent_wayfinder.Indexer.System.Cells.{
  calls_of, paths_of_call, IsCell, Inv, kept-IsCell, idle_calls, call_at-calls_of,
  calls_of-drop_here,
}
use agent_wayfinder.Indexer.System.Writes.{
  write, write_both, write_end, remove, consistent, no_call,
}

touched-IsConsistent :
    (m : Manager) (now : Time) (w : Worker) (call : Option (List String))
    → IsConsistent w call
    → IsConsistent (touch_worker m now w) call
touched-IsConsistent m now w call h = record {
  queue = record { distinct = h.queue.distinct; same = h.queue.same };
  calling = h.calling;
  timed = h.timed;
}

-- Only the queue, the flags and the timer count.
alike :
    (w w' : Worker) (call : Option (List String))
    → IsConsistent w call
    → w'.pending ≡ w.pending
    → w'.pending_set ≡ w.pending_set
    → w'.timer ≡ w.timer
    → w'.publishing ≡ w.publishing
    → w'.stopping ≡ w.stopping
    → IsConsistent w' call
alike w w' call h a b c d e = record {
  queue = record { distinct = rw a h.queue.distinct; same = λ p. rw (a, b) (h.queue.same p) };
  calling = d ∙ h.calling;
  timed = rw (a, c, d, e) h.timed;
}

reopened-IsConsistent :
    (w : Worker) (call : Option (List String))
    → IsConsistent w call
    → IsConsistent (record (halt w) { stopping = false }) call
reopened-IsConsistent w call h = record {
  queue = record { distinct = h.queue.distinct; same = h.queue.same };
  calling = h.calling;
  timed = λ t. cc;
}

begin_worker-idle :
    (w w' : Worker) (paths : List String) → begin_worker w ≡ some (w', paths) → w.publishing ≡ false
unfolding begin_worker
begin_worker-idle w w' paths e = ground arith

start-Inv :
    (s : System) (ws : String) (acquired : Result String Owner) (now : Time)
    → Inv s
    → Inv (step s (started ws acquired now))
unfolding step start
start-Inv s ws acquired now h = elim (Option-cases (lookup ws s.manager.workers)) [
  | inl e ↦ fresh acquired e
  | inr (w, e) ↦
      rw (e, start)
        (write s h ws (touch_worker s.manager now w)
          (kept-IsCell w _ _ (touched-IsConsistent s.manager now w) (consistent s ws w h e)))
]
  where
    fresh :
        (a : Result String Owner)
        → lookup ws s.manager.workers ≡ none
        → Inv (record s { manager = (start s.manager ws a now).0 })
    fresh (err x) e = rw (e, start) h
    fresh (ok owner) e =
        rw (e, start)
          (write s h ws (new_worker s.manager ws owner now)
            (none, no_call s ws h e, new_worker-IsConsistent s.manager ws owner now))

touch-Inv : (s : System) (ws : String) (now : Time) → Inv s → Inv (step s (touched ws now))
unfolding step touch
touch-Inv s ws now h = elim (Option-cases (lookup ws s.manager.workers)) [
  | inl e ↦ rw (e, touch) h
  | inr (w, e) ↦
      rw (e, touch)
        (write s h ws (touch_worker s.manager now w)
          (kept-IsCell w _ _ (touched-IsConsistent s.manager now w) (consistent s ws w h e)))
]

enqueue-Inv :
    (s : System) (ws : String) (events : List Event) → Inv s → Inv (step s (enqueued ws events))
unfolding step enqueue
enqueue-Inv s ws events h = elim (Option-cases (lookup ws s.manager.workers)) [
  | inl e ↦ rw (e, enqueue) h
  | inr (w, e) ↦
      rw (e, enqueue)
        (write s h ws (enqueue_worker s.manager.throttle ws w events).0 (
          kept-IsCell w _ _ (enqueue_worker-IsConsistent s.manager.throttle ws w events)
            (consistent s ws w h e)))
]

fire-Inv : (s : System) (ws : String) → Inv s → Inv (step s (fired ws))
unfolding step begin_publish
fire-Inv s ws h = elim (Option-cases (lookup ws s.manager.workers)) [
  | inl e ↦ rw (e, begin_publish) h
  | inr (w, e) ↦ elim (Option-cases (begin_worker w)) [
    | inl b ↦ rw (e, begin_publish, b) h
    | inr ((w', paths), b) ↦
        rw (e, begin_publish, b)
          (let (call, listed_calls, c) = consistent s ws w h e in
            let idle = begin_worker-idle w w' paths b in
            write_both s h ws w' _ (suc s.begun) refl
              (idle_calls w (calls_of ws s.calls) idle (call, listed_calls, c))
              (begin_worker-IsConsistent w w' paths (paths_of_call call) b c))
  ]
]

-- A call that runs has the one worker that publishes for it.
running :
    (s : System) (index : ℕ) (c : Call) (w : Worker)
    → Inv s
    → call_at index s.calls ≡ some c
    → lookup c.workspace s.manager.workers ≡ some w
    → IsConsistent w (some c.paths) × (calls_of c.workspace (drop_call index s.calls) ≡ [])
running s index c w h at_index e = go (consistent s c.workspace w h e)
  where
    go :
        IsCell (some w) (calls_of c.workspace s.calls)
        → IsConsistent w (some c.paths) × (calls_of c.workspace (drop_call index s.calls) ≡ [])
    go (none, listed_calls, k) = absurd (call_at-calls_of index c s.calls at_index listed_calls)
    go (some x, listed_calls, k) =
        let (same, left) = calls_of-drop_here index c x s.calls at_index listed_calls in
        (subst (λ (y : Call). IsConsistent w (some y.paths)) (sym same) k, left)

return-Inv :
    (s : System) (index : ℕ) (outcome : Outcome) → Inv s → Inv (step s (returned index outcome))
unfolding step end_publish
return-Inv s index outcome h = elim (Option-cases (call_at index s.calls)) [
  | inl c ↦ rw (c, finished) h
  | inr (c, at_index) ↦ elim (Option-cases (lookup c.workspace s.manager.workers)) [
    | inl e ↦ absurd (call_at-calls_of index c s.calls at_index (no_call s c.workspace h e))
    | inr (w, e) ↦
        let (k, left) = running s index c w h at_index e in
        rw (at_index, finished, e, end_publish)
          (write_end s h c.workspace (end_worker s.manager c.paths outcome w) index c _ refl
            at_index left (end_worker-IsConsistent s.manager c.paths outcome w k))
  ]
]

reconcile_fire-Inv : (s : System) (ws : String) → Inv s → Inv (step s (reconcile_fired ws))
unfolding step begin_reconcile
reconcile_fire-Inv s ws h = elim (Option-cases (lookup ws s.manager.workers)) [
  | inl e ↦ rw (e, begin_reconcile) h
  | inr (w, e) ↦
      rw (e, begin_reconcile)
        (if_elim (λ (r : Manager × Bool). Inv (record s { manager = r.0 }))
          (w.stopping || not s.manager.reconciler) (λ _. h)
          (λ _.
            write s h ws (record w { reconcile_timer = none })
              (kept-IsCell w _ _ (λ call c. alike w _ call c refl refl refl refl refl)
                (consistent s ws w h e))))
]

reconciled-Inv :
    (s : System) (ws : String) (e : Option String) → Inv s → Inv (step s (reconciled ws e))
unfolding step end_reconcile
reconciled-Inv s ws x h = elim (Option-cases (lookup ws s.manager.workers)) [
  | inl e ↦ rw (e, end_reconcile) h
  | inr (w, e) ↦
      rw (e, end_reconcile)
        (if_elim (λ (m : Manager). Inv (record s { manager = m })) w.stopping (λ _. h)
          (λ _. write s h ws _ (
            kept-IsCell w _ _ (λ call c. alike w _ call c refl refl refl refl refl)
              (consistent s ws w h e))))
]

stop-Inv :
    (s : System) (ws : String) (closed : Option String)
    → Inv s
    → Inv (step s (stop_tried ws closed))
unfolding step stop_round
stop-Inv s ws closed h = elim (Option-cases (lookup ws s.manager.workers)) [
  | inl e ↦ rw (e, stop_round) h
  | inr (w, e) ↦
      rw (e, stop_round)
        (if_elim (λ (r : Manager × StopResult). Inv (record s { manager = r.0 })) w.publishing
          (λ _.
            write s h ws (halt w) (kept-IsCell w _ _ (halt-IsConsistent w) (consistent s ws w h e)))
          (λ idle. close closed w (consistent s ws w h e) idle))
]
  where
    close :
        (closed : Option String) (w : Worker)
        → IsCell (some w) (calls_of ws s.calls)
        → w.publishing ≡ false
        → Inv (record s { manager = (close_worker s.manager ws w closed).0 })
    close none w c idle = unfold close_worker in remove s h ws (idle_calls w _ idle c)
    close (some x) w c idle =
        unfold close_worker in
        write s h ws (record (halt w) { stopping = false })
          (kept-IsCell w _ _ (reopened-IsConsistent w) c)

-- Every critical section keeps the invariant.
pub step-Inv : (s : System) (a : Action) → Inv s → Inv (step s a)
step-Inv s (started ws acquired now) = start-Inv s ws acquired now
step-Inv s (touched ws now) = touch-Inv s ws now
step-Inv s (enqueued ws events) = enqueue-Inv s ws events
step-Inv s (fired ws) = fire-Inv s ws
step-Inv s (returned index outcome) = return-Inv s index outcome
step-Inv s (reconcile_fired ws) = reconcile_fire-Inv s ws
step-Inv s (reconciled ws e) = reconciled-Inv s ws e
step-Inv s (stop_tried ws closed) = stop-Inv s ws closed

pub run_from-Inv : (s : System) (actions : List Action) → Inv s → Inv (run s actions)
unfolding run
run_from-Inv s [] h = h
run_from-Inv s (a ∷ actions) h = run_from-Inv (step s a) actions (step-Inv s a h)

pub workers-apply_options :
    (m : Manager) (options : List ManagerOption) → (apply_options m options).workers ≡ m.workers
unfolding apply_options
workers-apply_options m [] = refl
workers-apply_options m (o ∷ options) = workers-apply_options (apply_option m o) options ∙ one o
  where
    one : (o : ManagerOption) → (apply_option m o).workers ≡ m.workers
    one o = unfold apply_option in ground arith

-- Whatever the options, callers, timers, publishers and their interleaving: each worker's set of
-- pending paths is that of its queue, the queue has no path twice, at most one call of `publish` runs
-- for a workspace, its worker publishes exactly while one does, a timer runs only for a worker with
-- pending paths that neither publishes nor stops, and without a worker no call runs.
pub run-Inv :
    (options : List ManagerOption) (actions : List Action) → Inv (run (initial options) actions)
unfolding initial new_manager
run-Inv options actions = run_from-Inv (initial options) actions (record {
  cell = λ ws. rw (workers-apply_options default_manager options) (unfold lookup in refl);
})
