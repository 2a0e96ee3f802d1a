-- ===== src/Indexer/System/Liveness.antt =====
-- Pending paths do not wait for nothing: a timer or a publisher has them, unless an `Enqueue` failed
-- on a path or a `Stop` failed to give the lock up.
use agent_wayfinder.Prelude.{
  ℕ, String, List, [], ◌∷◌, ◌≡◌, inl, inr, refl, true, false, arith, eq_cases, Bool, not, ◌||◌,
  Option, none, some, Result, ok, err, lookup, lookup-insert, lookup-delete, Option-cases,
  Bool-cases, if_elim, All, is_empty, is_found,
}
use agent_wayfinder.Indexer.{Worker, Manager, Event, Owner, Time, Duration}
use agent_wayfinder.Indexer.EventPath.{PathError, normalize_event_path}
use agent_wayfinder.Indexer.Options.{ManagerOption, default_manager, new_manager}
use agent_wayfinder.Indexer.Queue.{
  Outcome, set_worker, enqueue, enqueue_paths, enqueue_worker, after_enqueue, begin_worker,
  begin_publish, end_worker, end_publish, begin_reconcile, end_reconcile,
}
use agent_wayfinder.Indexer.Lifecycle.{
  start, touch, touch_worker, new_worker, stop_round, close_worker, halt, StopResult,
}
use agent_wayfinder.Indexer.System.{
  Call, call_at, System, Action, finished, started, touched, enqueued, fired, returned,
  reconcile_fired, reconciled, stop_tried, step, run, initial,
}
use agent_wayfinder.Indexer.System.Worker.{add_path}
use agent_wayfinder.Indexer.System.Invariant.{workers-apply_options}

-- A worker that is not stopping and does not publish has a timer for its pending paths.
abbrev pub IsAwake : Worker → Type 0
IsAwake w =
    w.stopping ≡ false → w.publishing ≡ false → is_empty w.pending ≡ false → is_found w.timer ≡ true

abbrev pub IsAwakeCell : Option Worker → Type 0
IsAwakeCell none = Unit
IsAwakeCell (some w) = IsAwake w

pub record AllAwake (s : System) : Type 0 where
  pub cell : (ws : String) → IsAwakeCell (lookup ws s.manager.workers)

-- No `Enqueue` meets a path that it refuses, and no `Stop` fails to give the lock up.
abbrev pub IsSmooth : Action → Type 0
IsSmooth (enqueued ws events) =
    All (λ e. (p : String) × (normalize_event_path ws e.path ≡ ok p)) events
IsSmooth (stop_tried ws (some e)) = ⊥
IsSmooth _ = Unit

enqueue_paths-none :
    (ws : String) (w : Worker) (events : List Event)
    → All (λ e. (p : String) × (normalize_event_path ws e.path ≡ ok p)) events
    → (enqueue_paths ws w events).1 ≡ none
unfolding enqueue_paths
enqueue_paths-none ws w [] n = refl
enqueue_paths-none ws w (e ∷ events) n =
    rw (n.0.1, enqueue_paths) (enqueue_paths-none ws (add_path w n.0.0) events n.1)

after_enqueue-IsAwake :
    (d : Duration) (r : Worker × Option PathError) → r.1 ≡ none → IsAwake (after_enqueue d r).0
unfolding after_enqueue
after_enqueue-IsAwake d (w, some e) n = cc
after_enqueue-IsAwake d (w, none) n = ground arith

enqueue_worker-IsAwake :
    (d : Duration) (ws : String) (w : Worker) (events : List Event)
    → All (λ e. (p : String) × (normalize_event_path ws e.path ≡ ok p)) events
    → IsAwake w
    → IsAwake (enqueue_worker d ws w events).0
unfolding enqueue_worker
enqueue_worker-IsAwake d ws w events n h = elim (Bool-cases w.stopping) [
  | inl s ↦ simp s (λ t. cc)
  | inr s ↦
      simp s
        (after_enqueue-IsAwake d (enqueue_paths ws w events) (enqueue_paths-none ws w events n))
]

end_worker-IsAwake :
    (m : Manager) (paths : List String) (outcome : Outcome) (w : Worker)
    → IsAwake (end_worker m paths outcome w)
unfolding end_worker
end_worker-IsAwake m paths outcome w = ground arith

begin_worker-IsAwake :
    (w w' : Worker) (paths : List String) → begin_worker w ≡ some (w', paths) → IsAwake w'
unfolding begin_worker
begin_worker-IsAwake w w' paths e = ground arith

module _ (s : System) (h : AllAwake s) (ws : String) where
  write :
      (w : Worker) (calls : List Call) (begun : ℕ) (log : List Call)
      → IsAwake w
      → AllAwake (record {
        manager = set_worker s.manager ws w;
        calls = calls;
        begun = begun;
        delivered = log;
      })
  unfolding set_worker
  write w calls begun log c = record {
    cell = λ j.
        rw lookup-insert
          (elim (eq_cases ws j) [ inl (t, e) ↦ rw t c | inr (f, _) ↦ rw f (h.cell j) ]);
  }

  found : (w : Worker) → lookup ws s.manager.workers ≡ some w → IsAwake w
  found w e = rw e at (h.cell ws)

  start-AllAwake :
      (acquired : Result String Owner) (now : Time) → AllAwake (step s (started ws acquired now))
  unfolding step start
  start-AllAwake acquired now = elim (Option-cases (lookup ws s.manager.workers)) [
    | inl e ↦ fresh acquired e
    | inr (w, e) ↦ rw (e, start) (write (touch_worker s.manager now w) _ _ _ (found w e))
  ]
    where
      fresh :
          (a : Result String Owner)
          → lookup ws s.manager.workers ≡ none
          → AllAwake (record s { manager = (start s.manager ws a now).0 })
      fresh (err x) e = rw (e, start) (record { cell = h.cell })
      fresh (ok owner) e =
          rw (e, start) (write (new_worker s.manager ws owner now) _ _ _ (λ a b c. cc))

  touch-AllAwake : (now : Time) → AllAwake (step s (touched ws now))
  unfolding step touch
  touch-AllAwake now = elim (Option-cases (lookup ws s.manager.workers)) [
    | inl e ↦ rw (e, touch) (record { cell = h.cell })
    | inr (w, e) ↦ rw (e, touch) (write (touch_worker s.manager now w) _ _ _ (found w e))
  ]

  enqueue-AllAwake :
      (events : List Event) → IsSmooth (enqueued ws events) → AllAwake (step s (enqueued ws events))
  unfolding step enqueue
  enqueue-AllAwake events n = elim (Option-cases (lookup ws s.manager.workers)) [
    | inl e ↦ rw (e, enqueue) (record { cell = h.cell })
    | inr (w, e) ↦
        rw (e, enqueue)
          (write _ _ _ _ (enqueue_worker-IsAwake s.manager.throttle ws w events n (found w e)))
  ]

  fire-AllAwake : AllAwake (step s (fired ws))
  unfolding step begin_publish
  fire-AllAwake = elim (Option-cases (lookup ws s.manager.workers)) [
    | inl e ↦ rw (e, begin_publish) (record { cell = h.cell })
    | inr (w, e) ↦ elim (Option-cases (begin_worker w)) [
      | inl b ↦ rw (e, begin_publish, b) (record { cell = h.cell })
      | inr ((w', paths), b) ↦
          rw (e, begin_publish, b) (write w' _ _ _ (begin_worker-IsAwake w w' paths b))
    ]
  ]

  reconcile_fire-AllAwake : AllAwake (step s (reconcile_fired ws))
  unfolding step begin_reconcile
  reconcile_fire-AllAwake = elim (Option-cases (lookup ws s.manager.workers)) [
    | inl e ↦ rw (e, begin_reconcile) (record { cell = h.cell })
    | inr (w, e) ↦
        rw (e, begin_reconcile)
          (if_elim (λ (r : Manager × Bool). AllAwake (record s { manager = r.0 }))
            (w.stopping || not s.manager.reconciler) (λ _. record { cell = h.cell })
            (λ _. write (record w { reconcile_timer = none }) _ _ _ (found w e)))
  ]

  reconciled-AllAwake : (x : Option String) → AllAwake (step s (reconciled ws x))
  unfolding step end_reconcile
  reconciled-AllAwake x = elim (Option-cases (lookup ws s.manager.workers)) [
    | inl e ↦ rw (e, end_reconcile) (record { cell = h.cell })
    | inr (w, e) ↦
        rw (e, end_reconcile)
          (if_elim (λ (m : Manager). AllAwake (record s { manager = m })) w.stopping
            (λ _. record { cell = h.cell }) (λ _. write _ _ _ _ (found w e)))
  ]

  -- A round of `Stop` leaves the worker stopping, or removes it.
  stop-AllAwake : AllAwake (step s (stop_tried ws none))
  unfolding step stop_round close_worker
  stop-AllAwake = elim (Option-cases (lookup ws s.manager.workers)) [
    | inl e ↦ rw (e, stop_round) (record { cell = h.cell })
    | inr (w, e) ↦
        rw (e, stop_round)
          (if_elim (λ (r : Manager × StopResult). AllAwake (record s { manager = r.0 }))
            w.publishing (λ _. write (halt w) _ _ _ (λ t. cc))
            (λ _. record {
              cell = λ j.
                  rw lookup-delete
                    (elim (eq_cases ws j) [ inl (t, q) ↦ rw t tt | inr (f, _) ↦ rw f (h.cell j) ]);
            }))
  ]

return-AllAwake :
    (s : System) (index : ℕ) (outcome : Outcome)
    → AllAwake s
    → AllAwake (step s (returned index outcome))
unfolding step end_publish
return-AllAwake s index outcome h = elim (Option-cases (call_at index s.calls)) [
  | inl n ↦ rw (n, finished) (record { cell = h.cell })
  | inr (c, n) ↦ elim (Option-cases (lookup c.workspace s.manager.workers)) [
    | inl e ↦ rw (n, finished, e, end_publish) (record { cell = h.cell })
    | inr (w, e) ↦
        rw (n, finished, e, end_publish)
          (write s h c.workspace _ _ _ _ (end_worker-IsAwake s.manager c.paths outcome w))
  ]
]

step-AllAwake : (s : System) (a : Action) → IsSmooth a → AllAwake s → AllAwake (step s a)
step-AllAwake s (started ws acquired now) n h = start-AllAwake s h ws acquired now
step-AllAwake s (touched ws now) n h = touch-AllAwake s h ws now
step-AllAwake s (enqueued ws events) n h = enqueue-AllAwake s h ws events n
step-AllAwake s (fired ws) n h = fire-AllAwake s h ws
step-AllAwake s (returned index outcome) n h = return-AllAwake s index outcome h
step-AllAwake s (reconcile_fired ws) n h = reconcile_fire-AllAwake s h ws
step-AllAwake s (reconciled ws e) n h = reconciled-AllAwake s h ws e
step-AllAwake s (stop_tried ws none) n h = stop-AllAwake s h ws
step-AllAwake s (stop_tried ws (some e)) n h = absurd n

run_from-AllAwake :
    (s : System) (actions : List Action)
    → All IsSmooth actions
    → AllAwake s
    → AllAwake (run s actions)
unfolding run
run_from-AllAwake s [] n h = h
run_from-AllAwake s (a ∷ actions) n h =
    run_from-AllAwake (step s a) actions n.1 (step-AllAwake s a n.0 h)

-- Where no `Enqueue` meets a path that it refuses and no `Stop` fails to give the lock up, every
-- worker that has pending paths, does not publish and is not stopping has a publish timer, under
-- every interleaving.
pub run-AllAwake :
    (options : List ManagerOption) (actions : List Action)
    → All IsSmooth actions
    → AllAwake (run (initial options) actions)
unfolding initial new_manager
run-AllAwake options actions n = run_from-AllAwake (initial options) actions n (record {
  cell = λ ws. rw (workers-apply_options default_manager options) (unfold lookup in tt);
})
