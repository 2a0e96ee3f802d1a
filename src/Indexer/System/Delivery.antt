-- ===== src/Indexer/System/Delivery.antt =====
-- No path is lost: what was queued is pending, or a call of `publish` that began later holds it or has
-- delivered it.
use agent_wayfinder.Prelude.{
  ℕ, ◌≤◌, subst, sym, ◌∙◌, String, List, [], ◌∷◌, ◌≡◌, ◌≢◌, inl, inr, ap, arith, eq_cases, Bool,
  not, ◌||◌, Option, none, some, Result, ok, err, lookup, lookup-insert, lookup-delete,
  Option-cases, if_elim, Has, All,
}
use agent_wayfinder.Indexer.{Worker, Manager, Event, Owner, Time}
use agent_wayfinder.Indexer.Queue.{
  Outcome, set_worker, enqueue, begin_worker, begin_publish, end_worker, end_publish,
  begin_reconcile, end_reconcile,
}
use agent_wayfinder.Indexer.Lifecycle.{start, touch, stop_round, close_worker, halt, StopResult}
use agent_wayfinder.Indexer.System.{
  Call, call_at, drop_call, System, Action, deliver, finished, started, touched, enqueued, fired,
  returned, reconcile_fired, reconciled, stop_tried, step, run,
}
use agent_wayfinder.Indexer.System.Invariant.{step-Inv}
use agent_wayfinder.Indexer.System.Cells.{Inv, call_at-calls_of}
use agent_wayfinder.Indexer.System.Writes.{no_call}
use agent_wayfinder.Indexer.System.Accounts.{
  IsSince, Accounts, IsAccounted, Spares, enqueue_worker_keeps, end_worker_keeps,
  end_worker_returns, begin_takes, deliver_keeps, Any-drop_call, called-begun, finished-begun,
}

module _ (first : ℕ) (s : System) (j p : String) (h : IsAccounted first s j p) where
  write_keeps :
      (ws : String) (w w' : Worker)
      → lookup ws s.manager.workers ≡ some w
      → (Has p w.pending → Has p w'.pending)
      → IsAccounted first (record s { manager = set_worker s.manager ws w' }) j p
  unfolding set_worker
  write_keeps ws w w' found kept = rw lookup-insert (elim (eq_cases ws j) [
    | inl (t, e) ↦ rw t (ground (arith, ap (λ k. lookup k s.manager.workers) e))
    | inr (f, _) ↦ rw f h
  ])

  enqueue_keeps :
      (ws : String) (events : List Event) → IsAccounted first (step s (enqueued ws events)) j p
  unfolding step enqueue
  enqueue_keeps ws events = elim (Option-cases (lookup ws s.manager.workers)) [
    | inl e ↦ rw (e, enqueue) h
    | inr (w, e) ↦
        rw (e, enqueue)
          (write_keeps ws w _ e (enqueue_worker_keeps s.manager.throttle ws w events p))
  ]

  start_keeps :
      (ws : String) (acquired : Result String Owner) (now : Time)
      → IsAccounted first (step s (started ws acquired now)) j p
  unfolding step start
  start_keeps ws acquired now = elim (Option-cases (lookup ws s.manager.workers)) [
    | inl e ↦ fresh acquired e
    | inr (w, e) ↦ rw (e, start) (write_keeps ws w _ e (λ m. m))
  ]
    where
      fresh :
          (a : Result String Owner)
          → lookup ws s.manager.workers ≡ none
          → IsAccounted first (record s { manager = (start s.manager ws a now).0 }) j p
      fresh (err x) e = rw (e, start) h
      fresh (ok owner) e =
          rw (e, start)
            (unfold set_worker in
              rw lookup-insert (elim (eq_cases ws j) [
                | inl (t, q) ↦ rw t (ground (arith, ap (λ k. lookup k s.manager.workers) q))
                | inr (f, _) ↦ rw f h
              ]))

  touch_keeps : (ws : String) (now : Time) → IsAccounted first (step s (touched ws now)) j p
  unfolding step touch
  touch_keeps ws now = elim (Option-cases (lookup ws s.manager.workers)) [
    | inl e ↦ rw (e, touch) h
    | inr (w, e) ↦ rw (e, touch) (write_keeps ws w _ e (λ m. m))
  ]

  reconcile_fire_keeps : (ws : String) → IsAccounted first (step s (reconcile_fired ws)) j p
  unfolding step begin_reconcile
  reconcile_fire_keeps ws = elim (Option-cases (lookup ws s.manager.workers)) [
    | inl e ↦ rw (e, begin_reconcile) h
    | inr (w, e) ↦
        rw (e, begin_reconcile)
          (if_elim (λ (r : Manager × Bool). IsAccounted first (record s { manager = r.0 }) j p)
            (w.stopping || not s.manager.reconciler) (λ _. h) (λ _. write_keeps ws w _ e (λ m. m)))
  ]

  reconciled_keeps :
      (ws : String) (x : Option String) → IsAccounted first (step s (reconciled ws x)) j p
  unfolding step end_reconcile
  reconciled_keeps ws x = elim (Option-cases (lookup ws s.manager.workers)) [
    | inl e ↦ rw (e, end_reconcile) h
    | inr (w, e) ↦
        rw (e, end_reconcile)
          (if_elim (λ (m : Manager). IsAccounted first (record s { manager = m }) j p) w.stopping
            (λ _. h) (λ _. write_keeps ws w _ e (λ m. m)))
  ]

  stop_keeps :
      (ws : String) (closed : Option String)
      → Spares j (stop_tried ws closed)
      → IsAccounted first (step s (stop_tried ws closed)) j p
  unfolding step stop_round
  stop_keeps ws closed spared = elim (Option-cases (lookup ws s.manager.workers)) [
    | inl e ↦ rw (e, stop_round) h
    | inr (w, e) ↦
        rw (e, stop_round)
          (if_elim
            (λ (r : Manager × StopResult). IsAccounted first (record s { manager = r.0 }) j p)
            w.publishing (λ _. write_keeps ws w (halt w) e (λ m. m)) (λ _. close closed spared w e))
  ]
    where
      close :
          (closed : Option String)
          → Spares j (stop_tried ws closed)
          → (w : Worker) → lookup ws s.manager.workers ≡ some w
          → IsAccounted first (record s { manager = (close_worker s.manager ws w closed).0 }) j p
      close none n w e =
          unfold close_worker in
          rw lookup-delete
            (elim (eq_cases ws j) [ inl (t, q) ↦ absurd (n q) | inr (f, _) ↦ rw f h ])
      close (some x) n w e = unfold close_worker in write_keeps ws w _ e (λ m. m)

  accounted_by :
      (ws : String) (w : Worker)
      → ws ≡ j
      → lookup ws s.manager.workers ≡ some w
      → Accounts first j p (some w) s.calls s.delivered
  accounted_by ws w q e =
      subst (λ (o : Option Worker). Accounts first j p o s.calls s.delivered)
        (ap (λ (k : String). lookup k s.manager.workers) (sym q) ∙ e) h

  fire_keeps : first ≤ s.begun → (ws : String) → IsAccounted first (step s (fired ws)) j p
  unfolding step begin_publish set_worker
  fire_keeps early ws = elim (Option-cases (lookup ws s.manager.workers)) [
    | inl e ↦ rw (e, begin_publish) h
    | inr (w, e) ↦ elim (Option-cases (begin_worker w)) [
      | inl b ↦ rw (e, begin_publish, b) h
      | inr ((w', paths), b) ↦
          rw (e, begin_publish, b, set_worker, lookup-insert)
            (elim (eq_cases ws j) [
              | inl (t, q) ↦ rw t (elim (accounted_by ws w q e) [
                | inl m ↦ inr (inl (inl (early, q, subst (Has p) (begin_takes w w' paths b) m)))
                | inr (inl m) ↦ inr (inl (inr m))
                | inr (inr m) ↦ inr (inr m)
              ])
              | inr (f, _) ↦ rw f (elim h [
                | inl m ↦ inl m
                | inr (inl m) ↦ inr (inl (inr m))
                | inr (inr m) ↦ inr (inr m)
              ])
            ])
    ]
  ]

  -- The worker of a call that returns, where it is the one of the path.
  return_here :
      (index : ℕ) (outcome : Outcome) (c : Call) (w : Worker)
      → call_at index s.calls ≡ some c
      → Accounts first j p (some w) s.calls s.delivered
      → Accounts first j p
          (some (end_worker s.manager c.paths outcome w))
          (drop_call index s.calls)
          (deliver outcome c s.delivered)
  return_here index outcome c w n (inl m) = inl (end_worker_keeps s.manager c.paths outcome w p m)
  return_here index outcome c w n (inr (inl m)) =
      elim (Any-drop_call (IsSince first j p) index c s.calls n m) [
        | inl k ↦ elim (end_worker_returns s.manager c outcome w first j p s.delivered k) [
          | inl x ↦ inl x
          | inr x ↦ inr (inr x)
        ]
        | inr k ↦ inr (inl k)
      ]
  return_here index outcome c w n (inr (inr m)) =
      inr (inr (deliver_keeps outcome c s.delivered (IsSince first j p) m))

  return_elsewhere :
      (index : ℕ) (outcome : Outcome) (c : Call)
      → call_at index s.calls ≡ some c
      → c.workspace ≢ j
      → IsAccounted first
          (record s { calls = drop_call index s.calls; delivered = deliver outcome c s.delivered })
          j
          p
  return_elsewhere index outcome c n other = elim h [
    | inl m ↦ inl m
    | inr (inl m) ↦ elim (Any-drop_call (IsSince first j p) index c s.calls n m) [
      | inl k ↦ absurd (other k.1)
      | inr k ↦ inr (inl k)
    ]
    | inr (inr m) ↦ inr (inr (deliver_keeps outcome c s.delivered (IsSince first j p) m))
  ]

  return_keeps :
      Inv s
      → (index : ℕ) (outcome : Outcome) → IsAccounted first (step s (returned index outcome)) j p
  unfolding step end_publish set_worker
  return_keeps inv index outcome = elim (Option-cases (call_at index s.calls)) [
    | inl n ↦ rw (n, finished) h
    | inr (c, n) ↦ elim (Option-cases (lookup c.workspace s.manager.workers)) [
      | inl e ↦ absurd (call_at-calls_of index c s.calls n (no_call s c.workspace inv e))
      | inr (w, e) ↦
          rw (n, finished, e, end_publish, set_worker, lookup-insert)
            (elim (eq_cases c.workspace j) [
              | inl (t, q) ↦ rw t (return_here index outcome c w n (accounted_by c.workspace w q e))
              | inr (f, other) ↦ rw f (return_elsewhere index outcome c n other)
            ])
    ]
  ]

-- The count of calls does not go down.
pub step-begun : (s : System) (a : Action) → s.begun ≤ (step s a).begun
unfolding step
step-begun s (fired ws) = ground (arith, called-begun s (begin_publish s.manager ws))
step-begun s (returned index outcome) = finished-begun s index outcome (call_at index s.calls)
step-begun s _ = omega arith

step_keeps :
    (first : ℕ) (s : System) (a : Action) (ws p : String)
    → Inv s
    → first ≤ s.begun
    → Spares ws a
    → IsAccounted first s ws p
    → IsAccounted first (step s a) ws p
step_keeps f s (started k acquired now) ws p inv early n h = start_keeps f s ws p h k acquired now
step_keeps f s (touched k now) ws p inv early n h = touch_keeps f s ws p h k now
step_keeps f s (enqueued k events) ws p inv early n h = enqueue_keeps f s ws p h k events
step_keeps f s (fired k) ws p inv early n h = fire_keeps f s ws p h early k
step_keeps f s (returned i outcome) ws p inv early n h = return_keeps f s ws p h inv i outcome
step_keeps f s (reconcile_fired k) ws p inv early n h = reconcile_fire_keeps f s ws p h k
step_keeps f s (reconciled k e) ws p inv early n h = reconciled_keeps f s ws p h k e
step_keeps f s (stop_tried k closed) ws p inv early n h = stop_keeps f s ws p h k closed n

pub run_keeps :
    (first : ℕ) (s : System) (actions : List Action) (ws p : String)
    → Inv s
    → first ≤ s.begun
    → All (Spares ws) actions
    → IsAccounted first s ws p
    → IsAccounted first (run s actions) ws p
unfolding run
run_keeps first s [] ws p inv early n h = h
run_keeps first s (a ∷ actions) ws p inv early n h =
    run_keeps first (step s a) actions ws p (step-Inv s a inv)
      (omega (arith, early, step-begun s a)) n.1 (step_keeps first s a ws p inv early n.0 h)
