-- ===== src/Indexer/System/Enqueued.antt =====
-- What an accepted `Enqueue` of indexer/queue.go promises.
use agent_wayfinder.Prelude.{
  String, List, ◌≡◌, inl, inr, refl, eq_refl, Option, none, some, ok, lookup, lookup-insert,
  Option-cases, Bool-cases, Has, All, All-map, subst, sym,
}
use agent_wayfinder.Indexer.{Duration, Event, Worker}
use agent_wayfinder.Indexer.EventPath.{PathError, normalize_event_path}
use agent_wayfinder.Indexer.Options.{ManagerOption}
use agent_wayfinder.Indexer.Queue.{
  set_worker, enqueue, enqueue_paths, enqueue_worker, after_enqueue,
}
use agent_wayfinder.Indexer.System.{System, Action, enqueued, step, run, initial}
use agent_wayfinder.Indexer.System.Worker.{IsQueue, Queues, enqueue_paths-Queues}
use agent_wayfinder.Indexer.System.Invariant.{run-Inv, step-Inv}
use agent_wayfinder.Indexer.System.Cells.{Inv}
use agent_wayfinder.Indexer.System.Delivery.{run_keeps, step-begun}
use agent_wayfinder.Indexer.System.Accounts.{IsAccounted, Spares, after_enqueue-pending}

after_enqueue-none :
    (d : Duration) (r : Worker × Option PathError) → (after_enqueue d r).1 ≡ none → r.1 ≡ none
unfolding after_enqueue
after_enqueue-none d (w, some e) h = cc
after_enqueue-none d (w, none) h = refl

enqueue_worker-Queues :
    (d : Duration) (ws : String) (w : Worker) (events : List Event)
    → IsQueue w
    → (enqueue_worker d ws w events).1 ≡ none
    → Queues ws (enqueue_worker d ws w events).0 events
unfolding enqueue_worker
enqueue_worker-Queues d ws w events q h = elim (Bool-cases w.stopping) [
  | inl s ↦ absurd (cc (simp s at h))
  | inr s ↦
      let r = enqueue_paths ws w events in
      let queued = enqueue_paths-Queues ws w events q (after_enqueue-none d r (simp s at h)) in
      simp s (
        All-map _ _ events
          (λ e (p, n, m). (p, n, subst (Has p) (sym (after_enqueue-pending d r)) m)) queued)
]

-- An accepted `Enqueue` has a path of each event accounted for.
enqueue-IsAccounted :
    (s : System) (ws : String) (events : List Event)
    → Inv s
    → (enqueue s.manager ws events).1 ≡ none
    → All
        (λ e.
          (p : String) × (normalize_event_path ws e.path ≡ ok p)
          × IsAccounted s.begun (step s (enqueued ws events)) ws p)
        events
unfolding step enqueue
enqueue-IsAccounted s ws events inv h = elim (Option-cases (lookup ws s.manager.workers)) [
  | inl e ↦ absurd (cc (rw (e, enqueue) at h))
  | inr (w, e) ↦
      let c = rw e at (inv.cell ws) in
      let queued =
        enqueue_worker-Queues s.manager.throttle ws w events c.2.queue (rw (e, enqueue) at h) in
      All-map _ _ events
        (λ x (p, n, m). (p, n, rw (e, enqueue, set_worker, lookup-insert, eq_refl) (inl m))) queued
]

-- From any state that the indexer reaches: if `Enqueue` accepts some events of a workspace, then
-- after any further actions, other than a `Stop` of the workspace that gives its lock up, the
-- normalized path of each event is pending, or a call of `publish` that began after the `Enqueue`
-- holds it, or such a call has delivered it.
pub enqueue_loses_nothing :
    (options : List ManagerOption) (before after : List Action) (ws : String) (events : List Event)
    → (enqueue (run (initial options) before).manager ws events).1 ≡ none
    → All (Spares ws) after
    → All
        (λ e.
          (p : String) × (normalize_event_path ws e.path ≡ ok p)
          × IsAccounted
              (run (initial options) before).begun
              (run (step (run (initial options) before) (enqueued ws events)) after)
              ws
              p)
        events
enqueue_loses_nothing options before after ws events h spared =
    let s = run (initial options) before in
    let inv = run-Inv options before in
    All-map _ _ events
      (λ e (p, n, m). (
        p,
        n,
        run_keeps s.begun (step s (enqueued ws events)) after ws p
            (step-Inv s (enqueued ws events) inv) (step-begun s (enqueued ws events)) spared m,
      ))
      (enqueue-IsAccounted s ws events inv h)
