-- ===== src/Indexer/System/Worker/Sections.antt =====
-- Every critical section of indexer/queue.go and indexer/lifecycle.go keeps its worker consistent.
use agent_wayfinder.Prelude.{
  String, List, ◌++◌, ◌≡◌, inl, inr, refl, ◌∙◌, true, false, arith, is_found, Option, none, some,
  Bool-cases,
}
use agent_wayfinder.Indexer.{Duration, Event, Worker, Owner, Time, Manager}
use agent_wayfinder.Indexer.EventPath.{PathError}
use agent_wayfinder.Indexer.EventPath.Unique.{IsDistinct-unique_paths}
use agent_wayfinder.Indexer.Queue.{
  Outcome, call_publisher, enqueue_paths, schedule_publish, after_enqueue, enqueue_worker,
  begin_worker, settle, reschedule, end_worker,
}
use agent_wayfinder.Indexer.Lifecycle.{new_worker, halt}
use agent_wayfinder.Indexer.System.Worker.{
  IsQueue, IsConsistent, Extends, enqueue_paths-IsQueue, enqueue_paths-Extends,
}

schedule_publish-IsConsistent :
    (d : Duration) (w : Worker) (call : Option (List String))
    → w.stopping ≡ false
    → IsConsistent w call
    → IsConsistent (schedule_publish d w) call
unfolding schedule_publish
schedule_publish-IsConsistent d w call live h = record {
  queue = record {
    distinct = ground (arith, h.queue.distinct);
    same = λ p. ground (arith, h.queue.same p);
  };
  calling = ground (arith, h.calling);
  timed = ground (arith, h.timed);
}

extended :
    (w w' : Worker) (call : Option (List String))
    → IsConsistent w call
    → Extends w w'
    → IsQueue w'
    → IsConsistent w' call
extended w w' call h x q = record {
  queue = q;
  calling = ground (arith, x.publishing, h.calling);
  timed = ground (arith, h.timed, x.timer, x.publishing, x.stopping, x.more);
}

after_enqueue-IsConsistent :
    (d : Duration) (r : Worker × Option PathError) (call : Option (List String))
    → r.0.stopping ≡ false
    → IsConsistent r.0 call
    → IsConsistent (after_enqueue d r).0 call
unfolding after_enqueue
after_enqueue-IsConsistent d (w, some e) call live h = h
after_enqueue-IsConsistent d (w, none) call live h =
    schedule_publish-IsConsistent d
      (record w { status = record w.status { queued_paths = w.pending } }) call live
      (record {
        queue = record { distinct = h.queue.distinct; same = h.queue.same };
        calling = h.calling;
        timed = h.timed;
      })

pub enqueue_worker-IsConsistent :
    (d : Duration) (workspace : String) (w : Worker) (events : List Event)
    (call : Option (List String))
    → IsConsistent w call
    → IsConsistent (enqueue_worker d workspace w events).0 call
unfolding enqueue_worker
enqueue_worker-IsConsistent d workspace w events call h = elim (Bool-cases w.stopping) [
  | inl s ↦ simp s h
  | inr s ↦
      let more = enqueue_paths-Extends workspace w events in
      let queue = enqueue_paths-IsQueue workspace w events h.queue in
      simp s (
        after_enqueue-IsConsistent d (enqueue_paths workspace w events) call (more.stopping ∙ s)
          (extended w (enqueue_paths workspace w events).0 call h more queue))
]

pub begin_worker-IsConsistent :
    (w w' : Worker) (paths : List String) (call : Option (List String))
    → begin_worker w ≡ some (w', paths)
    → IsConsistent w call
    → IsConsistent w' (some paths)
unfolding begin_worker
begin_worker-IsConsistent w w' paths call e h = record {
  queue = record { distinct = ground arith; same = λ p. ground arith };
  calling = ground arith;
  timed = ground arith;
}

settle-IsQueue :
    (m : Manager) (paths : List String) (e : Option String) (w : Worker)
    → IsQueue w
    → IsQueue (settle m paths e w)
unfolding settle
settle-IsQueue m paths none w q = record { distinct = q.distinct; same = q.same }
settle-IsQueue m paths (some x) w q = record {
  distinct = IsDistinct-unique_paths (paths ++ w.pending);
  same = λ p. (λ h. h, λ h. h);
}

settle-IsConsistent :
    (m : Manager) (paths : List String) (e : Option String) (w : Worker)
    → IsConsistent w (some paths)
    → IsConsistent (settle m paths e w) none
settle-IsConsistent m paths e w h = record {
  queue = settle-IsQueue m paths e w h.queue;
  calling = unfold settle in calling e;
  timed = λ t. absurd (timer e t);
}
  where
    calling : (e : Option String) → (settle m paths e w).publishing ≡ false
    calling none = unfold settle in refl
    calling (some x) = unfold settle in refl

    timer : (e : Option String) → is_found (settle m paths e w).timer ≡ true → ⊥
    timer none t = unfold settle in ground (arith, h.timed, h.calling)
    timer (some x) t = unfold settle in ground (arith, h.timed, h.calling)

reschedule-IsConsistent :
    (m : Manager) (e : Option String) (w : Worker)
    → IsConsistent w none
    → IsConsistent (reschedule m e w) none
unfolding reschedule
reschedule-IsConsistent m e w h = record {
  queue = record {
    distinct = ground (arith, h.queue.distinct);
    same = λ p. ground (arith, h.queue.same p);
  };
  calling = ground (arith, h.calling);
  timed = ground (arith, h.timed, h.calling);
}

pub end_worker-IsConsistent :
    (m : Manager) (paths : List String) (outcome : Outcome) (w : Worker)
    → IsConsistent w (some paths)
    → IsConsistent (end_worker m paths outcome w) none
unfolding end_worker
end_worker-IsConsistent m paths outcome w h =
    reschedule-IsConsistent m e (settle m paths e w) (settle-IsConsistent m paths e w h)
  where
    e : Option String
    e = call_publisher outcome

pub new_worker-IsConsistent :
    (m : Manager) (workspace : String) (owner : Owner) (now : Time)
    → IsConsistent (new_worker m workspace owner now) none
unfolding new_worker
new_worker-IsConsistent m workspace owner now = record {
  queue = record { distinct = tt; same = λ p. (λ h. h, λ h. h) };
  calling = refl;
  timed = λ t. cc;
}

pub halt-IsConsistent :
    (w : Worker) (call : Option (List String)) → IsConsistent w call → IsConsistent (halt w) call
halt-IsConsistent w call h = record {
  queue = record { distinct = h.queue.distinct; same = h.queue.same };
  calling = h.calling;
  timed = λ t. cc;
}
