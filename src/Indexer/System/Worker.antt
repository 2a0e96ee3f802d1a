-- ===== src/Indexer/System/Worker.antt =====
-- What holds of one worker of indexer/lifecycle.go and of the `publish` call that runs for it.
pub mod Sections
use agent_wayfinder.Prelude.{
  String, List, [], ◌∷◌, ◌++◌, ◌≡◌, ◌≢◌, ◌↔◌, ◌⊎◌, inl, inr, refl, ◌∙◌, sym, subst, true, false,
  Bool, arith, Has, IsDistinct, All, Has-append, contains, contains_iff, eq_iff, is_found, is_empty,
  Option, none, some, Result, ok, err, if◌then◌else◌, Result-cases, Bool-cases,
}
use agent_wayfinder.Indexer.{Duration, Event, Worker, Owner, Time, Manager}
use agent_wayfinder.Indexer.EventPath.{PathError, normalize_event_path, unique_paths}
use agent_wayfinder.Indexer.EventPath.Unique.{IsDistinct-unique_paths, Has-unique_paths}
use agent_wayfinder.Indexer.Queue.{
  Outcome, enqueue_paths, enqueue_worker, begin_worker, settle, reschedule, end_worker,
}
use agent_wayfinder.Indexer.Lifecycle.{new_worker, halt}

-- The set is the set of the queue, which has no path twice.
pub record IsQueue (w : Worker) : Type 0 where
  pub distinct : IsDistinct w.pending
  pub same : (p : String) → Has p w.pending_set ↔ Has p w.pending

-- A worker publishes exactly while a call runs for it, and a timer runs only for a queue that
-- waits: paths are pending, no call runs, and the worker is not stopping.
pub record IsConsistent (w : Worker) (call : Option (List String)) : Type 0 where
  pub queue : IsQueue w
  pub calling : w.publishing ≡ is_found call
  pub timed :
      is_found w.timer ≡ true
      → (is_empty w.pending ≡ false) × (w.publishing ≡ false) × (w.stopping ≡ false)

-- `w'` is `w` with more paths behind its queue.
pub record Extends (w w' : Worker) : Type 0 where
  pub timer : w'.timer ≡ w.timer
  pub publishing : w'.publishing ≡ w.publishing
  pub stopping : w'.stopping ≡ w.stopping
  pub retry_delay : w'.retry_delay ≡ w.retry_delay
  pub more : is_empty w.pending ≡ false → is_empty w'.pending ≡ false
  pub kept : (p : String) → Has p w.pending → Has p w'.pending

Extends-refl : (w : Worker) → Extends w w
Extends-refl w = record {
  timer = refl;
  publishing = refl;
  stopping = refl;
  retry_delay = refl;
  more = λ h. h;
  kept = λ p h. h;
}

Extends-trans : (u v w : Worker) → Extends u v → Extends v w → Extends u w
Extends-trans u v w a b = record {
  timer = b.timer ∙ a.timer;
  publishing = b.publishing ∙ a.publishing;
  stopping = b.stopping ∙ a.stopping;
  retry_delay = b.retry_delay ∙ a.retry_delay;
  more = λ h. b.more (a.more h);
  kept = λ p h. b.kept p (a.kept p h);
}

is_empty-snoc : (xs : List String) (p : String) → is_empty (xs ++ p ∷ []) ≡ false
is_empty-snoc [] p = refl
is_empty-snoc (x ∷ xs) p = refl

not_failed : (x : PathError) → some x ≡ none → ⊥
not_failed x h = cc

Distinct-snoc :
    (xs : List String) (p : String) → IsDistinct xs → ¬ Has p xs → IsDistinct (xs ++ p ∷ [])
Distinct-snoc [] p d n = ground arith
Distinct-snoc (x ∷ xs) p d n =
    ground (arith, Distinct-snoc xs p, Has-append x xs (p ∷ []), eq_iff x p)

abbrev pub add_path : Worker → String → Worker
add_path w path =
    if contains w.pending_set path
    then w
    else record w { pending_set = path ∷ w.pending_set; pending = w.pending ++ path ∷ [] }

add_path-IsQueue : (w : Worker) (path : String) → IsQueue w → IsQueue (add_path w path)
add_path-IsQueue w path q = elim (Bool-cases (contains w.pending_set path)) [
  | inl known ↦ rw known q
  | inr new ↦ rw new (record {
    distinct =
        Distinct-snoc w.pending path q.distinct
          (λ m. ground (arith, contains_iff w.pending_set path, q.same path));
    same = λ p. ground (arith, q.same p, Has-append p w.pending (path ∷ []));
  })
]

add_path-Extends : (w : Worker) (path : String) → Extends w (add_path w path)
add_path-Extends w path = elim (Bool-cases (contains w.pending_set path)) [
  | inl known ↦ rw known (Extends-refl w)
  | inr new ↦ rw new (record {
    timer = refl;
    publishing = refl;
    stopping = refl;
    retry_delay = refl;
    more = λ _. is_empty-snoc w.pending path;
    kept = λ p m. (Has-append p w.pending (path ∷ [])).1 (inl m);
  })
]

Has-add_path : (w : Worker) (path : String) → IsQueue w → Has path (add_path w path).pending
Has-add_path w path q = elim (Bool-cases (contains w.pending_set path)) [
  | inl known ↦ rw known ((q.same path).0 ((contains_iff w.pending_set path).0 known))
  | inr new ↦ rw new ((Has-append path w.pending (path ∷ [])).1 (inr (inl refl)))
]

-- Every event's path is queued.
abbrev pub Queues : String → Worker → List Event → Type 0
Queues workspace w events =
    All (λ e. (p : String) × (normalize_event_path workspace e.path ≡ ok p) × Has p w.pending)
      events

module _ (workspace : String) where
  pub enqueue_paths-ok :
      (w : Worker) (e : Event) (events : List Event) (p : String)
      → normalize_event_path workspace e.path ≡ ok p
      → enqueue_paths workspace w (e ∷ events) ≡ enqueue_paths workspace (add_path w p) events
  unfolding enqueue_paths
  enqueue_paths-ok w e events p n = rw (n, enqueue_paths)

  pub enqueue_paths-err :
      (w : Worker) (e : Event) (events : List Event) (x : PathError)
      → normalize_event_path workspace e.path ≡ err x
      → enqueue_paths workspace w (e ∷ events) ≡ (w, some x)
  unfolding enqueue_paths
  enqueue_paths-err w e events x n = rw (n, enqueue_paths)

  pub enqueue_paths-IsQueue :
      (w : Worker) (events : List Event) → IsQueue w → IsQueue (enqueue_paths workspace w events).0
  enqueue_paths-IsQueue w [] q = unfold enqueue_paths in q
  enqueue_paths-IsQueue w (e ∷ events) q =
      elim (Result-cases (normalize_event_path workspace e.path)) [
        | inl (p, n) ↦
            rw (enqueue_paths-ok w e events p n)
              (enqueue_paths-IsQueue (add_path w p) events (add_path-IsQueue w p q))
        | inr (x, n) ↦ rw (enqueue_paths-err w e events x n) q
      ]

  pub enqueue_paths-Extends :
      (w : Worker) (events : List Event) → Extends w (enqueue_paths workspace w events).0
  enqueue_paths-Extends w [] = unfold enqueue_paths in Extends-refl w
  enqueue_paths-Extends w (e ∷ events) =
      elim (Result-cases (normalize_event_path workspace e.path)) [
        | inl (p, n) ↦ rw (enqueue_paths-ok w e events p n) (
            Extends-trans w (add_path w p) _ (add_path-Extends w p)
              (enqueue_paths-Extends (add_path w p) events))
        | inr (x, n) ↦ rw (enqueue_paths-err w e events x n) (Extends-refl w)
      ]

  pub enqueue_paths-Queues :
      (w : Worker) (events : List Event)
      → IsQueue w
      → (enqueue_paths workspace w events).1 ≡ none
      → Queues workspace (enqueue_paths workspace w events).0 events
  enqueue_paths-Queues w [] q h = tt
  enqueue_paths-Queues w (e ∷ events) q h =
      elim (Result-cases (normalize_event_path workspace e.path)) [
        | inl (p, n) ↦
            let later = enqueue_paths-Extends (add_path w p) events in
            let step = enqueue_paths-ok w e events p n in
            subst (λ r. Queues workspace r.0 (e ∷ events)) (sym step)
              (
                (p, n, later.kept p (Has-add_path w p q)),
                enqueue_paths-Queues (add_path w p) events (add_path-IsQueue w p q) (rw step at h),
              )
        | inr (x, n) ↦ absurd (not_failed x (rw (enqueue_paths-err w e events x n) at h))
      ]
