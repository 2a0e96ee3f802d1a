-- ===== src/Indexer/System/Stranded.antt =====
-- Where an error leaves pending paths with neither a timer nor a publisher.
use agent_wayfinder.Prelude.{
  String, List, [], ◌∷◌, ◌++◌, ◌≡◌, refl, ◌∙◌, false, eq_refl, none, some, ok, err, lookup,
  lookup-insert, is_empty, contains,
}
use agent_wayfinder.Indexer.{Worker, Manager, Event}
use agent_wayfinder.Indexer.EventPath.{PathError, normalize_event_path}
use agent_wayfinder.Indexer.Queue.{
  bad_path, set_worker, enqueue, enqueue_paths, enqueue_worker, after_enqueue,
}
use agent_wayfinder.Indexer.System.Worker.{add_path, enqueue_paths-ok, enqueue_paths-err}
use agent_wayfinder.Indexer.Lifecycle.{stop_round, close_worker, halt, close_failed}

-- The worker of the workspace has pending paths, is neither stopping nor publishing, and has no
-- timer: nothing will publish the paths until another `Enqueue`.
pub record IsStranded (m : Manager) (ws : String) : Type 0 where
  pub worker : Worker
  pub there : lookup ws m.workers ≡ some worker
  pub waiting : is_empty worker.pending ≡ false
  pub running : worker.stopping ≡ false
  pub quiet : worker.publishing ≡ false
  pub untimed : worker.timer ≡ none

-- A `Stop` that fails to give up the lock of a worker with pending paths that does not publish
-- strands them: their timer is gone, and the worker runs on.
pub stop-IsStranded :
    (m : Manager) (ws : String) (w : Worker) (e : String)
    → lookup ws m.workers ≡ some w
    → w.publishing ≡ false
    → is_empty w.pending ≡ false
    → ((stop_round m ws (some e)).1 ≡ close_failed e) × IsStranded (stop_round m ws (some e)).0 ws
unfolding stop_round close_worker
stop-IsStranded m ws w e found quiet waiting =
    rw (found, stop_round)
      (simp quiet (
        refl,
        record {
          worker = record (halt w) { publishing = false; stopping = false };
          there = unfold set_worker in rw (lookup-insert, eq_refl) refl;
          waiting = waiting;
          running = refl;
          quiet = refl;
          untimed = refl;
        },
      ))

stopped_early :
    (ws : String) (w : Worker) (good bad : Event) (p : String) (x : PathError)
    → contains w.pending_set p ≡ false
    → normalize_event_path ws good.path ≡ ok p
    → normalize_event_path ws bad.path ≡ err x
    → enqueue_paths ws w (good ∷ bad ∷ [])
      ≡ (record w { pending_set = p ∷ w.pending_set; pending = w.pending ++ p ∷ [] }, some x)
stopped_early ws w good bad p x new g b =
    enqueue_paths-ok ws w good (bad ∷ []) p g
    ∙ enqueue_paths-err ws (add_path w p) bad [] x b
    ∙ rw new refl

is_empty-snoc : (xs : List String) (p : String) → is_empty (xs ++ p ∷ []) ≡ false
is_empty-snoc [] p = refl
is_empty-snoc (x ∷ xs) p = refl

-- An `Enqueue` of a new path that is accepted and a path that is refused, for a running worker that
-- does not publish and has no timer, reports the refused one and strands the accepted one.
pub enqueue-IsStranded :
    (m : Manager) (ws : String) (w : Worker) (good bad : Event) (p : String) (x : PathError)
    → lookup ws m.workers ≡ some w
    → w.stopping ≡ false
    → w.publishing ≡ false
    → w.timer ≡ none
    → contains w.pending_set p ≡ false
    → normalize_event_path ws good.path ≡ ok p
    → normalize_event_path ws bad.path ≡ err x
    → ((enqueue m ws (good ∷ bad ∷ [])).1 ≡ some (bad_path x))
      × IsStranded (enqueue m ws (good ∷ bad ∷ [])).0 ws
unfolding enqueue enqueue_worker
enqueue-IsStranded m ws w good bad p x found s q t new g b =
    let early = stopped_early ws w good bad p x new g b in
    rw (found, enqueue)
      (simp (s, early)
        (unfold after_enqueue in
          (
            refl,
            record {
              worker = record w {
                pending_set = p ∷ w.pending_set;
                pending = w.pending ++ p ∷ [];
                stopping = false;
              };
              there = unfold set_worker in rw (lookup-insert, eq_refl) refl;
              waiting = is_empty-snoc w.pending p;
              running = refl;
              quiet = q;
              untimed = t;
            },
          )))
