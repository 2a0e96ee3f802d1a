-- ===== src/Indexer/System/Accounts.antt =====
-- Where a path of the indexer is: pending, or with a call of `publish` that began later, or delivered.
use agent_wayfinder.Prelude.{
  ℕ, zero, suc, ◌≤◌, subst, String, List, [], ◌∷◌, ◌++◌, ◌≡◌, ◌≢◌, ◌⊎◌, inl, inr, refl, ap, arith,
  Option, none, some, lookup, Bool-cases, Has, Has-append, Any,
}
use agent_wayfinder.Indexer.{Worker, Manager, Batch, Event, Duration}
use agent_wayfinder.Indexer.EventPath.{PathError}
use agent_wayfinder.Indexer.EventPath.Unique.{Has-unique_paths}
use agent_wayfinder.Indexer.Queue.{
  Outcome, published, failed, panicked, enqueue_paths, enqueue_worker, after_enqueue, begin_worker,
  end_worker,
}
use agent_wayfinder.Indexer.System.{
  Call, call_at, drop_call, called, System, Action, deliver, finished, stop_tried,
}
use agent_wayfinder.Indexer.System.Worker.{enqueue_paths-Extends}

abbrev pub pending_of : Option Worker → List String
pending_of none = []
pending_of (some w) = w.pending

-- A call of the workspace that holds the path, and that began when `first` calls had begun, or later.
abbrev pub IsSince : ℕ → String → String → Call → Type 0
IsSince first ws p c = (first ≤ c.number) × (c.workspace ≡ ws) × Has p c.paths

-- The path is pending for the workspace, or a call of `publish` since then holds it and runs, or has
-- delivered it.
abbrev pub Accounts : ℕ → String → String → Option Worker → List Call → List Call → Type 0
Accounts first ws p worker calls log =
    Has p (pending_of worker) ⊎ Any (IsSince first ws p) calls ⊎ Any (IsSince first ws p) log

abbrev pub IsAccounted : ℕ → System → String → String → Type 0
IsAccounted first s ws p = Accounts first ws p (lookup ws s.manager.workers) s.calls s.delivered

-- The action does not remove the worker of the workspace.
abbrev pub Spares : String → Action → Type 0
Spares ws (stop_tried k none) = k ≢ ws
Spares ws _ = Unit

pub after_enqueue-pending :
    (d : Duration) (r : Worker × Option PathError) → (after_enqueue d r).0.pending ≡ r.0.pending
unfolding after_enqueue
after_enqueue-pending d (w, some e) = refl
after_enqueue-pending d (w, none) = ground arith

pub enqueue_worker_keeps :
    (d : Duration) (ws : String) (w : Worker) (events : List Event) (p : String)
    → Has p w.pending
    → Has p (enqueue_worker d ws w events).0.pending
unfolding enqueue_worker
enqueue_worker_keeps d ws w events p h = elim (Bool-cases w.stopping) [
  | inl s ↦ simp s h
  | inr s ↦ simp s (
      rw (after_enqueue-pending d (enqueue_paths ws w events))
        ((enqueue_paths-Extends ws w events).kept p h))
]

pub end_worker_keeps :
    (m : Manager) (paths : List String) (outcome : Outcome) (w : Worker) (p : String)
    → Has p w.pending
    → Has p (end_worker m paths outcome w).pending
unfolding end_worker
end_worker_keeps m paths outcome w p h =
    ground (arith, Has-unique_paths (paths ++ w.pending) p, Has-append p paths w.pending)

-- What a call held is delivered or pending again.
pub end_worker_returns :
    (m : Manager) (c : Call) (outcome : Outcome) (w : Worker) (first : ℕ) (ws p : String)
    (log : List Call)
    → IsSince first ws p c
    → Has p (end_worker m c.paths outcome w).pending
      ⊎ Any (IsSince first ws p) (deliver outcome c log)
unfolding end_worker
end_worker_returns m c published w first ws p log h = inr (inl h)
end_worker_returns m c (failed e) w first ws p log h =
    inl
      (ground (arith, h, Has-unique_paths (c.paths ++ w.pending) p, Has-append p c.paths w.pending))
end_worker_returns m c (panicked e) w first ws p log h =
    inl
      (ground (arith, h, Has-unique_paths (c.paths ++ w.pending) p, Has-append p c.paths w.pending))

-- The batch is all that was pending.
pub begin_takes :
    (w w' : Worker) (paths : List String) → begin_worker w ≡ some (w', paths) → w.pending ≡ paths
unfolding begin_worker
begin_takes w w' paths b = ground arith

pub deliver_keeps :
    (outcome : Outcome) (c : Call) (log : List Call) (P : Call → Type 0)
    → Any P log
    → Any P (deliver outcome c log)
deliver_keeps published c log P h = inr h
deliver_keeps (failed e) c log P h = h
deliver_keeps (panicked e) c log P h = h

pub Any-drop_call :
    (P : Call → Type 0) (index : ℕ) (c : Call) (calls : List Call)
    → call_at index calls ≡ some c
    → Any P calls
    → P c ⊎ Any P (drop_call index calls)
Any-drop_call P index c [] e h = absurd h
Any-drop_call P zero c (d ∷ calls) e (inl h) =
    inl (subst P (ap (λ (o : Option Call). elim o [ none ↦ d | some x ↦ x ]) e) h)
Any-drop_call P zero c (d ∷ calls) e (inr h) = inr h
Any-drop_call P (suc index) c (d ∷ calls) e (inl h) = inr (inl h)
Any-drop_call P (suc index) c (d ∷ calls) e (inr h) = elim (Any-drop_call P index c calls e h) [
  | inl k ↦ inl k
  | inr k ↦ inr (inr k)
]

pub called-begun : (s : System) (r : Manager × Option Batch) → s.begun ≤ (called s r).begun
called-begun s (m, none) = omega arith
called-begun s (m, some b) = omega arith

pub finished-begun :
    (s : System) (index : ℕ) (outcome : Outcome) (o : Option Call)
    → s.begun ≤ (finished s index outcome o).begun
finished-begun s index outcome none = omega arith
finished-begun s index outcome (some c) = omega arith
