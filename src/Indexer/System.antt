-- ===== src/Indexer/System.antt =====
-- The indexer with its callers, timers and publishers: every interleaving of the critical sections
-- of indexer/lifecycle.go and indexer/queue.go is a list of actions.
pub mod Worker
pub mod Cells
pub mod Writes
pub mod Invariant
pub mod Accounts
pub mod Delivery
pub mod Enqueued
pub mod Liveness
pub mod Stranded
use agent_wayfinder.Prelude.{ℕ, zero, suc, String, List, [], ◌∷◌, Option, none, some, Result}
use agent_wayfinder.Indexer.{Time, Event, Batch, Owner, Manager}
use agent_wayfinder.Indexer.Options.{ManagerOption, new_manager}
use agent_wayfinder.Indexer.Queue.{
  Outcome, published, enqueue, begin_publish, end_publish, begin_reconcile, end_reconcile,
}
use agent_wayfinder.Indexer.Lifecycle.{start, touch, stop_round}

-- A `publish` that has taken a batch, with its number in the order in which they begin.
pub record Call : Type 0 where
  pub number : ℕ
  pub workspace : String
  pub paths : List String

-- `calls` holds the calls of `publish` that have given the lock up, of all goroutines, the last begun
-- first; `begun` counts those that have begun; `delivered` is what publishers have accepted, the last
-- first.
pub record System : Type 0 where
  pub manager : Manager
  pub calls : List Call
  pub begun : ℕ
  pub delivered : List Call

-- A critical section, under the absolute root of its workspace, with what its callbacks answer. A call
-- that returns is named by its place in `calls`.
pub data Action : Type 0 where
  started : String → Result String Owner → Time → Action
  touched : String → Time → Action
  enqueued : String → List Event → Action
  fired : String → Action
  returned : ℕ → Outcome → Action
  reconcile_fired : String → Action
  reconciled : String → Option String → Action
  stop_tried : String → Option String → Action

abbrev pub called : System → Manager × Option Batch → System
called s (m, none) = record s { manager = m }
called s (m, some b) = record s {
  manager = m;
  calls = record { number = s.begun; workspace = b.workspace; paths = b.paths } ∷ s.calls;
  begun = suc s.begun;
}

abbrev pub call_at : ℕ → List Call → Option Call
call_at index [] = none
call_at zero (c ∷ calls) = some c
call_at (suc index) (c ∷ calls) = call_at index calls

abbrev pub drop_call : ℕ → List Call → List Call
drop_call index [] = []
drop_call zero (c ∷ calls) = calls
drop_call (suc index) (c ∷ calls) = c ∷ drop_call index calls

abbrev pub deliver : Outcome → Call → List Call → List Call
deliver published c log = c ∷ log
deliver _ c log = log

abbrev pub finished : System → ℕ → Outcome → Option Call → System
finished s index outcome none = s
finished s index outcome (some c) = record s {
  manager = end_publish s.manager c.workspace c.paths outcome;
  calls = drop_call index s.calls;
  delivered = deliver outcome c s.delivered;
}

unfoldable pub step : System → Action → System
step s (started ws acquired now) = record s { manager = (start s.manager ws acquired now).0 }
step s (touched ws now) = record s { manager = (touch s.manager ws now).0 }
step s (enqueued ws events) = record s { manager = (enqueue s.manager ws events).0 }
step s (fired ws) = called s (begin_publish s.manager ws)
step s (returned index outcome) = finished s index outcome (call_at index s.calls)
step s (reconcile_fired ws) = record s { manager = (begin_reconcile s.manager ws).0 }
step s (reconciled ws e) = record s { manager = end_reconcile s.manager ws e }
step s (stop_tried ws closed) = record s { manager = (stop_round s.manager ws closed).0 }

unfoldable pub run : System → List Action → System
run s [] = s
run s (a ∷ actions) = run (step s a) actions

unfoldable pub initial : List ManagerOption → System
initial options = record { manager = new_manager options; calls = []; begun = 0; delivered = [] }
