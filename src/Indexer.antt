-- ===== src/Indexer.antt =====
-- indexer/lifecycle.go and indexer/queue.go: the state of the workspace indexer. A duration is an
-- `int64` of nanoseconds, an instant a number of nanoseconds; a map of workers is an association
-- list under the absolute workspace root.
pub mod Options
pub mod EventPath
pub mod Queue
pub mod Lifecycle
pub mod System
use agent_wayfinder.Prelude.{String, ℕ, List, [], Bool, Option, none, ◌+◌}
use agent_wayfinder.Prelude.Int.{ℤ, pos, pos_part}

abbrev pub Duration : Type 0
Duration = ℤ

abbrev pub Time : Type 0
Time = ℕ

pub record Event : Type 0 where
  pub path : String

pub record Batch : Type 0 where
  pub workspace : String
  pub paths : List String

pub record Progress : Type 0 where
  pub completed : ℕ
  pub total : ℕ

pub record Status : Type 0 where
  pub workspace : String
  pub endpoint : String
  pub running : Bool
  pub activity : Time
  pub progress : Progress
  pub queued_paths : List String
  pub version : ℕ
  pub error : String
  pub idle_deadline : Time

-- The owner holds the lock of the workspace until `Close`; its endpoint is what the status shows.
pub record Owner : Type 0 where
  pub endpoint : String

-- `timer` and `reconcile_timer` hold the delay of the scheduled callback. `publishDone`, which is
-- closed when `publishing` is reset, has no field of its own.
pub record Worker : Type 0 where
  pub owner : Owner
  pub status : Status
  pub pending : List String
  pub pending_set : List String
  pub timer : Option Duration
  pub publishing : Bool
  pub stopping : Bool
  pub retry_delay : Duration
  pub reconcile_timer : Option Duration

-- The publisher and the reconciler are callbacks of the caller: their answers are arguments of
-- the operations. `reconciler` says whether one is set.
pub record Manager : Type 0 where
  pub workers : List (String × Worker)
  pub throttle : Duration
  pub idle : Duration
  pub retry_base : Duration
  pub retry_max : Duration
  pub reconciler : Bool
  pub reconcile : Duration

-- `now.Add(d)` for a duration that is not negative.
abbrev pub add_duration : Time → Duration → Time
add_duration t d = t + pos_part d
