-- ===== src/Indexer/Options.antt =====
-- indexer/lifecycle.go and indexer/queue.go: `NewManager` and its options.
pub mod Bounds
use agent_wayfinder.Prelude.{List, [], ◌∷◌, Bool, true, false, not, if◌then◌else◌, ℕ, ◌*◌}
use agent_wayfinder.Prelude.Int.{ℤ, pos, ltb_ℤ}
use agent_wayfinder.Indexer.{Duration, Manager}

abbrev pub second : ℕ
second = 1000000000

abbrev pub idle_timeout : Duration
idle_timeout = pos (300 * second)

abbrev pub publish_throttle : Duration
publish_throttle = pos 250000000

abbrev pub retry_backoff : Duration
retry_backoff = pos second

abbrev pub max_retry_backoff : Duration
max_retry_backoff = pos (60 * second)

abbrev pub reconcile_period : Duration
reconcile_period = pos (300 * second)

-- The options that set a field of the model; `WithPublisher` sets the callback.
pub data ManagerOption : Type 0 where
  with_publish_throttle with_idle_timeout with_reconciliation_interval : Duration → ManagerOption
  with_retry_backoff : Duration → Duration → ManagerOption
  with_reconciler : Bool → ManagerOption

unfoldable pub apply_option : Manager → ManagerOption → Manager
apply_option m (with_publish_throttle d) = if ltb_ℤ (pos 0) d then record m { throttle = d } else m
apply_option m (with_idle_timeout d) = if ltb_ℤ (pos 0) d then record m { idle = d } else m
apply_option m (with_reconciliation_interval d) =
    if ltb_ℤ (pos 0) d then record m { reconcile = d } else m
apply_option m (with_retry_backoff base maximum) =
    let m' = if ltb_ℤ (pos 0) base then record m { retry_base = base } else m in
    if not (ltb_ℤ maximum m'.retry_base) then record m' { retry_max = maximum } else m'
apply_option m (with_reconciler r) = record m { reconciler = r }

abbrev pub default_manager : Manager
default_manager = record {
  workers = [];
  throttle = publish_throttle;
  idle = idle_timeout;
  retry_base = retry_backoff;
  retry_max = max_retry_backoff;
  reconciler = false;
  reconcile = reconcile_period;
}

unfoldable pub apply_options : Manager → List ManagerOption → Manager
unfolding apply_option
apply_options m [] = m
apply_options m (o ∷ options) = apply_options (apply_option m o) options

unfoldable pub new_manager : List ManagerOption → Manager
unfolding apply_options
new_manager options = apply_options default_manager options
