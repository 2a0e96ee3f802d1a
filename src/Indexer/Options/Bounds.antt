-- ===== src/Indexer/Options/Bounds.antt =====
-- The configuration that `NewManager` of indexer/lifecycle.go ends with.
use agent_wayfinder.Prelude.{List, [], ◌∷◌, arith}
use agent_wayfinder.Prelude.Int.{pos, ◌<ℤ◌}
use agent_wayfinder.Indexer.{Manager}
use agent_wayfinder.Indexer.Options.{
  ManagerOption, apply_option, apply_options, new_manager, default_manager,
}

pub record IsPositive (m : Manager) : Type 0 where
  pub throttle : pos 0 <ℤ m.throttle
  pub idle : pos 0 <ℤ m.idle
  pub retry_base : pos 0 <ℤ m.retry_base
  pub retry_max : pos 0 <ℤ m.retry_max
  pub reconcile : pos 0 <ℤ m.reconcile

apply_option-IsPositive :
    (m : Manager) (o : ManagerOption) → IsPositive m → IsPositive (apply_option m o)
unfolding apply_option
apply_option-IsPositive m o h = ground arith

apply_options-IsPositive :
    (m : Manager) (options : List ManagerOption)
    → IsPositive m
    → IsPositive (apply_options m options)
unfolding apply_options
apply_options-IsPositive m [] h = h
apply_options-IsPositive m (o ∷ options) h =
    apply_options-IsPositive (apply_option m o) options (apply_option-IsPositive m o h)

-- Whatever the options, zero and negative durations among them, the throttle, the idle timeout,
-- the retry bounds and the reconciliation interval of a new manager are positive.
pub new_manager-IsPositive : (options : List ManagerOption) → IsPositive (new_manager options)
unfolding new_manager
new_manager-IsPositive options = apply_options-IsPositive default_manager options (omega arith)
