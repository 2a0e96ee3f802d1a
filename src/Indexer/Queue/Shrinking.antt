-- ===== src/Indexer/Queue/Shrinking.antt =====
-- The delays between the retries where `WithRetryBackoff` of indexer/queue.go takes a base above the
-- maximum.
use agent_wayfinder.Prelude.{String, List, [], ◌∷◌, ℕ, ◌<◌, ◌*◌, ◌^◌, ◌≡◌, ◌∙◌, ap, arith, All}
use agent_wayfinder.Prelude.Int.{pos, ◌<ℤ◌, double64-pos}
use agent_wayfinder.Indexer.{Manager, Worker, Duration}
use agent_wayfinder.Indexer.Options.{with_retry_backoff, new_manager, max_retry_backoff, second}
use agent_wayfinder.Indexer.Queue.{
  Outcome, published, failed, panicked, call_publisher, next_delay, end_worker,
}
use agent_wayfinder.Indexer.Queue.Backoff.{settle_all, end_worker-retry_delay}

-- A publisher that returns an error or panics.
abbrev pub IsFailure : List String × Outcome → Type 0
IsFailure (paths, published) = ⊥
IsFailure (paths, failed e) = Unit
IsFailure (paths, panicked e) = Unit

abbrev pub overlong : ℕ → Duration → Manager
overlong base maximum = new_manager (with_retry_backoff (pos base) maximum ∷ [])

module _ (base : ℕ) (maximum : Duration) (above : max_retry_backoff <ℤ pos base)
    (below : maximum <ℤ pos base) (small : base < 2 ^ 62) where
  overlong-bounds :
      ((overlong base maximum).retry_base ≡ pos base)
      × ((overlong base maximum).retry_max ≡ max_retry_backoff)
  unfolding new_manager
  overlong-bounds = ground arith

  next_delay-first : next_delay (overlong base maximum) (pos 0) ≡ pos base
  unfolding next_delay
  next_delay-first = ground (arith, overlong-bounds)

  next_delay-base : next_delay (overlong base maximum) (pos base) ≡ max_retry_backoff
  unfolding next_delay
  next_delay-base = let (_, x) = overlong-bounds in rw (x, double64-pos base small) (ground arith)

  next_delay-later : next_delay (overlong base maximum) max_retry_backoff ≡ max_retry_backoff
  unfolding next_delay
  next_delay-later =
      let (_, x) = overlong-bounds in
      rw (x, double64-pos (60 * second) (omega arith)) (ground arith)

  failure-retry_delay :
      (w : Worker) (call : List String × Outcome)
      → IsFailure call
      → (end_worker (overlong base maximum) call.0 call.1 w).retry_delay
        ≡ next_delay (overlong base maximum) w.retry_delay
  unfolding call_publisher
  failure-retry_delay w (paths, published) h = absurd h
  failure-retry_delay w (paths, failed e) h =
      end_worker-retry_delay (overlong base maximum) w paths (failed e)
  failure-retry_delay w (paths, panicked e) h =
      end_worker-retry_delay (overlong base maximum) w paths (panicked e)

  settle_all-later :
      (w : Worker) (calls : List (List String × Outcome))
      → All IsFailure calls
      → w.retry_delay ≡ max_retry_backoff
      → (settle_all (overlong base maximum) w calls).retry_delay ≡ max_retry_backoff
  settle_all-later w [] fails h = h
  settle_all-later w (call ∷ calls) fails h =
      settle_all-later (end_worker (overlong base maximum) call.0 call.1 w) calls fails.1 (
        failure-retry_delay w call fails.0
        ∙ ap (next_delay (overlong base maximum)) h
        ∙ next_delay-later)

  -- A retry backoff with a base above a minute and below 2^62 nanoseconds, and a smaller maximum, makes a
  -- worker with no delay wait the base after the first failure of its publisher, and after a second one and
  -- any further ones only a minute: the maximum is ignored, and the delays shrink.
  pub retry_delay_shrinks :
      (w : Worker) (first second_call : List String × Outcome)
      (calls : List (List String × Outcome))
      → w.retry_delay ≡ pos 0
      → All IsFailure (first ∷ second_call ∷ calls)
      → let once = end_worker (overlong base maximum) first.0 first.1 w in
        (once.retry_delay ≡ pos base)
        × ((settle_all (overlong base maximum) w (first ∷ second_call ∷ calls)).retry_delay
            ≡ max_retry_backoff)
        × ((settle_all (overlong base maximum) w (first ∷ second_call ∷ calls)).retry_delay
            <ℤ once.retry_delay)
  retry_delay_shrinks w first second_call calls h fails =
      let once = end_worker (overlong base maximum) first.0 first.1 w in
      let waits =
        failure-retry_delay w first fails.0
        ∙ ap (next_delay (overlong base maximum)) h
        ∙ next_delay-first in
      let then_less =
        settle_all-later (end_worker (overlong base maximum) second_call.0 second_call.1 once) calls
          fails.1.1
          (failure-retry_delay once second_call fails.1.0
            ∙ ap (next_delay (overlong base maximum)) waits
            ∙ next_delay-base) in
      (waits, then_less, rw (then_less, waits) above)
