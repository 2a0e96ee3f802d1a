-- ===== src/Indexer/Queue/Backoff.antt =====
-- The delay between the retries of a failing publisher, indexer/queue.go.
use native.Mathlib.Nat.{pow-suc}
use agent_wayfinder.Prelude.{
  String, List, [], ◌∷◌, ℕ, zero, suc, ◌<◌, ◌≤◌, ◌*◌, ◌^◌, ◌≡◌, refl, ap, ◌∙◌, arith, min, none,
  some,
}
use agent_wayfinder.Prelude.Int.{pos, double64-pos}
use agent_wayfinder.Indexer.{Manager, Worker}
use agent_wayfinder.Indexer.Queue.{
  Outcome, published, failed, panicked, call_publisher, next_delay, end_worker,
}

-- The ends of the `publish` calls of a worker, in their order, each with its batch.
abbrev pub settle_all : Manager → Worker → List (List String × Outcome) → Worker
settle_all m w [] = w
settle_all m w ((paths, outcome) ∷ calls) = settle_all m (end_worker m paths outcome w) calls

-- The failures since the last success.
abbrev pub streak : ℕ → List (List String × Outcome) → ℕ
streak n [] = n
streak n ((paths, published) ∷ calls) = streak 0 calls
streak n ((paths, failed e) ∷ calls) = streak (suc n) calls
streak n ((paths, panicked e) ∷ calls) = streak (suc n) calls

-- The delay after so many failures: the base, doubled each time, up to the maximum.
abbrev pub backoff : ℕ → ℕ → ℕ → ℕ
backoff base maximum zero = 0
backoff base maximum (suc n) = min (base * 2 ^ n) maximum

two_pow-pos : (n : ℕ) → 0 < 2 ^ n
two_pow-pos zero = omega arith
two_pow-pos (suc n) = rw pow-suc (omega (arith, two_pow-pos n))

doubled_pow : (base n : ℕ) → base * 2 ^ suc n ≡ 2 * (base * 2 ^ n)
doubled_pow base n = rw pow-suc (omega arith)

pub end_worker-retry_delay :
    (m : Manager) (w : Worker) (paths : List String) (outcome : Outcome)
    → (end_worker m paths outcome w).retry_delay
      ≡ elim (call_publisher outcome) [ none ↦ pos 0 | some e ↦ next_delay m w.retry_delay ]
unfolding end_worker
end_worker-retry_delay m w paths outcome = ground arith

module _ (m : Manager) (base maximum : ℕ) (b : m.retry_base ≡ pos base)
    (x : m.retry_max ≡ pos maximum) (some_base : 0 < base) (ordered : base ≤ maximum)
    (small : maximum < 2 ^ 62) where
  next_delay-pos : (t : ℕ) → 0 < t → t ≤ maximum → next_delay m (pos t) ≡ pos (min (2 * t) maximum)
  unfolding next_delay
  next_delay-pos t p q = ground (arith, double64-pos t)

  backoff_pos :
      (n : ℕ) → (0 < backoff base maximum (suc n)) × (backoff base maximum (suc n) ≤ maximum)
  backoff_pos n = (grind (arith, two_pow-pos n), omega arith)

  next_delay-backoff :
      (n : ℕ) → next_delay m (pos (backoff base maximum n)) ≡ pos (backoff base maximum (suc n))
  next_delay-backoff zero = unfold next_delay in ground arith
  next_delay-backoff (suc n) =
      let (p, q) = backoff_pos n in
      rw (next_delay-pos (backoff base maximum (suc n)) p q)
        (ap pos (omega (arith, doubled_pow base n)))

  settle_all-retry_delay :
      (n : ℕ) (w : Worker) (calls : List (List String × Outcome))
      → w.retry_delay ≡ pos (backoff base maximum n)
      → (settle_all m w calls).retry_delay ≡ pos (backoff base maximum (streak n calls))
  settle_all-retry_delay n w [] h = h
  settle_all-retry_delay n w ((paths, published) ∷ calls) h =
      settle_all-retry_delay 0 (end_worker m paths published w) calls
        (end_worker-retry_delay m w paths published ∙ unfold call_publisher in refl)
  settle_all-retry_delay n w ((paths, failed e) ∷ calls) h =
      settle_all-retry_delay (suc n) (end_worker m paths (failed e) w) calls (
        end_worker-retry_delay m w paths (failed e)
        ∙ unfold call_publisher in (ap (next_delay m) h ∙ next_delay-backoff n))
  settle_all-retry_delay n w ((paths, panicked e) ∷ calls) h =
      settle_all-retry_delay (suc n) (end_worker m paths (panicked e) w) calls (
        end_worker-retry_delay m w paths (panicked e)
        ∙ unfold call_publisher in (ap (next_delay m) h ∙ next_delay-backoff n))

  -- With 0 < base ≤ maximum < 2^62 nanoseconds, and from a worker with no delay: after any
  -- sequence of publisher results, panics among the failures, the retry delay is the base doubled
  -- for each failure since the last success but the first, up to the maximum, and 0 after a
  -- success. No doubling wraps around.
  pub retry_backoff :
      (w : Worker) (calls : List (List String × Outcome))
      → w.retry_delay ≡ pos 0
      → (settle_all m w calls).retry_delay ≡ pos (backoff base maximum (streak 0 calls))
  retry_backoff w calls h = settle_all-retry_delay 0 w calls h
