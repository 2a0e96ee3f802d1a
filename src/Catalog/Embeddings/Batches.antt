-- ===== src/Catalog/Embeddings/Batches.antt =====
-- The batches of requests that index/catalog.go makes: each has at least one request and at most 32, and
-- together they are all requests, in order.
use agent_wayfinder.Prelude.{
  ℕ, zero, suc, ◌+◌, ◌*◌, ◌<◌, ◌≤◌, List, [], ◌∷◌, ◌++◌, length, ◌≡◌, refl, sym, ◌∙◌, ap, arith,
}
use agent_wayfinder.Catalog.Requests.{EmbeddingRequest}
use agent_wayfinder.Catalog.Embeddings.{first_requests, requests_after, batch_of, batch_count}

first_requests-append :
    (n : ℕ) (requests : List EmbeddingRequest)
    → first_requests n requests ++ requests_after n requests ≡ requests
unfolding first_requests requests_after
first_requests-append zero requests = refl
first_requests-append (suc n) [] = refl
first_requests-append (suc n) (r ∷ requests) =
    ap (λ (rest : List EmbeddingRequest). r ∷ rest) (first_requests-append n requests)

pub requests_after-none :
    (n : ℕ) (requests : List EmbeddingRequest)
    → length requests ≤ n
    → requests_after n requests ≡ []
unfolding requests_after
requests_after-none zero [] h = refl
requests_after-none zero (r ∷ requests) h = absurd (omega (arith, h))
requests_after-none (suc n) [] h = refl
requests_after-none (suc n) (r ∷ requests) h = requests_after-none n requests (omega (arith, h))

requests_after-same :
    (n m : ℕ) (requests : List EmbeddingRequest)
    → n ≡ m
    → requests_after n requests ≡ requests_after m requests
requests_after-same n m requests e = ap (λ (k : ℕ). requests_after k requests) e

requests_after-requests_after :
    (n m : ℕ) (requests : List EmbeddingRequest)
    → requests_after n (requests_after m requests) ≡ requests_after (m + n) requests
unfolding requests_after
requests_after-requests_after n zero requests = requests_after-same n (0 + n) requests (omega arith)
requests_after-requests_after zero (suc m) [] =
    sym (requests_after-none (suc m + 0) [] (omega arith))
requests_after-requests_after (suc n) (suc m) [] =
    sym (requests_after-none (suc m + suc n) [] (omega arith))
requests_after-requests_after n (suc m) (r ∷ requests) =
    requests_after-requests_after n m requests
    ∙ requests_after-same (suc (m + n)) (suc m + n) (r ∷ requests) (omega arith)

length-first_requests :
    (n : ℕ) (requests : List EmbeddingRequest) → length (first_requests n requests) ≤ n
unfolding first_requests
length-first_requests zero requests = omega arith
length-first_requests (suc n) [] = omega arith
length-first_requests (suc n) (r ∷ requests) = omega (arith, length-first_requests n requests)

first_requests-filled :
    (n m : ℕ) (requests : List EmbeddingRequest)
    → m < length requests
    → 0 < length (first_requests (suc n) (requests_after m requests))
unfolding first_requests requests_after
first_requests-filled n m [] h = absurd (omega (arith, h))
first_requests-filled n zero (r ∷ requests) h = omega arith
first_requests-filled n (suc m) (r ∷ requests) h =
    first_requests-filled n m requests (omega (arith, h))

pub length-batch_of :
    (requests : List EmbeddingRequest) (index : ℕ)
    → index * 32 < length requests
    → (0 < length (batch_of requests index)) × (length (batch_of requests index) ≤ 32)
unfolding batch_of
length-batch_of requests index h = (
  first_requests-filled 31 (index * 32) requests h,
  length-first_requests 32 (requests_after (index * 32) requests),
)

-- What is left at a batch is the batch and what is left after it.
pub batch_of-append :
    (requests : List EmbeddingRequest) (index : ℕ)
    → batch_of requests index ++ requests_after (suc index * 32) requests
      ≡ requests_after (index * 32) requests
unfolding batch_of
batch_of-append requests index =
    ap
      (λ (rest : List EmbeddingRequest).
        first_requests 32 (requests_after (index * 32) requests) ++ rest)
      (sym (
        requests_after-requests_after 32 (index * 32) requests
        ∙ requests_after-same (index * 32 + 32) (suc index * 32) requests (omega arith)))
    ∙ first_requests-append 32 (requests_after (index * 32) requests)

pub requests_after-zero :
    (requests : List EmbeddingRequest) → requests_after (0 * 32) requests ≡ requests
unfolding requests_after
requests_after-zero requests = refl

-- Every batch starts before the end, and the last one ends there or after it.
pub batch_count-bounds :
    (n : ℕ) → ((i : ℕ) → i < batch_count n → i * 32 < n) × (n ≤ batch_count n * 32)
batch_count-bounds n = (λ i h. omega (arith, h), omega arith)
