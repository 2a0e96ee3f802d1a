-- ===== src/Catalog/Embeddings.antt =====
-- index/catalog.go: `addCatalogEmbeddings`, which has the synopses embedded that have no stored embedding,
-- and `generateCatalogEmbeddings`. Goroutines take the batches in order, and their answers arrive in any:
-- `arrive` puts the indexes of the batches in that order. How many goroutines there are does not matter.
pub mod Batches
pub mod Vectors
pub mod Exact
use agent_wayfinder.Prelude.{
  ℕ, zero, suc, ◌+◌, ◌*◌, ◌/◌, String, ◌==◌, List, [], ◌∷◌, ◌++◌, Bool, not, nat_eq, if◌then◌else◌,
  Option, none, some, map, is_empty, length, contains, Result, ok, err,
}
use agent_wayfinder.Catalog.{
  CatalogEntry, CatalogEmbedding, CatalogWriteResult, EmbeddingGenerator, CatalogWriter,
}
use agent_wayfinder.Catalog.Requests.{EmbeddingRequest, embedding_key, append_entries, stored_keys}

abbrev pub embedding_batch_size : ℕ
embedding_batch_size = 32

abbrev pub batch_count : ℕ → ℕ
batch_count n = (n + 31) / 32

abbrev pub texts_of : List EmbeddingRequest → List String
texts_of requests = map (λ (request : EmbeddingRequest). request.text) requests

unfoldable pub first_requests : ℕ → List EmbeddingRequest → List EmbeddingRequest
first_requests zero requests = []
first_requests (suc n) [] = []
first_requests (suc n) (request ∷ requests) = request ∷ first_requests n requests

unfoldable pub requests_after : ℕ → List EmbeddingRequest → List EmbeddingRequest
requests_after zero requests = requests
requests_after (suc n) [] = []
requests_after (suc n) (request ∷ requests) = requests_after n requests

-- `requests[start:end]` for the index of a batch.
unfoldable pub batch_of : List EmbeddingRequest → ℕ → List EmbeddingRequest
unfolding first_requests requests_after
batch_of requests index =
    first_requests embedding_batch_size (requests_after (index * embedding_batch_size) requests)

abbrev pub count_up : ℕ → ℕ → List ℕ
count_up zero index = []
count_up (suc n) index = index ∷ count_up n (suc index)

abbrev pub not_generated : CatalogWriteResult → CatalogWriteResult
not_generated result = record result {
  embedding_unavailable_reason = "Catalog embedding generation is unavailable";
}

abbrev pub not_stored : CatalogWriteResult → CatalogWriteResult
not_stored result = record result {
  embedding_unavailable_reason = "Catalog embedding storage is unavailable";
}

abbrev pub Vectors : Type 0 → Type 0
Vectors F = Result String (List (List F))

abbrev pub Output : Type 0 → Type 0
Output F = List (CatalogEmbedding F) × CatalogWriteResult

-- The result, and the embeddings that are handed to the writer, if any are.
abbrev pub Written : Type 0 → Type 0
Written F = CatalogWriteResult × Option (List (CatalogEmbedding F))

module _ {F : Type 0} where
  abbrev pub embedding_of : EmbeddingRequest → List F → CatalogEmbedding F
  embedding_of request vector = record {
    node_id = request.node_id;
    source = request.source;
    text = request.text;
    vector = vector;
  }

  abbrev pub add_vector : EmbeddingRequest → List F → Output F → Output F
  add_vector request [] (embeddings, result) = (embeddings, not_generated result)
  add_vector request (x ∷ xs) (embeddings, result) =
      (embeddings ++ embedding_of request (x ∷ xs) ∷ [], result)

  -- `addCatalogEmbedding`
  abbrev pub add_generated : EmbeddingRequest → Result String (List F) → Output F → Output F
  add_generated request (ok vector) output = add_vector request vector output
  add_generated request (err e) (embeddings, result) = (embeddings, not_generated result)

  unfoldable pub generate_singly :
      (String → Result String (List F)) → List EmbeddingRequest → Output F → Output F
  generate_singly generate [] output = output
  generate_singly generate (request ∷ requests) output =
      generate_singly generate requests (add_generated request (generate request.text) output)

  -- The loop over the vectors of a batch.
  unfoldable pub add_vectors : List EmbeddingRequest → List (List F) → Output F → Output F
  add_vectors [] vectors output = output
  add_vectors (request ∷ batch) [] output = output
  add_vectors (request ∷ batch) (vector ∷ vectors) output =
      add_vectors batch vectors (add_vector request vector output)

  unfoldable pub collect_batch : List EmbeddingRequest → Vectors F → Output F → Output F
  unfolding add_vectors
  collect_batch batch (err e) (embeddings, result) = (embeddings, not_generated result)
  collect_batch batch (ok vectors) (embeddings, result) =
      if nat_eq (length vectors) (length batch)
      then add_vectors batch vectors (embeddings, result)
      else (embeddings, not_generated result)

  -- `completed[index]`: its zero value has no vectors and no error.
  unfoldable pub completed : List (ℕ × Vectors F) → ℕ → Vectors F
  completed [] index = ok []
  completed ((other, vectors) ∷ arrived) index =
      if nat_eq other index then vectors else completed arrived index

  -- The loop over `completed`.
  unfoldable pub collect_batches :
      List EmbeddingRequest → List (ℕ × Vectors F) → List ℕ → Output F → Output F
  unfolding collect_batch completed batch_of
  collect_batches requests arrived [] output = output
  collect_batches requests arrived (index ∷ indexes) output =
      collect_batches requests arrived indexes
        (collect_batch (batch_of requests index) (completed arrived index) output)

  -- The answers to the batches, as they arrive.
  unfoldable pub answer_batches :
      (List String → Vectors F) → List EmbeddingRequest → List ℕ → List (ℕ × Vectors F)
  unfolding batch_of
  answer_batches generate_all requests [] = []
  answer_batches generate_all requests (index ∷ indexes) =
      (index, generate_all (texts_of (batch_of requests index)))
      ∷ answer_batches generate_all requests indexes

  abbrev pub generate_by :
      (List ℕ → List ℕ)
      → (String → Result String (List F))
      → Option (List String → Vectors F)
      → List EmbeddingRequest
      → CatalogWriteResult
      → Output F
  generate_by arrive generate none requests result = generate_singly generate requests ([], result)
  generate_by arrive generate (some generate_all) requests result =
      let indexes = count_up (batch_count (length requests)) 0 in
      collect_batches requests (answer_batches generate_all requests (arrive indexes)) indexes
        ([], result)

  unfoldable pub generate_catalog_embeddings :
      (List ℕ → List ℕ)
      → EmbeddingGenerator F
      → List EmbeddingRequest
      → CatalogWriteResult
      → Output F
  unfolding generate_singly collect_batches answer_batches
  generate_catalog_embeddings arrive generator requests result =
      generate_by arrive generator.generate generator.generate_all requests result

  abbrev pub after_write :
      CatalogWriteResult → List (CatalogEmbedding F) → Option String → Written F
  after_write result embeddings none = (result, some embeddings)
  after_write result embeddings (some e) = (not_stored result, some embeddings)

  abbrev pub write_generated : (List (CatalogEmbedding F) → Option String) → Output F → Written F
  write_generated write ([], result) = (result, none)
  write_generated write (embedding ∷ embeddings, result) =
      after_write result (embedding ∷ embeddings) (write (embedding ∷ embeddings))

  abbrev pub write_missing :
      (List ℕ → List ℕ)
      → Option (List (CatalogEmbedding F) → Option String)
      → EmbeddingGenerator F
      → List EmbeddingRequest
      → CatalogWriteResult
      → Written F
  write_missing arrive none generator requests result = (not_stored result, none)
  write_missing arrive (some write) generator requests result =
      write_generated write (generate_catalog_embeddings arrive generator requests result)

  unfoldable pub add_catalog_embeddings :
      (List ℕ → List ℕ)
      → CatalogWriter F
      → List CatalogEntry
      → List (CatalogEmbedding F)
      → Option (EmbeddingGenerator F)
      → CatalogWriteResult
      → Written F
  unfolding embedding_key append_entries generate_catalog_embeddings
  add_catalog_embeddings arrive writer entries existing none result = (result, none)
  add_catalog_embeddings arrive writer entries existing (some generator) result =
      write_missing arrive writer.write_embeddings generator
        (append_entries (stored_keys existing) [] entries) result
