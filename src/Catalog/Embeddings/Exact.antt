-- ===== src/Catalog/Embeddings/Exact.antt =====
-- What `addCatalogEmbeddings` of index/catalog.go writes where the generator answers.
use agent_wayfinder.Prelude.{
  ℕ, zero, suc, ◌+◌, ◌*◌, ◌<◌, ◌≤◌, String, List, [], ◌∷◌, ◌++◌, false, nat_eq, nat_eq_iff, if_elim,
  Option, none, some, map, is_empty, length, Has, All, Any, Result, ok, ◌≡◌, ◌↔◌, inl, inr, refl,
  sym, ◌∙◌, ap, arith,
}
use agent_wayfinder.Indexing.Groups.Keys.{has_nul}
use agent_wayfinder.Catalog.{
  CatalogEntry, CatalogEmbedding, CatalogWriteResult, EmbeddingGenerator, CatalogWriter,
}
use agent_wayfinder.Catalog.Requests.{EmbeddingRequest, append_entries, stored_keys}
use agent_wayfinder.Catalog.Requests.Exact.{IsSynopsisOf, AllPlain, IsStored, append_entries_iff}
use agent_wayfinder.Catalog.Embeddings.{
  texts_of, batch_of, batch_count, count_up, requests_after, Vectors, Output, collect_batch,
  completed, collect_batches, answer_batches, generate_by, generate_catalog_embeddings, after_write,
  write_generated, write_missing, add_catalog_embeddings,
}
use agent_wayfinder.Catalog.Embeddings.Batches.{
  requests_after-none, length-batch_of, batch_of-append, requests_after-zero, batch_count-bounds,
}
use agent_wayfinder.Catalog.Embeddings.Vectors.{
  IsWhole, EmbedsAll, IsEmbedder, embedded, extended, extended-append, extended_empty,
  generate_singly-extended, collect_batch-extended,
}

module _ {F : Type 0} where
  abbrev pub handed_over : List (CatalogEmbedding F) → Option (List (CatalogEmbedding F))
  handed_over [] = none
  handed_over (e ∷ embeddings) = some (e ∷ embeddings)

  write_generated-handed_over :
      (write : List (CatalogEmbedding F) → Option String) (embeddings : List (CatalogEmbedding F))
      (result : CatalogWriteResult)
      → ((es : List (CatalogEmbedding F)) → write es ≡ none)
      → write_generated write (embeddings, result) ≡ (result, handed_over embeddings)
  write_generated-handed_over write [] result accepts = refl
  write_generated-handed_over write (e ∷ embeddings) result accepts =
      ap (λ (o : Option String). after_write result (e ∷ embeddings) o) (accepts (e ∷ embeddings))

module _ {F : Type 0} (vector : String → List F) where
  module _ (filled : (text : String) → is_empty (vector text) ≡ false) where
    module _ (requests : List EmbeddingRequest) (generate_all : List String → Vectors F)
        (answers : EmbedsAll vector (some generate_all)) where
      completed-answer_batches :
          (indexes : List ℕ) (i : ℕ)
          → Has i indexes
          → completed (answer_batches generate_all requests indexes) i
            ≡ generate_all (texts_of (batch_of requests i))
      unfolding completed answer_batches
      completed-answer_batches [] i m = absurd m
      completed-answer_batches (j ∷ indexes) i m =
          if_elim (λ (v : Vectors F). v ≡ generate_all (texts_of (batch_of requests i)))
            (nat_eq j i)
            (λ t.
              ap (λ (k : ℕ). generate_all (texts_of (batch_of requests k))) ((nat_eq_iff j i).0 t))
            (λ f. elim m [
              | inl e ↦ absurd (ground (arith, f, e))
              | inr n ↦ completed-answer_batches indexes i n
            ])

      length-texts_of : (batch : List EmbeddingRequest) → length (texts_of batch) ≡ length batch
      length-texts_of [] = refl
      length-texts_of (r ∷ batch) = omega (arith, length-texts_of batch)

      -- A batch that starts before the end is embedded.
      answered :
          (i : ℕ)
          → i * 32 < length requests
          → generate_all (texts_of (batch_of requests i))
            ≡ ok (map vector (texts_of (batch_of requests i)))
      answered i below =
          let (some_left, few) = length-batch_of requests i below in
          let same = length-texts_of (batch_of requests i) in
          answers (texts_of (batch_of requests i)) (omega (arith, some_left, same))
            (omega (arith, few, same))

      collect_batches-extended :
          (arrived : List (ℕ × Vectors F)) (n index : ℕ) (embeddings : List (CatalogEmbedding F))
          (result : CatalogWriteResult)
          → ((i : ℕ)
              → Has i (count_up n index)
              → completed arrived i ≡ ok (map vector (texts_of (batch_of requests i))))
          → length requests ≤ (index + n) * 32
          → collect_batches requests arrived (count_up n index) (embeddings, result)
            ≡ extended vector embeddings (requests_after (index * 32) requests) result
      unfolding collect_batches
      collect_batches-extended arrived zero index embeddings result known last =
          extended_empty vector embeddings result
          ∙ ap (λ (rest : List EmbeddingRequest). extended vector embeddings rest result)
              (sym (requests_after-none (index * 32) requests (omega (arith, last))))
      collect_batches-extended arrived (suc n) index embeddings result known last =
          let batch = batch_of requests index in
          let left = requests_after (suc index * 32) requests in
          ap
            (λ (v : Vectors F).
              collect_batches requests arrived (count_up n (suc index))
                (collect_batch batch v (embeddings, result)))
            (known index (inl refl))
          ∙ ap (λ (o : Output F). collect_batches requests arrived (count_up n (suc index)) o)
              (collect_batch-extended vector filled batch embeddings result)
          ∙ collect_batches-extended arrived n (suc index) (embeddings ++ embedded vector batch)
              result (λ i m. known i (inr m)) (omega (arith, last))
          ∙ extended-append vector embeddings batch left result
          ∙ ap (λ (rest : List EmbeddingRequest). extended vector embeddings rest result)
              (batch_of-append requests index)

      Has-count_up : (n index i : ℕ) → Has i (count_up n index) → i < index + n
      Has-count_up zero index i m = absurd m
      Has-count_up (suc n) index i (inl e) = omega (arith, e)
      Has-count_up (suc n) index i (inr m) = omega (arith, Has-count_up n (suc index) i m)

      batches-extended :
          (arrive : List ℕ → List ℕ) (result : CatalogWriteResult)
          → IsWhole arrive
          → let indexes = count_up (batch_count (length requests)) 0 in
            collect_batches requests
              (answer_batches generate_all requests (arrive indexes))
              indexes
              ([], result)
            ≡ (embedded vector requests, result)
      batches-extended arrive result whole =
          let count = batch_count (length requests) in
          let indexes = count_up count 0 in
          let (starts, ends) = batch_count-bounds (length requests) in
          collect_batches-extended (answer_batches generate_all requests (arrive indexes)) count 0
            [] result
            (λ i m.
              completed-answer_batches (arrive indexes) i (whole indexes i m)
              ∙ answered i (starts i (omega (arith, Has-count_up count 0 i m))))
            (omega (arith, ends))
          ∙ ap (λ (rest : List EmbeddingRequest). (embedded vector rest, result))
              (requests_after-zero requests)

    generate_by-embedded :
        (arrive : List ℕ → List ℕ) (generate : String → Result String (List F))
        (generate_all : Option (List String → Vectors F)) (requests : List EmbeddingRequest)
        (result : CatalogWriteResult)
        → IsWhole arrive
        → ((text : String) → generate text ≡ ok (vector text))
        → EmbedsAll vector generate_all
        → generate_by arrive generate generate_all requests result
          ≡ (embedded vector requests, result)
    generate_by-embedded arrive generate none requests result whole h k =
        generate_singly-extended vector filled generate requests [] result h
    generate_by-embedded arrive generate (some generate_all) requests result whole h k =
        batches-extended requests generate_all k arrive result whole

    -- Every request gets the vector of its text, in the order of the requests.
    generate_catalog_embeddings-embedded :
        (arrive : List ℕ → List ℕ) (generator : EmbeddingGenerator F)
        (requests : List EmbeddingRequest) (result : CatalogWriteResult)
        → IsWhole arrive
        → IsEmbedder generator vector
        → generate_catalog_embeddings arrive generator requests result
          ≡ (embedded vector requests, result)
    unfolding generate_catalog_embeddings
    generate_catalog_embeddings-embedded arrive generator requests result whole h =
        generate_by-embedded arrive generator.generate generator.generate_all requests result whole
          h.embeds h.embeds_all

  -- Where the generator embeds each text, and batches of 1 to 32 texts, the writer stores embeddings and
  -- accepts them, and no node ID of an entry and no source or node ID of a stored embedding holds a NUL,
  -- `addCatalogEmbeddings` makes a request exactly for each synopsis of the entries that has no stored
  -- embedding, hands over the embeddings of all requests in their order, and reports nothing, in whatever
  -- order the batches arrive.
  pub add_catalog_embeddings-embedded :
      (arrive : List ℕ → List ℕ) (writer : CatalogWriter F)
      (write : List (CatalogEmbedding F) → Option String) (entries : List CatalogEntry)
      (existing : List (CatalogEmbedding F)) (generator : EmbeddingGenerator F)
      (result : CatalogWriteResult)
      → IsWhole arrive
      → IsEmbedder generator vector
      → writer.write_embeddings ≡ some write
      → ((es : List (CatalogEmbedding F)) → write es ≡ none)
      → All (λ (entry : CatalogEntry). has_nul entry.node_id ≡ false) entries
      → AllPlain existing
      → (requests : List EmbeddingRequest) × (add_catalog_embeddings arrive writer entries existing
            (some generator)
            result
          ≡ (result, handed_over (embedded vector requests)))
        × ((r : EmbeddingRequest)
            → Has r requests ↔ (Any (IsSynopsisOf r) entries × (¬ IsStored r existing)))
  unfolding add_catalog_embeddings
  add_catalog_embeddings-embedded arrive writer write entries existing generator result whole h
        writes accepts plain plain_stored =
      let requests = append_entries (stored_keys existing) [] entries in
      (
        requests,
        ap
              (λ (w : Option (List (CatalogEmbedding F) → Option String)).
                write_missing arrive w generator requests result)
              writes
            ∙ ap (λ (o : Output F). write_generated write o)
                (generate_catalog_embeddings-embedded h.nonempty arrive generator requests result
                  whole h)
            ∙ write_generated-handed_over write (embedded vector requests) result accepts,
        λ r. append_entries_iff r entries existing plain plain_stored,
      )
