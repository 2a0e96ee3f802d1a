-- ===== src/Catalog/Embeddings/Vectors.antt =====
-- What index/catalog.go collects of one batch, or of single requests, where the generator answers.
use agent_wayfinder.Prelude.{
  ℕ, ◌<◌, ◌≤◌, String, List, [], ◌∷◌, ◌++◌, false, nat_eq, nat_eq_iff, if_true, Option, none, some,
  map, is_empty, length, Has, Result, ok, ◌≡◌, refl, sym, ◌∙◌, ap, arith,
}
use mathlib.Core.List.{append_assoc, append-nil}
use agent_wayfinder.Catalog.{CatalogEmbedding, CatalogWriteResult, EmbeddingGenerator}
use agent_wayfinder.Catalog.Requests.{EmbeddingRequest}
use agent_wayfinder.Catalog.Embeddings.{
  texts_of, Vectors, Output, embedding_of, add_vector, add_generated, generate_singly, add_vectors,
  collect_batch,
}

-- The answers of all batches arrive.
abbrev pub IsWhole : (List ℕ → List ℕ) → Type 0
IsWhole arrive = (indexes : List ℕ) (i : ℕ) → Has i indexes → Has i (arrive indexes)

module _ {F : Type 0} where
  abbrev pub EmbedsAll : (String → List F) → Option (List String → Vectors F) → Type 0
  EmbedsAll vector none = Unit
  EmbedsAll vector (some generate_all) =
      (texts : List String)
      → 0 < length texts
      → length texts ≤ 32
      → generate_all texts ≡ ok (map vector texts)

  -- A generator that embeds each text as its vector, and batches of 1 to 32 texts.
  pub record IsEmbedder (generator : EmbeddingGenerator F) (vector : String → List F) : Type 0 where
    pub nonempty : (text : String) → is_empty (vector text) ≡ false
    pub embeds : (text : String) → generator.generate text ≡ ok (vector text)
    pub embeds_all : EmbedsAll vector generator.generate_all

  add_filled :
      (r : EmbeddingRequest) (v : List F) (embeddings : List (CatalogEmbedding F))
      (result : CatalogWriteResult)
      → is_empty v ≡ false
      → add_vector r v (embeddings, result) ≡ (embeddings ++ embedding_of r v ∷ [], result)
  add_filled r [] embeddings result h = cc
  add_filled r (x ∷ v) embeddings result h = refl

module _ {F : Type 0} (vector : String → List F) where
  abbrev pub embedded : List EmbeddingRequest → List (CatalogEmbedding F)
  embedded requests = map (λ (r : EmbeddingRequest). embedding_of r (vector r.text)) requests

  -- The output with one more list of requests embedded.
  abbrev pub extended :
      List (CatalogEmbedding F) → List EmbeddingRequest → CatalogWriteResult → Output F
  extended embeddings requests result = (embeddings ++ embedded requests, result)

  embedded-append :
      (xs ys : List EmbeddingRequest) → embedded (xs ++ ys) ≡ embedded xs ++ embedded ys
  embedded-append [] ys = refl
  embedded-append (x ∷ xs) ys =
      ap (λ (l : List (CatalogEmbedding F)). embedding_of x (vector x.text) ∷ l)
        (embedded-append xs ys)

  pub extended-append :
      (embeddings : List (CatalogEmbedding F)) (xs ys : List EmbeddingRequest)
      (result : CatalogWriteResult)
      → extended (embeddings ++ embedded xs) ys result ≡ extended embeddings (xs ++ ys) result
  extended-append embeddings xs ys result =
      ap (λ (l : List (CatalogEmbedding F)). (l, result))
        (append_assoc embeddings (embedded xs) (embedded ys)
          ∙ ap (λ (l : List (CatalogEmbedding F)). embeddings ++ l) (sym (embedded-append xs ys)))

  pub extended_empty :
      (embeddings : List (CatalogEmbedding F)) (result : CatalogWriteResult)
      → (embeddings, result) ≡ extended embeddings [] result
  extended_empty embeddings result =
      ap (λ (l : List (CatalogEmbedding F)). (l, result)) (sym (append-nil embeddings))

  module _ (filled : (text : String) → is_empty (vector text) ≡ false) where
    add_vector-extended :
        (r : EmbeddingRequest) (embeddings : List (CatalogEmbedding F))
        (result : CatalogWriteResult)
        → add_vector r (vector r.text) (embeddings, result) ≡ extended embeddings (r ∷ []) result
    add_vector-extended r embeddings result =
        add_filled r (vector r.text) embeddings result (filled r.text)

    add_vectors-extended :
        (requests : List EmbeddingRequest) (embeddings : List (CatalogEmbedding F))
        (result : CatalogWriteResult)
        → add_vectors requests (map vector (texts_of requests)) (embeddings, result)
          ≡ extended embeddings requests result
    unfolding add_vectors
    add_vectors-extended [] embeddings result = extended_empty embeddings result
    add_vectors-extended (r ∷ requests) embeddings result =
        ap (λ (o : Output F). add_vectors requests (map vector (texts_of requests)) o)
          (add_vector-extended r embeddings result)
        ∙ add_vectors-extended requests (embeddings ++ embedded (r ∷ [])) result
        ∙ extended-append embeddings (r ∷ []) requests result

    pub generate_singly-extended :
        (generate : String → Result String (List F)) (requests : List EmbeddingRequest)
        (embeddings : List (CatalogEmbedding F)) (result : CatalogWriteResult)
        → ((text : String) → generate text ≡ ok (vector text))
        → generate_singly generate requests (embeddings, result)
          ≡ extended embeddings requests result
    unfolding generate_singly
    generate_singly-extended generate [] embeddings result answers =
        extended_empty embeddings result
    generate_singly-extended generate (r ∷ requests) embeddings result answers =
        ap
          (λ (v : Result String (List F)).
            generate_singly generate requests (add_generated r v (embeddings, result)))
          (answers r.text)
        ∙ ap (λ (o : Output F). generate_singly generate requests o)
            (add_vector-extended r embeddings result)
        ∙ generate_singly-extended generate requests (embeddings ++ embedded (r ∷ [])) result
            answers
        ∙ extended-append embeddings (r ∷ []) requests result

    length-vectors :
        (requests : List EmbeddingRequest)
        → length (map vector (texts_of requests)) ≡ length requests
    length-vectors [] = refl
    length-vectors (r ∷ requests) = omega (arith, length-vectors requests)

    pub collect_batch-extended :
        (batch : List EmbeddingRequest) (embeddings : List (CatalogEmbedding F))
        (result : CatalogWriteResult)
        → collect_batch batch (ok (map vector (texts_of batch))) (embeddings, result)
          ≡ extended embeddings batch result
    unfolding collect_batch
    collect_batch-extended batch embeddings result =
        let same =
          (nat_eq_iff (length (map vector (texts_of batch))) (length batch)).1
            (length-vectors batch) in
        if_true (nat_eq (length (map vector (texts_of batch))) (length batch)) _ _ same
        ∙ add_vectors-extended batch embeddings result
