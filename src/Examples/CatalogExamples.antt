-- ===== src/Examples/CatalogExamples.antt =====
-- Tests of the catalog. A vector is a list of numbers here.
use agent_wayfinder.Prelude.{
  ℕ, String, List, [], ◌∷◌, Option, none, some, map, Has, Any, ok, ◌≡◌, ◌↔◌, refl, false, contains,
}
use agent_wayfinder.Prelude.Int.{pos}
use agent_wayfinder.Extractor.{CatalogUnit}
use agent_wayfinder.Catalog.{
  CatalogEntry, CatalogEmbedding, nothing_unavailable, EmbeddingGenerator, CatalogWriter,
}
use agent_wayfinder.Catalog.Units.{
  CatalogSynopsisInput, deterministic_synopsis, bounded_synopsis_input,
}
use agent_wayfinder.Catalog.Requests.{EmbeddingRequest}
use agent_wayfinder.Catalog.Requests.Exact.{IsSynopsisOf, IsStored}
use agent_wayfinder.Catalog.Embeddings.{add_catalog_embeddings}
use agent_wayfinder.Catalog.Embeddings.Vectors.{IsEmbedder, embedded}
use agent_wayfinder.Catalog.Embeddings.Exact.{handed_over, add_catalog_embeddings-embedded}
use agent_wayfinder.Catalog.Write.{CatalogWriteOptions, Arrivals, write_catalog_units}
use agent_wayfinder.Catalog.Write.Entries.{AreWritten}
use agent_wayfinder.Catalog.Write.Exact.{failure, write_catalog_units-written}
use agent_wayfinder.Indexing.Groups.Keys.{has_nul}

abbrev unit : CatalogUnit
unit = record {
  node_id = "go:run";
  name = "run";
  kind = "go:function";
  owner = "main";
  signature = "func run()";
  declaration_source = "func run() {}";
  comments = "Runs." ∷ [];
  identifier_tokens = [];
}

test_deterministic_synopsis :
    deterministic_synopsis unit ≡ "main.run (go:function). Runs. Signature: func run()."
unfolding deterministic_synopsis
test_deterministic_synopsis = refl

test_bounded : (bounded_synopsis_input (pos 4) unit).declaration_source ≡ "func"
unfolding bounded_synopsis_input
test_bounded = refl

abbrev vector : String → List ℕ
vector text = 7 ∷ []

abbrev embedder : EmbeddingGenerator ℕ
embedder = record {
  generate = λ text. ok (vector text);
  generate_all = some (λ texts. ok (map vector texts));
  release = none;
}

embedder-IsEmbedder : IsEmbedder embedder vector
embedder-IsEmbedder = record {
  nonempty = λ text. refl;
  embeds = λ text. refl;
  embeds_all = λ texts filled few. refl;
}

abbrev accept_all : List (CatalogEmbedding ℕ) → Option String
accept_all embeddings = none

abbrev writer : CatalogWriter ℕ
writer = record { write_catalog = λ entries. none; write_embeddings = some accept_all }

abbrev entry : CatalogEntry
entry = record {
  node_id = "go:run";
  name = "run";
  input_fingerprint = "";
  deterministic_synopsis = "run";
  copilot_synopsis = "";
  ollama_synopsis = "Runs it.";
  claude_synopsis = "";
}

abbrev stored : List (CatalogEmbedding ℕ)
stored = record { node_id = "go:run"; source = "deterministic"; text = "run"; vector = 7 ∷ [] } ∷ []

test_missing_only :
    add_catalog_embeddings (λ i. i) writer (entry ∷ []) stored (some embedder) nothing_unavailable
    ≡ (
      nothing_unavailable,
      some (
          record { node_id = "go:run"; source = "ollama"; text = "Runs it."; vector = 7 ∷ [] }
          ∷ []),
    )
unfolding add_catalog_embeddings contains
test_missing_only = refl

entry-plain : has_nul entry.node_id ≡ false
unfolding has_nul
entry-plain = refl

deterministic-plain : has_nul "deterministic" ≡ false
unfolding has_nul
deterministic-plain = refl

add_catalog_embeddings-embedded_example :
    (requests : List EmbeddingRequest) × (add_catalog_embeddings
        (λ i. i)
        writer
        (entry ∷ [])
        stored
        (some embedder)
        nothing_unavailable
      ≡ (nothing_unavailable, handed_over (embedded vector requests)))
    × ((r : EmbeddingRequest)
        → Has r requests ↔ (Any (IsSynopsisOf r) (entry ∷ []) × (¬ IsStored r stored)))
add_catalog_embeddings-embedded_example =
    add_catalog_embeddings-embedded vector (λ i. i) writer accept_all (entry ∷ []) stored embedder
      nothing_unavailable (λ indexes i m. m) embedder-IsEmbedder refl (λ es. refl) (entry-plain, tt)
      ((deterministic-plain, entry-plain), tt)

abbrev arrivals : Arrivals
arrivals = record { synopses = λ i. i; batches = λ i. i }

abbrev fingerprint_of : CatalogSynopsisInput → String
fingerprint_of input = input.signature

abbrev options : CatalogWriteOptions ℕ
options = record {
  synopsis_generator = some (record { generate = λ input. ok "It runs."; release = none });
  synopsis_provider = "claude";
  synopsis_source_limit = pos 4;
  embedding_generator = none;
}

write_catalog_units-written_example :
    let run = write_catalog_units arrivals fingerprint_of none writer (unit ∷ []) [] [] options in
    (written : List CatalogEntry) × AreWritten fingerprint_of options [] (unit ∷ []) written
    × (run.entries ≡ some written)
    × (run.error ≡ failure (writer.write_catalog written))
write_catalog_units-written_example =
    write_catalog_units-written arrivals fingerprint_of writer (unit ∷ []) [] [] options
      (λ indexes i. (λ m. m, λ m. m)) refl
