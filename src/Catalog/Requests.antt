-- ===== src/Catalog/Requests.antt =====
-- index/catalog.go: the requests for embeddings that `addCatalogEmbeddings` makes, for the synopses that
-- have no stored embedding.
pub mod Exact
use Prim.Native.String
use agent_wayfinder.Prelude.{String, ◌==◌, List, [], ◌∷◌, ◌++◌, if◌then◌else◌, contains}
use agent_wayfinder.Catalog.{
  CatalogEntry, CatalogEmbedding, catalog_embedding_deterministic, catalog_embedding_copilot,
  catalog_embedding_ollama, catalog_embedding_claude,
}

pub record EmbeddingRequest : Type 0 where
  pub node_id : String
  pub source : String
  pub text : String

unfoldable pub embedding_key : EmbeddingRequest → String
embedding_key request =
    String.◌++◌ request.source
      (String.◌++◌ "\0" (String.◌++◌ request.node_id (String.◌++◌ "\0" request.text)))

unfoldable pub append_missing :
    List EmbeddingRequest → List String → EmbeddingRequest → List EmbeddingRequest
unfolding embedding_key
append_missing requests stored request =
    if contains stored (embedding_key request) then requests else requests ++ request ∷ []

-- The same for a synopsis that may be missing.
abbrev pub append_given :
    List EmbeddingRequest → List String → EmbeddingRequest → List EmbeddingRequest
append_given requests stored request =
    if request.text == "" then requests else append_missing requests stored request

abbrev pub request_of : CatalogEntry → String → String → EmbeddingRequest
request_of entry source text = record { node_id = entry.node_id; source = source; text = text }

-- A round of the loop over the entries.
unfoldable pub append_entry :
    List String → List EmbeddingRequest → CatalogEntry → List EmbeddingRequest
unfolding append_missing
append_entry stored requests entry =
    append_given
      (append_given
        (append_given
          (append_missing requests stored
            (request_of entry catalog_embedding_deterministic entry.deterministic_synopsis))
          stored (request_of entry catalog_embedding_copilot entry.copilot_synopsis))
        stored (request_of entry catalog_embedding_ollama entry.ollama_synopsis))
      stored (request_of entry catalog_embedding_claude entry.claude_synopsis)

unfoldable pub append_entries :
    List String → List EmbeddingRequest → List CatalogEntry → List EmbeddingRequest
unfolding append_entry
append_entries stored requests [] = requests
append_entries stored requests (entry ∷ entries) =
    append_entries stored (append_entry stored requests entry) entries

module _ {F : Type 0} where
  abbrev pub stored_request : CatalogEmbedding F → EmbeddingRequest
  stored_request embedding = record {
    node_id = embedding.node_id;
    source = embedding.source;
    text = embedding.text;
  }

  -- The keys of `stored`.
  abbrev pub stored_keys : List (CatalogEmbedding F) → List String
  stored_keys [] = []
  stored_keys (embedding ∷ existing) =
      embedding_key (stored_request embedding) ∷ stored_keys existing
