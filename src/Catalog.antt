-- ===== src/Catalog.antt =====
-- index/catalog.go: the catalog of the declarations of a workspace, with the types of storage/storage.go
-- that it writes. The store, the generators of synopses and embeddings, and the hash of an input are
-- parameters.
pub mod Units
pub mod Requests
pub mod Embeddings
pub mod Synopses
pub mod Write
use agent_wayfinder.Prelude.{ℕ, String, List, Option, Result}
use agent_wayfinder.Graph.{NodeKind}

pub record CatalogEntry : Type 0 where
  pub node_id : String
  pub name : String
  pub input_fingerprint : String
  pub deterministic_synopsis : String
  pub copilot_synopsis : String
  pub ollama_synopsis : String
  pub claude_synopsis : String

-- `CatalogEmbeddingSource`
abbrev pub catalog_embedding_deterministic : String
catalog_embedding_deterministic = "deterministic"

abbrev pub catalog_embedding_copilot : String
catalog_embedding_copilot = "copilot"

abbrev pub catalog_embedding_ollama : String
catalog_embedding_ollama = "ollama"

abbrev pub catalog_embedding_claude : String
catalog_embedding_claude = "claude"

-- A vector is a list of numbers of type `F`.
pub record CatalogEmbedding (F : Type 0) : Type 0 where
  pub node_id : String
  pub source : String
  pub text : String
  pub vector : List F

pub record CatalogWriteResult : Type 0 where
  pub copilot_unavailable_reason : String
  pub ollama_unavailable_reason : String
  pub claude_unavailable_reason : String
  pub embedding_unavailable_reason : String

abbrev pub nothing_unavailable : CatalogWriteResult
nothing_unavailable = record {
  copilot_unavailable_reason = "";
  ollama_unavailable_reason = "";
  claude_unavailable_reason = "";
  embedding_unavailable_reason = "";
}

-- `generate_all` is there if the generator is a `CatalogEmbeddingBatchGenerator` too; then `release` is
-- the error of `ReleaseCatalogEmbeddingModel`.
pub record EmbeddingGenerator (F : Type 0) : Type 0 where
  pub generate : String → Result String (List F)
  pub generate_all : Option (List String → Result String (List (List F)))
  pub release : Option String

-- `write_embeddings` is there if the writer is a `CatalogEmbeddingWriter` too; each answers with an error.
pub record CatalogWriter (F : Type 0) : Type 0 where
  pub write_catalog : List CatalogEntry → Option String
  pub write_embeddings : Option (List (CatalogEmbedding F) → Option String)
