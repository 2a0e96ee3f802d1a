-- ===== src/Catalog/Write.antt =====
-- index/catalog.go: `WriteCatalog` and `writeCatalogUnits`. The hash of a synopsis input, the error of the
-- context after the synopses, and the order in which results arrive are arguments.
pub mod Completed
pub mod Entries
pub mod Exact
use Prim.Native.String
use agent_wayfinder.Prelude.{
  ℕ, String, ◌==◌, List, [], ◌∷◌, ◌++◌, Bool, ◌&&◌, if◌then◌else◌, Option, none, some, map, lookup,
  insert,
}
use agent_wayfinder.Prelude.Int.{ℤ}
use agent_wayfinder.Extractor.{CatalogUnit, Contribution}
use agent_wayfinder.Catalog.{
  CatalogEntry, CatalogEmbedding, CatalogWriteResult, nothing_unavailable, EmbeddingGenerator,
  CatalogWriter,
}
use agent_wayfinder.Catalog.Units.{
  CatalogSynopsisInput, bounded_synopsis_input, deterministic_synopsis,
}
use agent_wayfinder.Catalog.Embeddings.{Written, add_catalog_embeddings}
use agent_wayfinder.Catalog.Synopses.{
  SynopsisGenerator, catalog_synopsis_provider_copilot, catalog_synopsis_provider_claude,
  add_selected_synopsis,
}

-- The process limits, which say how many goroutines there are, are left out.
pub record CatalogWriteOptions (F : Type 0) : Type 0 where
  pub synopsis_generator : Option SynopsisGenerator
  pub synopsis_provider : String
  pub synopsis_source_limit : ℤ
  pub embedding_generator : Option (EmbeddingGenerator F)

pub data CatalogError : Type 0 where
  catalog_writer_required : CatalogError
  cancelled write_failed : String → CatalogError

-- What is returned, and what is handed to the writer.
pub record CatalogRun (F : Type 0) : Type 0 where
  pub result : CatalogWriteResult
  pub error : Option CatalogError
  pub entries : Option (List CatalogEntry)
  pub embeddings : Option (List (CatalogEmbedding F))

-- The orders of arrival of the synopses and of the batches of embeddings.
pub record Arrivals : Type 0 where
  pub synopses : List ℕ → List ℕ
  pub batches : List ℕ → List ℕ

unfoldable pub entries_by_node_id :
    List CatalogEntry → List (String × CatalogEntry) → List (String × CatalogEntry)
entries_by_node_id [] table = table
entries_by_node_id (entry ∷ existing) table =
    entries_by_node_id existing (insert entry.node_id entry table)

abbrev pub is_same_entry : CatalogEntry → CatalogEntry → Bool
is_same_entry stored entry =
    stored.name == entry.name
    && stored.input_fingerprint == entry.input_fingerprint
    && stored.deterministic_synopsis == entry.deterministic_synopsis

abbrev pub reused : CatalogEntry → Option CatalogEntry → CatalogEntry
reused entry none = entry
reused entry (some stored) = if is_same_entry stored entry then stored else entry

unfoldable pub reuse_catalog_entries : List CatalogEntry → List CatalogEntry → List CatalogEntry
unfolding entries_by_node_id
reuse_catalog_entries entries existing =
    let table = entries_by_node_id existing [] in
    map (λ (entry : CatalogEntry). reused entry (lookup entry.node_id table)) entries

unfoldable pub entry_of_unit : (CatalogSynopsisInput → String) → ℤ → CatalogUnit → CatalogEntry
unfolding bounded_synopsis_input deterministic_synopsis
entry_of_unit fingerprint source_limit unit = record {
  node_id = unit.node_id;
  name = unit.name;
  input_fingerprint = fingerprint (bounded_synopsis_input source_limit unit);
  deterministic_synopsis = deterministic_synopsis unit;
  copilot_synopsis = "";
  ollama_synopsis = "";
  claude_synopsis = "";
}

module _ {F : Type 0} where
  abbrev pub failed_run :
      CatalogWriteResult → CatalogError → Option (List CatalogEntry) → CatalogRun F
  failed_run result error entries = record {
    result = result;
    error = some error;
    entries = entries;
    embeddings = none;
  }

  abbrev pub finished_run : List CatalogEntry → Written F → CatalogRun F
  finished_run entries (result, embeddings) = record {
    result = result;
    error = none;
    entries = some entries;
    embeddings = embeddings;
  }

  -- From the answer of the writer on.
  abbrev pub after_catalog :
      Arrivals
      → CatalogWriter F
      → List CatalogEntry
      → List (CatalogEmbedding F)
      → Option (EmbeddingGenerator F)
      → CatalogWriteResult
      → Option String
      → CatalogRun F
  after_catalog arrivals writer entries existing generator result (some e) =
      failed_run nothing_unavailable (write_failed e) (some entries)
  after_catalog arrivals writer entries existing generator result none =
      finished_run entries
        (add_catalog_embeddings arrivals.batches writer entries existing generator result)

  unfoldable pub write_entries :
      Arrivals
      → CatalogWriter F
      → List CatalogEntry
      → List (CatalogEmbedding F)
      → Option (EmbeddingGenerator F)
      → CatalogWriteResult
      → CatalogRun F
  unfolding add_catalog_embeddings
  write_entries arrivals writer entries existing generator result =
      after_catalog arrivals writer entries existing generator result (writer.write_catalog entries)

  unfoldable pub write_catalog_units :
      Arrivals
      → (CatalogSynopsisInput → String)
      → Option String
      → CatalogWriter F
      → List CatalogUnit
      → List CatalogEntry
      → List (CatalogEmbedding F)
      → CatalogWriteOptions F
      → CatalogRun F
  unfolding entry_of_unit reuse_catalog_entries add_selected_synopsis write_entries
  write_catalog_units arrivals fingerprint context_error writer [] existing_entries existing
        options =
      record { result = nothing_unavailable; error = none; entries = none; embeddings = none }
  write_catalog_units arrivals fingerprint context_error writer (unit ∷ units) existing_entries
        existing options =
      let all_units = unit ∷ units in
      let entries =
        map (λ (u : CatalogUnit). entry_of_unit fingerprint options.synopsis_source_limit u)
          all_units in
      let (added, result) =
        add_selected_synopsis arrivals.synopses (reuse_catalog_entries entries existing_entries)
          all_units options.synopsis_generator options.synopsis_provider
          options.synopsis_source_limit in
      elim context_error [
        | some e ↦ failed_run result (cancelled e) none
        | none ↦ write_entries arrivals writer added existing options.embedding_generator result
      ]

  abbrev pub release_embedding : Option (EmbeddingGenerator F) → Option String
  release_embedding none = none
  release_embedding (some generator) = elim generator.generate_all [
    | none ↦ none
    | some _ ↦ generator.release
  ]

abbrev pub release_synopsis : Option SynopsisGenerator → Option String
release_synopsis none = none
release_synopsis (some generator) = elim generator.release [ none ↦ none | some e ↦ e ]

abbrev pub record_embedding_release : Option String → CatalogWriteResult → CatalogWriteResult
record_embedding_release none result = result
record_embedding_release (some e) result = record result {
  embedding_unavailable_reason = "Catalog embedding model release is unavailable";
}

abbrev pub synopsis_not_released : String
synopsis_not_released = "Catalog synopsis model release is unavailable"

abbrev pub record_synopsis_release :
    String → Option String → CatalogWriteResult → CatalogWriteResult
record_synopsis_release provider none result = result
record_synopsis_release provider (some e) result =
    if provider == catalog_synopsis_provider_copilot
    then record result { copilot_unavailable_reason = synopsis_not_released }
    else if provider == catalog_synopsis_provider_claude
    then record result { claude_unavailable_reason = synopsis_not_released }
    else record result { ollama_unavailable_reason = synopsis_not_released }

abbrev pub all_units : List Contribution → List CatalogUnit
all_units [] = []
all_units (contribution ∷ contributions) = contribution.catalog_units ++ all_units contributions

module _ {F : Type 0} where
  unfoldable pub write_catalog :
      Arrivals
      → (CatalogSynopsisInput → String)
      → Option String
      → Option (CatalogWriter F)
      → List Contribution
      → CatalogWriteOptions F
      → CatalogRun F
  unfolding write_catalog_units
  write_catalog arrivals fingerprint context_error none contributions options =
      failed_run nothing_unavailable catalog_writer_required none
  write_catalog arrivals fingerprint context_error (some writer) contributions options =
      let run =
        write_catalog_units arrivals fingerprint context_error writer (all_units contributions) []
          [] options in
      record run {
        result =
            record_synopsis_release options.synopsis_provider
              (release_synopsis options.synopsis_generator)
              (record_embedding_release (release_embedding options.embedding_generator) run.result);
      }
