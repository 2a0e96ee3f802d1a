-- ===== src/Indexing/Merge.antt =====
-- index/index.go: `mergeSources`, which puts the sources that were extracted anew over the stored ones.
pub mod Tables
pub mod Stored
pub mod Refines
use agent_wayfinder.Prelude.{
  String, List, [], ◌∷◌, ◌++◌, if◌then◌else◌, Option, none, some, lookup, insert, delete, keys,
  contains, Result, ok, err, ◌>>=◌,
}
use agent_wayfinder.Prelude.Order.{sort_texts}
use agent_wayfinder.Graph.{Facts}
use agent_wayfinder.Graph.Vocabulary.{Vocabulary}
use agent_wayfinder.Extractor.{
  Metadata, CatalogUnit, UnresolvedReference, SymbolReference, ExportedSurface, Dependency,
  Diagnostic, ContributionInput, Contribution,
}
use agent_wayfinder.Extractor.Contributions.{ContributionError, new_contribution}
use agent_wayfinder.Extractor.Extensions.{Unicode}
use agent_wayfinder.Extractor.Registry.{Extractor, Registry, for_path}
use agent_wayfinder.Indexing.{Source, ExtractedSource, IndexError, no_extractor, bad_contribution}
use agent_wayfinder.Indexing.Languages.{Languages, vocabulary_for_language}

-- `storage.SourceContribution`
pub record SourceContribution : Type 0 where
  pub source_path : String
  pub metadata : Metadata
  pub facts : Facts
  pub catalog_units : List CatalogUnit
  pub unresolved_references : List UnresolvedReference
  pub symbol_references : List SymbolReference
  pub exported_surfaces : List ExportedSurface
  pub dependencies : List Dependency
  pub diagnostics : List Diagnostic

-- The input of `NewContribution`, which names no project and has no catalog units.
abbrev pub input_of_stored : SourceContribution → ContributionInput
input_of_stored source = record {
  project_id = "";
  source_path = source.source_path;
  metadata = source.metadata;
  facts = source.facts;
  catalog_units = [];
  unresolved_references = source.unresolved_references;
  symbol_references = source.symbol_references;
  exported_surfaces = source.exported_surfaces;
  dependencies = source.dependencies;
  diagnostics = source.diagnostics;
}

abbrev pub created_contribution :
    Result ContributionError Contribution → Result IndexError Contribution
created_contribution (ok contribution) = ok contribution
created_contribution (err e) = err (bad_contribution e)

abbrev pub Sources : Type 0
Sources = List (String × ExtractedSource)

-- What the loops read.
pub record Workspace : Type 0 where
  pub unicode : Unicode
  pub registered : Registry
  pub languages : Languages
  pub sources_by_path : List (String × Source)
  pub deleted : List String

module _ (workspace : Workspace) where
  abbrev pub restore_by :
      SourceContribution → Source → Option Extractor → Result IndexError ExtractedSource
  restore_by source workspace_source none = err (no_extractor source.source_path)
  restore_by source workspace_source (some language) = do
    vocabulary ← vocabulary_for_language workspace.languages language.metadata.name
    contribution ←
        created_contribution
          (new_contribution workspace.unicode vocabulary (input_of_stored source))
    ok (record {
      project_id = workspace_source.project_id;
      language = source.metadata.name;
      contribution = contribution;
    })

  -- A stored source of the workspace, restored.
  unfoldable pub restore : SourceContribution → Source → Result IndexError ExtractedSource
  unfolding for_path vocabulary_for_language new_contribution
  restore source workspace_source =
      restore_by source workspace_source
        (for_path workspace.unicode workspace.registered source.source_path)

  abbrev pub put : String → Sources → Result IndexError ExtractedSource → Result IndexError Sources
  put path merged (ok source) = ok (insert path source merged)
  put path merged (err e) = err e

  abbrev pub put_found : SourceContribution → Sources → Option Source → Result IndexError Sources
  put_found source merged none = ok merged
  put_found source merged (some workspace_source) =
      put source.source_path merged (restore source workspace_source)

  -- The loop over the stored sources.
  unfoldable pub merge_stored : Sources → List SourceContribution → Result IndexError Sources
  unfolding restore
  merge_stored merged [] = ok merged
  merge_stored merged (source ∷ sources) =
      (if contains workspace.deleted source.source_path
        then ok merged
        else put_found source merged (lookup source.source_path workspace.sources_by_path))
      >>= λ next. merge_stored next sources

  -- The loop over the sources that were extracted anew.
  unfoldable pub merge_updated : Sources → List ExtractedSource → Sources
  merge_updated merged [] = merged
  merge_updated merged (source ∷ sources) =
      let path = source.contribution.source_path in
      merge_updated
        (if contains workspace.deleted path then delete path merged else insert path source merged)
        sources

  abbrev pub value_at : Option ExtractedSource → List ExtractedSource
  value_at none = []
  value_at (some source) = source ∷ []

  -- The loop over the sorted keys of `merged`, each of which is found.
  unfoldable pub values_of : Sources → List String → List ExtractedSource
  values_of merged [] = []
  values_of merged (path ∷ paths) = value_at (lookup path merged) ++ values_of merged paths

  abbrev pub sorted_values : Sources → List ExtractedSource
  sorted_values merged = values_of merged (sort_texts (keys merged))

  unfoldable pub merge_sources :
      List SourceContribution → List ExtractedSource → Result IndexError (List ExtractedSource)
  unfolding merge_stored merge_updated values_of sort_texts
  merge_sources stored updated =
      merge_stored [] stored >>= λ merged. ok (sorted_values (merge_updated merged updated))
