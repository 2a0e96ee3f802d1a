-- ===== src/Indexing/Changes.antt =====
-- index/index.go: `normalizeChangedPath`, the changed paths of `PublishBatch`, and
-- `extractChangedSources`.
pub mod Inside
pub mod Exact
use agent_wayfinder.Prelude.{
  ℕ, String, ◌==◌, List, [], ◌∷◌, ◌++◌, Bool, not, ◌||◌, if◌then◌else◌, Option, none, some, lookup,
  contains, map, starts_with, Result, ok, err, ◌>>=◌,
}
use agent_wayfinder.Prelude.Order.{sort_texts}
use agent_wayfinder.Paths.{is_abs, clean, join_path, rel}
use agent_wayfinder.Extractor.{Metadata, ContributionInput, Contribution}
use agent_wayfinder.Extractor.Contributions.{new_contribution}
use agent_wayfinder.Extractor.Registry.{Extractor, for_path}
use agent_wayfinder.Indexing.{
  Source, ExtractedSource, IndexError, changed_path_required, resolve_changed_path,
  outside_workspace,
}
use agent_wayfinder.Indexing.Languages.{vocabulary_for_language}
use agent_wayfinder.Indexing.Merge.{created_contribution}
use agent_wayfinder.Indexing.Extraction.{Environment, extract_discovered_sources}

abbrev pub is_outside : String → Bool
is_outside relative =
    relative == "." || relative == ".." || is_abs relative || starts_with relative "../"

abbrev pub check_changed : String → Result (Unit {0}) String → Result IndexError String
check_changed changed_path (err e) = err resolve_changed_path
check_changed changed_path (ok relative) =
    if is_outside relative then err (outside_workspace changed_path) else ok relative

-- `filepath.ToSlash` changes nothing where the separator is a slash.
unfoldable pub normalize_changed_path : String → String → Result IndexError String
normalize_changed_path root changed_path =
    if changed_path == ""
    then err changed_path_required
    else check_changed changed_path (
        rel root
          (clean (if not (is_abs changed_path) then join_path root changed_path else changed_path)))

-- The loop over the changed paths, which keeps the first of equal ones.
unfoldable pub collect_changed :
    String → List String → List String → Result IndexError (List String)
unfolding normalize_changed_path
collect_changed root changed [] = ok changed
collect_changed root changed (path ∷ paths) = do
  normalized ← normalize_changed_path root path
  collect_changed root (if contains changed normalized then changed else changed ++ normalized ∷ [])
      paths

unfoldable pub changed_paths : String → List String → Result IndexError (List String)
unfolding collect_changed sort_texts
changed_paths root paths = do changed ← collect_changed root [] paths; ok (sort_texts changed)

-- `sources`, `deleted` and `deletions` of `extractChangedSources`.
pub record Changed : Type 0 where
  pub sources : List Source
  pub deleted : List String
  pub deletions : List Contribution

abbrev pub input_of_deletion : String → Metadata → ContributionInput
input_of_deletion path metadata = record {
  project_id = "";
  source_path = path;
  metadata = metadata;
  facts = record { nodes = []; edges = [] };
  catalog_units = [];
  unresolved_references = [];
  symbol_references = [];
  exported_surfaces = [];
  dependencies = [];
  diagnostics = [];
}

module _ (env : Environment) where
  abbrev pub add_deletion : String → Changed → Option Extractor → Result IndexError Changed
  add_deletion path changed none = ok changed
  add_deletion path changed (some language) = do
    vocabulary ← vocabulary_for_language env.languages language.metadata.name
    contribution ←
        created_contribution
          (new_contribution env.unicode vocabulary (input_of_deletion path language.metadata))
    ok (record {
      sources = changed.sources;
      deleted = changed.deleted ++ path ∷ [];
      deletions = changed.deletions ++ contribution ∷ [];
    })

  abbrev pub add_changed : String → Changed → Option Source → Result IndexError Changed
  add_changed path changed none =
      add_deletion path changed (for_path env.unicode env.registered path)
  add_changed path changed (some source) =
      ok (record changed { sources = changed.sources ++ source ∷ [] })

  -- The loop over the paths.
  unfoldable pub sort_out_changed :
      List (String × Source) → Changed → List String → Result IndexError Changed
  unfolding for_path vocabulary_for_language new_contribution
  sort_out_changed sources_by_path changed [] = ok changed
  sort_out_changed sources_by_path changed (path ∷ paths) =
      add_changed path changed (lookup path sources_by_path) >>= λ next.
      sort_out_changed sources_by_path next paths

  abbrev pub deletion_source : Contribution → ExtractedSource
  deletion_source contribution = record {
    project_id = "";
    language = contribution.metadata.name;
    contribution = contribution;
  }

  abbrev pub no_changes : Changed
  no_changes = record { sources = []; deleted = []; deletions = [] }

  -- The extracted sources and the deleted paths.
  unfoldable pub extract_changed_sources :
      (ℕ → ℕ)
      → List String
      → List (String × Source)
      → Result IndexError (List ExtractedSource × List String)
  unfolding sort_out_changed extract_discovered_sources
  extract_changed_sources takes paths sources_by_path = do
    changed ← sort_out_changed sources_by_path no_changes paths
    extracted ← extract_discovered_sources env takes changed.sources
    ok (extracted ++ map deletion_source changed.deletions, changed.deleted)
