-- ===== src/Examples/ChangesExamples.antt =====
-- Tests of changed paths, merged sources and projections of the indexing pipeline.
use agent_wayfinder.Prelude.{
  String, List, [], ◌∷◌, ◌++◌, ◌≡◌, refl, ok, All, lookup, contains, insert, delete,
}
use agent_wayfinder.Paths.{
  join_path, rel, strip_common, clean, clean_segments, clean_stack, push_segment, split, join,
  is_abs, ext, has_dot_or_slash,
}
use agent_wayfinder.Paths.Names.{IsName}
use agent_wayfinder.Indexer.EventPath.Inside.{full_path}
use agent_wayfinder.Indexing.Changes.{normalize_changed_path}
use agent_wayfinder.Indexing.Changes.Inside.{normalize_changed_path-IsName}
use agent_wayfinder.Indexing.{Source, ExtractedSource}
use agent_wayfinder.Indexing.Changes.{deletion_source, input_of_deletion}
use agent_wayfinder.Indexing.Languages.{vocabulary_for_language}
use agent_wayfinder.Indexing.Merge.{
  SourceContribution, Workspace, merge_sources, merge_stored, merge_updated, values_of, restore,
}
use agent_wayfinder.Indexing.Merge.Tables.{expected}
use agent_wayfinder.Indexing.Merge.Refines.{StandsFor, merge_sources-StandsFor}
use agent_wayfinder.Extractor.Contributions.{new_contribution, contribution_of}
use agent_wayfinder.Extractor.Extensions.{
  normalize_extension, extension_of, validate_metadata, check_extensions, trim_space, trim_left,
  trim_right, to_lower,
}
use agent_wayfinder.Extractor.Registry.{for_path}
use agent_wayfinder.Graph.Validation.{
  validate, validate_nodes, validate_edges, validate_edge, validate_evidence, is_incomplete,
  starts_after_end, has_unsupported_confidence, endpoint_allowed,
}
use agent_wayfinder.Prelude.Order.{sort_texts, insert_text, less}
use agent_wayfinder.Examples.ExtractorExamples.{unicode, go_metadata, input}
use agent_wayfinder.Examples.IndexingExamples.{
  main_file, util_file, source_of, registry, languages, environment,
}

changed_path : normalize_changed_path "/repo" "src/../main.go" ≡ ok "main.go"
unfolding normalize_changed_path join_path rel strip_common clean clean_segments clean_stack
    push_segment split join is_abs
changed_path = refl

normalize_changed_path-IsName_example :
    (names : List String) × (clean_segments (full_path "/repo" "src/../main.go")
      ≡ clean_segments "/repo" ++ names)
    × All IsName names
    × ("main.go" ≡ join names)
unfolding is_abs
normalize_changed_path-IsName_example =
    normalize_changed_path-IsName "/repo" "src/../main.go" "main.go" refl changed_path

abbrev main_source : Source
main_source = record { path = "main.go"; project_id = "p" }

abbrev by_path : List (String × Source)
by_path = ("main.go", main_source) ∷ []

abbrev removed : ExtractedSource
removed = deletion_source environment (contribution_of (input_of_deletion "gone.go" go_metadata))

abbrev paths : List String
paths = "gone.go" ∷ "main.go" ∷ "notes.txt" ∷ []

abbrev stored_main : SourceContribution
stored_main = record {
  source_path = "main.go";
  metadata = go_metadata;
  facts = input.facts;
  catalog_units = [];
  unresolved_references = [];
  symbol_references = [];
  exported_surfaces = [];
  dependencies = [];
  diagnostics = [];
}

abbrev workspace : Workspace
workspace = record {
  unicode = unicode;
  registered = registry;
  languages = languages;
  sources_by_path = by_path;
  deleted = "gone.go" ∷ [];
}

abbrev restored_main : ExtractedSource
restored_main = source_of (record main_file {
  project_id = "";
  catalog_units = [];
  unresolved_references = [];
  symbol_references = [];
  exported_surfaces = [];
  diagnostics = [];
})

merged :
    merge_sources workspace
      (stored_main
        ∷ record stored_main { source_path = "gone.go" }
        ∷ record stored_main { source_path = "lost.go" }
        ∷ [])
      (source_of util_file ∷ [])
    ≡ ok (restored_main ∷ source_of util_file ∷ [])
unfolding merge_sources merge_stored merge_updated values_of restore vocabulary_for_language
    new_contribution validate_metadata check_extensions normalize_extension extension_of ext
    has_dot_or_slash trim_space trim_left trim_right to_lower validate validate_nodes validate_edges
    validate_edge validate_evidence is_incomplete starts_after_end has_unsupported_confidence
    endpoint_allowed for_path contains lookup insert delete sort_texts insert_text less
merged = refl

merge_sources-StandsFor_example : StandsFor (restored_main ∷ source_of util_file ∷ []) (
    expected workspace
      (stored_main
        ∷ record stored_main { source_path = "gone.go" }
        ∷ record stored_main { source_path = "lost.go" }
        ∷ [])
      (source_of util_file ∷ []))
merge_sources-StandsFor_example =
    merge_sources-StandsFor workspace
      (stored_main
        ∷ record stored_main { source_path = "gone.go" }
        ∷ record stored_main { source_path = "lost.go" }
        ∷ [])
      (source_of util_file ∷ []) (restored_main ∷ source_of util_file ∷ []) merged
