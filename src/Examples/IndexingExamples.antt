-- ===== src/Examples/IndexingExamples.antt =====
-- Tests of the pages, groups, dependencies and languages of the indexing pipeline.
use agent_wayfinder.Prelude.{
  String, ◌==◌, eq_iff, List, [], ◌∷◌, ◌≡◌, ◌↔◌, ◌⊎◌, inl, inr, refl, map, Option, some, none,
  Result, ok, All, Any, Has, IsDistinct, lookup, keys, if◌then◌else◌, arith, contains, insert,
}
use agent_wayfinder.Prelude.Order.{IsAscending}
use agent_wayfinder.Extractor.{Contribution}
use agent_wayfinder.Extractor.Contributions.{contribution_of}
use agent_wayfinder.Extractor.Registry.{Extractor, Registry, new_registry, for_path}
use agent_wayfinder.Extractor.Registry.Accepts.{
  IsExtractor, entries, new_registry_iff, for_path_iff,
}
use agent_wayfinder.Indexing.{
  Source, ExtractedSource, ResolverProjection, IndexError, Resolution,
  ResolverProjectionPageRequest,
}
use agent_wayfinder.Indexing.Pages.{no_resolution, page_contributions, resolve_projection_pages}
use agent_wayfinder.Indexing.Pages.Joined.{Answers, IsJoined}
use agent_wayfinder.Indexing.Pages.Calls.{all_paths, walk_calls}
use agent_wayfinder.Indexing.Pages.Passed.{passed, contribution_paths, IsOverride}
use agent_wayfinder.Indexing.Pages.Once.{resolve_projection_pages_once}
use agent_wayfinder.Paths.{ext, has_dot_or_slash}
use agent_wayfinder.Extractor.Extensions.{
  normalize_extension, extension_of, validate_metadata, check_extensions, trim_space, trim_left,
  trim_right, to_lower,
}
use agent_wayfinder.Extractor.Registry.{register_all, register_extensions}
use agent_wayfinder.Indexing.Languages.{Languages, contents_read}
use agent_wayfinder.Indexing.Extraction.{Environment, extract_discovered_sources}
use agent_wayfinder.Indexing.Extraction.Order.{IsExtraction, extract_discovered_sources_alone}
use agent_wayfinder.Indexing.Groups.{resolve_workspace_facts}
use agent_wayfinder.Indexing.Groups.Keys.{has_nul}
use agent_wayfinder.Indexing.Groups.Grouping.{ArePlain}
use agent_wayfinder.Indexing.Groups.Exact.{pairs_of, resolve_workspace_facts-IsJoined}
use agent_wayfinder.Indexing.Groups.Answers.{AreAnswers, diagnostics_in}
use agent_wayfinder.Examples.GraphExamples.{vocabulary}
use agent_wayfinder.Examples.ExtractorExamples.{unicode, go_metadata, input}

abbrev pub main_file : Contribution
main_file = contribution_of input

abbrev pub util_file : Contribution
util_file = record main_file { source_path = "util.go" }

abbrev pub source_of : Contribution → ExtractedSource
source_of c = record { project_id = "p"; language = "go"; contribution = c }

abbrev overrides : List (String × ExtractedSource)
overrides = ("main.go", source_of main_file) ∷ ("util.go", source_of util_file) ∷ []

abbrev page : List ResolverProjection
page =
    record {
      project_id = "p";
      source_path = "main.go";
      metadata = go_metadata;
      nodes = main_file.facts.nodes;
      edges = main_file.facts.edges;
      unresolved_references = [];
      symbol_references = [];
      exported_surfaces = [];
      dependencies = [];
      diagnostics = [];
    }
    ∷ []

-- A store with one page.
abbrev read : ResolverProjectionPageRequest → Result String (List ResolverProjection)
read request = ok (if request.after_source_path == "" then page else [])

abbrev resolve : List Contribution → Result IndexError Resolution
resolve contributions = ok no_resolution

abbrev calls : List (List Contribution)
calls = walk_calls overrides [] "go" "p" resolve read (page ∷ [])

test_calls : calls ≡ (main_file ∷ []) ∷ (util_file ∷ []) ∷ []
unfolding walk_calls all_paths contains lookup page_contributions
test_calls = refl

two_keys : IsDistinct (keys overrides)
two_keys = (
  (λ h. elim h [ inl e ↦ ground (arith, eq_iff "main.go" "util.go", e) | inr m ↦ m ]),
  ((λ m. m), tt),
)

resolve_projection_pages_once_example :
    (called : List (List Contribution)) × (result : Result IndexError Resolution)
    × (resolve_projection_pages overrides [] "go" "p" resolve read 2 ≡ some result)
    × IsJoined [] [] [] (map resolve called) result
    × IsDistinct (contribution_paths (passed called))
    × ((c : Contribution)
        → Has c (passed called) ↔ (
            (path : String) × (source : ExtractedSource) × IsOverride overrides [] "go" "p" resolve
              read path source c
            × (Has path (all_paths (page ∷ []))
                ⊎ (source.project_id ≡ "p") × (source.language ≡ "go"))))
unfolding all_paths
resolve_projection_pages_once_example =
    resolve_projection_pages_once overrides [] "go" "p" resolve read 2 (page ∷ []) (refl, refl)
      (omega arith) (refl, (refl, tt)) two_keys ((λ m. m), tt)

abbrev pub go_extractor : Extractor
go_extractor = record { metadata = go_metadata; vocabulary = ok vocabulary }

abbrev extractors : List (Option Extractor)
extractors = some go_extractor ∷ []

new_registry_iff_example :
    ((registry : Registry) × (new_registry unicode extractors ≡ ok registry))
    ↔ (All (IsExtractor unicode) extractors × IsDistinct (keys (entries unicode extractors)))
new_registry_iff_example = new_registry_iff unicode extractors

abbrev pub registry : Registry
registry = record {
  by_extension = (".go", go_extractor) ∷ (".mod", go_extractor) ∷ [];
  extractors = go_extractor ∷ [];
}

registry_made : new_registry unicode extractors ≡ ok registry
unfolding new_registry register_all register_extensions normalize_extension validate_metadata
    check_extensions trim_space trim_left trim_right to_lower contains lookup insert
registry_made = refl

for_path_iff_example :
    (for_path unicode registry "cmd/main.go" ≡ some go_extractor)
    ↔ Has (extension_of unicode "cmd/main.go", go_extractor) (entries unicode extractors)
for_path_iff_example =
    for_path_iff unicode extractors registry "cmd/main.go" go_extractor registry_made

test_for_path : for_path unicode registry "cmd/main.go" ≡ some go_extractor
unfolding for_path extension_of ext has_dot_or_slash normalize_extension trim_space trim_left
    trim_right to_lower lookup
test_for_path = refl

-- A worker that extracts every file as it is.
abbrev pub languages : Languages
languages =
    (
      "go",
      record {
        new_worker = some (
            ok (record {
              extract = λ file. ok (record main_file { source_path = file.source_path });
              close = none;
            }));
        extract = none;
        vocabulary = some (ok vocabulary);
        resolve_workspace = some (λ root project_id contributions. ok no_resolution);
        resolve_projection_page = none;
        resolve_incremental_projections = none;
      },
    )
    ∷ []

abbrev pub environment : Environment
environment = record {
  unicode = unicode;
  languages = languages;
  registered = registry;
  read_file = λ path. contents_read "package main";
  root = "/repo";
}

abbrev discovered : List Source
discovered =
    record { path = "main.go"; project_id = "p" }
    ∷ record { path = "util.go"; project_id = "p" }
    ∷ []

extract_discovered_sources_alone_example :
    IsExtraction environment discovered
      (extract_discovered_sources environment (λ job. job) discovered)
extract_discovered_sources_alone_example =
    extract_discovered_sources_alone environment (λ job. job) discovered

abbrev sources : List ExtractedSource
sources = source_of main_file ∷ source_of util_file ∷ []

plain : ArePlain sources
unfolding has_nul
plain = (refl, (refl, tt))

resolve_workspace_facts-IsJoined_example :
    (ks : List String) × (answers : Answers) × IsAscending ks
    × ((p l : String)
        → Has (p, l) (pairs_of ks)
          ↔ Any (λ (s : ExtractedSource). (s.project_id ≡ p) × (s.language ≡ l)) sources)
    × AreAnswers languages "/repo" sources (pairs_of ks) answers
    × IsJoined [] []
        (diagnostics_in sources)
        answers
        (resolve_workspace_facts languages "/repo" sources)
resolve_workspace_facts-IsJoined_example =
    resolve_workspace_facts-IsJoined languages "/repo" sources plain
