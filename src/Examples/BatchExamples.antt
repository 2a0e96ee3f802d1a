-- ===== src/Examples/BatchExamples.antt =====
-- Tests of the publication of changed paths.
use agent_wayfinder.Prelude.{List, [], ◌∷◌, some, none, ok, ◌≡◌, refl, lookup, insert}
use agent_wayfinder.Prelude.Order.{sort_texts, insert_text, less}
use agent_wayfinder.Paths.{ext, has_dot_or_slash}
use agent_wayfinder.Extractor.Extensions.{
  normalize_extension, extension_of, trim_space, trim_left, trim_right, to_lower,
}
use agent_wayfinder.Extractor.Registry.{for_path}
use agent_wayfinder.Indexing.{Source, ExtractedSource, ResolverStore}
use agent_wayfinder.Indexing.Pages.{no_resolution}
use agent_wayfinder.Indexing.Languages.{Languages}
use agent_wayfinder.Indexing.Extraction.{Environment}
use agent_wayfinder.Indexing.Groups.{resolve_incremental_workspace_facts, cut_key, group_key}
use agent_wayfinder.Indexing.Requests.{PublishRequest, prepare_request}
use agent_wayfinder.Indexing.Requests.Prepares.{IsPrepared, prepare_request-IsPrepared}
use agent_wayfinder.Examples.ExtractorExamples.{unicode}
use agent_wayfinder.Examples.GraphExamples.{vocabulary}
use agent_wayfinder.Examples.IndexingExamples.{main_file, source_of, registry, environment}

abbrev batch_languages : Languages
batch_languages =
    (
      "go",
      record {
        new_worker = none;
        extract = none;
        vocabulary = some (ok vocabulary);
        resolve_workspace = none;
        resolve_projection_page = none;
        resolve_incremental_projections =
            some (λ root store project_id overrides deleted. some (ok no_resolution));
      },
    )
    ∷ []

abbrev batch_environment : Environment
batch_environment = record environment { languages = batch_languages }

abbrev empty_store : ResolverStore
empty_store = record {
  resolver_projection_page = λ request. ok [];
  resolver_target = λ request. ok none;
  resolver_package_page = λ request. ok [];
}

abbrev in_workspace : List Source
in_workspace = record { path = "main.go"; project_id = "p" } ∷ []

abbrev to_update : List ExtractedSource
to_update = source_of main_file ∷ []

resolved :
    resolve_incremental_workspace_facts unicode registry batch_languages "/repo" empty_store
      in_workspace to_update []
    ≡ some (ok no_resolution)
unfolding resolve_incremental_workspace_facts for_path extension_of ext has_dot_or_slash
    normalize_extension trim_space trim_left trim_right to_lower lookup insert group_key cut_key
    sort_texts insert_text less
resolved = refl

prepare_request-IsPrepared_example :
    (request : PublishRequest) × (prepare_request batch_environment empty_store in_workspace
        to_update []
      ≡ some (ok request))
    × IsPrepared "/repo" to_update no_resolution request
prepare_request-IsPrepared_example =
    prepare_request-IsPrepared batch_environment empty_store in_workspace to_update [] no_resolution
      refl ((λ e. cc), tt) ((λ m. m), tt) resolved
