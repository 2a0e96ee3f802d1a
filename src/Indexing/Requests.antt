-- ===== src/Indexing/Requests.antt =====
-- index/index.go: the request that `PublishBatch` and `publishStagedBatch` publish for some sources.
pub mod Prepares
use agent_wayfinder.Prelude.{
  ℕ, String, ◌==◌, List, [], ◌∷◌, ◌++◌, if◌then◌else◌, ltb, is_empty, length, Option, none, some,
  lookup, insert, contains, map, Result, ok, err, ◌>>=◌,
}
use agent_wayfinder.Prelude.Order.{sort_texts}
use agent_wayfinder.Graph.{Facts}
use agent_wayfinder.Extractor.{Contribution}
use agent_wayfinder.Indexing.{
  Source, ExtractedSource, IndexError, failed, bad_contribution, root_required, publisher_required,
  empty_update, Resolution, ResolverStore,
}
use agent_wayfinder.Extractor.Contributions.{ContributionError}
use agent_wayfinder.Indexing.Pages.{resolver_projection_page_size}
use agent_wayfinder.Indexing.Extraction.{Environment, extract_discovered_sources}
use agent_wayfinder.Indexing.Changes.{changed_paths, extract_changed_sources}
use agent_wayfinder.Indexing.Groups.{resolve_incremental_workspace_facts}
use agent_wayfinder.Indexing.Dependencies.{with_resolved_dependencies}

-- `storage.PublishRequest`
pub record PublishRequest : Type 0 where
  pub workspace : String
  pub update : List Contribution
  pub workspace_facts : Facts
  pub replaced_workspace_fact_owners : List String

-- `storage.ResolverStageSource`
pub record ResolverStageSource : Type 0 where
  pub project_id : String
  pub language : String
  pub source_path : String

-- A result, or none where a loop over pages runs out of fuel.
abbrev pub Answer : Type 0 → Type 0
Answer A = Option (Result IndexError A)

abbrev pub failed_with : {A : Type 0} → Result String A → Result IndexError A
failed_with (ok a) = ok a
failed_with (err e) = err (failed e)

abbrev pub checked_with : {A : Type 0} → Result ContributionError A → Result IndexError A
checked_with (ok a) = ok a
checked_with (err e) = err (bad_contribution e)

-- `NewGraphUpdate`
unfoldable pub new_graph_update : List Contribution → Result IndexError (List Contribution)
new_graph_update [] = err empty_update
new_graph_update (c ∷ contributions) = ok (c ∷ contributions)

abbrev pub contributions_from_sources : List ExtractedSource → List Contribution
contributions_from_sources sources = map (λ (s : ExtractedSource). s.contribution) sources

unfoldable pub source_paths : List ExtractedSource → List String
unfolding sort_texts
source_paths sources =
    sort_texts (map (λ (s : ExtractedSource). s.contribution.source_path) sources)

abbrev pub resolver_stage_source : ExtractedSource → ResolverStageSource
resolver_stage_source source = record {
  project_id = source.project_id;
  language = source.language;
  source_path = source.contribution.source_path;
}

module _ (env : Environment) where
  abbrev pub request_for : List ExtractedSource → Resolution → List Contribution → PublishRequest
  request_for sources resolution update = record {
    workspace = env.root;
    update = update;
    workspace_facts = resolution.facts;
    replaced_workspace_fact_owners = source_paths sources;
  }

  -- The request, once the facts of the workspace are resolved.
  abbrev pub request_with : List ExtractedSource → Resolution → Result IndexError PublishRequest
  request_with sources resolution = do
    contributions ←
        checked_with
          (with_resolved_dependencies (contributions_from_sources sources) resolution.facts)
    update ← new_graph_update contributions
    ok (request_for sources resolution update)

  abbrev pub request_after : List ExtractedSource → Answer Resolution → Answer PublishRequest
  request_after sources none = none
  request_after sources (some (err e)) = some (err e)
  request_after sources (some (ok resolution)) = some (request_with sources resolution)

  unfoldable pub prepare_request :
      ResolverStore → List Source → List ExtractedSource → List String → Answer PublishRequest
  unfolding resolve_incremental_workspace_facts with_resolved_dependencies new_graph_update
      source_paths
  prepare_request store discovered sources deleted = request_after sources (
      resolve_incremental_workspace_facts env.unicode env.registered env.languages env.root store
        discovered sources deleted)

  abbrev pub prepare_staged :
      List Source
      → List ExtractedSource
      → List String
      → Result String ResolverStore
      → Answer PublishRequest
  prepare_staged discovered sources deleted (err e) = some (err (failed e))
  prepare_staged discovered sources deleted (ok store) =
      prepare_request store discovered sources deleted
