-- ===== src/Indexing/Requests/Prepares.antt =====
-- What `PublishBatch` of index/index.go hands over to be published.
use agent_wayfinder.Prelude.{
  String, List, [], ◌∷◌, some, map, is_empty, false, Has, IsDistinct, All, Result, ok, ◌>>=◌, ◌≡◌,
  ◌≢◌, ◌↔◌, refl, ◌∙◌, ap,
}
use agent_wayfinder.Prelude.Order.{IsAscending, Has-sort_texts, sort_texts-IsAscending}
use agent_wayfinder.Graph.{Facts}
use agent_wayfinder.Extractor.{Contribution}
use agent_wayfinder.Extractor.Contributions.{ContributionError}
use agent_wayfinder.Indexing.{Source, ExtractedSource, IndexError, Resolution, ResolverStore}
use agent_wayfinder.Indexing.Extraction.{Environment}
use agent_wayfinder.Indexing.Groups.{resolve_incremental_workspace_facts}
use agent_wayfinder.Indexing.Dependencies.Exact.{
  AreResolved, with_resolved_dependencies-AreResolved,
}
use agent_wayfinder.Indexing.Requests.{
  PublishRequest, Answer, checked_with, new_graph_update, contributions_from_sources, source_paths,
  request_for, request_after, prepare_request,
}

abbrev pub paths_of_sources : List ExtractedSource → List String
paths_of_sources sources = map (λ (s : ExtractedSource). s.contribution.source_path) sources

abbrev pub contributions_of : List ExtractedSource → List Contribution
contributions_of sources = map (λ (s : ExtractedSource). s.contribution) sources

-- A request to publish the sources with the facts of a resolution.
pub record IsPrepared (root : String) (sources : List ExtractedSource) (resolution : Resolution)
    (request : PublishRequest) : Type 0 where
  pub workspace : request.workspace ≡ root
  pub facts : request.workspace_facts ≡ resolution.facts
  pub resolved :
      AreResolved
        (contributions_of sources)
        resolution.facts
        (contributions_of sources)
        request.update
  pub owners :
      (path : String)
      → Has path request.replaced_workspace_fact_owners ↔ Has path (paths_of_sources sources)
  pub ascending : IsAscending request.replaced_workspace_fact_owners

resolved-new_graph_update :
    (facts : Facts) (all contributions updated : List Contribution)
    → is_empty contributions ≡ false
    → AreResolved all facts contributions updated
    → new_graph_update updated ≡ ok updated
unfolding new_graph_update
resolved-new_graph_update facts all [] updated filled h = cc
resolved-new_graph_update facts all (c ∷ cs) [] filled h = absurd h
resolved-new_graph_update facts all (c ∷ cs) (u ∷ us) filled h = refl

is_empty-contributions :
    (sources : List ExtractedSource)
    → is_empty sources ≡ false
    → is_empty (contributions_from_sources sources) ≡ false
is_empty-contributions [] h = h
is_empty-contributions (s ∷ sources) h = refl

All-contributions :
    (sources : List ExtractedSource)
    → All (λ (s : ExtractedSource). s.contribution.source_path ≢ "") sources
    → All (λ (c : Contribution). c.source_path ≢ "") (contributions_from_sources sources)
All-contributions [] h = tt
All-contributions (s ∷ sources) h = (h.0, All-contributions sources h.1)

module _ (env : Environment) where
  -- The chain after the dependencies are resolved.
  abbrev checked_request :
      List ExtractedSource
      → Resolution
      → Result ContributionError (List Contribution)
      → Result IndexError PublishRequest
  checked_request sources resolution r = do
    contributions ← checked_with r
    update ← new_graph_update contributions
    ok (request_for env sources resolution update)

  request_for-IsPrepared :
      (sources : List ExtractedSource) (resolution : Resolution) (updated : List Contribution)
      → IsDistinct (paths_of_sources sources)
      → AreResolved
          (contributions_from_sources sources)
          resolution.facts
          (contributions_from_sources sources)
          updated
      → IsPrepared env.root sources resolution (request_for env sources resolution updated)
  unfolding source_paths
  request_for-IsPrepared sources resolution updated distinct resolved = record {
    workspace = refl;
    facts = refl;
    resolved = resolved;
    owners = λ path. Has-sort_texts path (paths_of_sources sources);
    ascending = sort_texts-IsAscending (paths_of_sources sources) distinct;
  }

  -- Where the incremental resolution of the workspace returns, and there is a source, and the sources have
  -- distinct paths, none of them empty, `PublishBatch` prepares a request for them. It has the root and the
  -- facts of the resolution, and replaces the facts of exactly these paths, in ascending order. Its
  -- contributions are those of the sources, in their order, and nothing of them is changed but the
  -- dependencies, which become one for each other file to which an edge of the facts leads from a file of
  -- the contribution's path. A file is a node of kind `file` of a contribution, with the path of the
  -- contribution, or of the facts, with the path of its span if that is not empty; of several with the same
  -- ID the last one counts, those of the contributions being first.
  pub prepare_request-IsPrepared :
      (store : ResolverStore) (discovered : List Source) (sources : List ExtractedSource)
      (deleted : List String) (resolution : Resolution)
      → is_empty sources ≡ false
      → All (λ (s : ExtractedSource). s.contribution.source_path ≢ "") sources
      → IsDistinct (paths_of_sources sources)
      → resolve_incremental_workspace_facts env.unicode env.registered env.languages env.root store
          discovered sources deleted
        ≡ some (ok resolution)
      → (request : PublishRequest) × (prepare_request env store discovered sources deleted
          ≡ some (ok request))
        × IsPrepared env.root sources resolution request
  unfolding prepare_request
  prepare_request-IsPrepared store discovered sources deleted resolution some_source filled distinct
        e =
      let contributions = contributions_from_sources sources in
      let (updated, made, resolved) =
        with_resolved_dependencies-AreResolved contributions resolution.facts
          (All-contributions sources filled) in
      let accepted =
        resolved-new_graph_update resolution.facts contributions contributions updated
          (is_empty-contributions sources some_source) resolved in
      (
        request_for env sources resolution updated,
        ap (λ (a : Answer Resolution). request_after env sources a) e
            ∙ ap
                (λ (r : Result ContributionError (List Contribution)).
                  some (checked_request sources resolution r))
                made
            ∙ ap
                (λ (r : Result IndexError (List Contribution)).
                  some (r >>= λ update. ok (request_for env sources resolution update)))
                accepted,
        request_for-IsPrepared sources resolution updated distinct resolved,
      )
