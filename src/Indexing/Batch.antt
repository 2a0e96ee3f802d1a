-- ===== src/Indexing/Batch.antt =====
-- index/index.go: `PublishBatch` and `publishStagedBatch`, which bring the stored graph up to date with some
-- changed paths. The store is a parameter, with its answers at the context of the call; so are the sources
-- that `workspace.Discover` finds, and what `Publish` answers for a workspace that is not stored yet.
-- Measurements are left out.
use agent_wayfinder.Prelude.{
  ℕ, String, ◌==◌, List, [], ◌∷◌, ◌++◌, if◌then◌else◌, ltb, length, Option, none, some, lookup,
  insert, contains, map, Result, ok, err, ◌>>=◌,
}
use agent_wayfinder.Extractor.{Contribution}
use agent_wayfinder.Indexing.{
  Source, ExtractedSource, IndexError, failed, root_required, publisher_required, ResolverStore,
}
use agent_wayfinder.Indexing.Pages.{resolver_projection_page_size}
use agent_wayfinder.Indexing.Extraction.{Environment, extract_discovered_sources}
use agent_wayfinder.Indexing.Changes.{changed_paths, extract_changed_sources}
use agent_wayfinder.Indexing.Requests.{
  PublishRequest, ResolverStageSource, Answer, failed_with, new_graph_update,
  contributions_from_sources, resolver_stage_source, prepare_request, prepare_staged,
}

-- What `OpenSnapshot` answers.
pub data Opened (S : Type 0) : Type 0 where
  opened : S → Opened S
  workspace_not_found : Opened S
  not_opened : String → Opened S

-- `storage.ResolverStager`: it stages sources, and then reads them with those of the snapshot that
-- `publish_staged` is given.
abbrev pub Stager : Type 0
Stager = List ResolverStageSource → Result String ResolverStore

-- `batchStore`
pub record BatchStore (S : Type 0) : Type 0 where
  pub open_snapshot : String → Opened S
  pub affected_sources : S → List Contribution → Result String (List String)
  pub resolver : S → ResolverStore
  pub publish : PublishRequest → Result String S
  pub publish_staged : S → PublishRequest → (Stager → Answer PublishRequest) → Answer S

unfoldable pub sources_by_path : List Source → List (String × Source) → List (String × Source)
sources_by_path [] table = table
sources_by_path (source ∷ sources) table = sources_by_path sources (insert source.path source table)

abbrev pub found_source : Option Source → List Source
found_source none = []
found_source (some source) = source ∷ []

-- The loop over the affected paths.
unfoldable pub affected_of : List (String × Source) → List String → List String → List Source
affected_of table changed [] = []
affected_of table changed (path ∷ paths) =
    let rest = affected_of table changed paths in
    if contains changed path then rest else found_source (lookup path table) ++ rest

module _ (env : Environment) where
  module _ {S : Type 0} (store : BatchStore S) where
    abbrev pub publish_prepared : Answer PublishRequest → Answer S
    publish_prepared none = none
    publish_prepared (some (err e)) = some (err e)
    publish_prepared (some (ok request)) = some (failed_with (store.publish request))

    unfoldable pub publish_staged_batch :
        S → List Source → List ExtractedSource → List String → Answer S
    unfolding prepare_request
    publish_staged_batch snapshot discovered sources deleted =
        elim (new_graph_update (contributions_from_sources sources)) [
          | err e ↦ some (err e)
          | ok update ↦
              store.publish_staged snapshot
                (record {
                  workspace = env.root;
                  update = update;
                  workspace_facts = record { nodes = []; edges = [] };
                  replaced_workspace_fact_owners = [];
                })
                (λ stage.
                  prepare_staged env discovered sources deleted
                    (stage (map resolver_stage_source sources)))
        ]

    -- From the sources of the update on.
    abbrev pub publish_sources : S → List Source → List String → List ExtractedSource → Answer S
    publish_sources snapshot discovered deleted sources =
        if ltb resolver_projection_page_size (length sources)
        then publish_staged_batch snapshot discovered sources deleted
        else publish_prepared
            (prepare_request env (store.resolver snapshot) discovered sources deleted)

    -- The sources of the update: the changed ones, and then the affected ones.
    abbrev pub update_sources :
        (ℕ → ℕ)
        → S
        → List Source
        → List String
        → List ExtractedSource
        → Result IndexError (List ExtractedSource)
    update_sources takes snapshot discovered changed sources = do
      update ← new_graph_update (contributions_from_sources sources)
      paths ← failed_with (store.affected_sources snapshot update)
      affected ←
          extract_discovered_sources env takes
            (affected_of (sources_by_path discovered []) changed paths)
      ok (sources ++ affected)

    abbrev pub after_update_sources :
        S → List Source → List String → Result IndexError (List ExtractedSource) → Answer S
    after_update_sources snapshot discovered deleted (err e) = some (err e)
    after_update_sources snapshot discovered deleted (ok sources) =
        publish_sources snapshot discovered deleted sources

    -- From the changed sources on.
    abbrev pub after_changed :
        (ℕ → ℕ)
        → S
        → List Source
        → List String
        → Result IndexError (List ExtractedSource × List String)
        → Answer S
    after_changed takes snapshot discovered changed (err e) = some (err e)
    after_changed takes snapshot discovered changed (ok ([], deleted)) = some (ok snapshot)
    after_changed takes snapshot discovered changed (ok (source ∷ sources, deleted)) =
        after_update_sources snapshot discovered deleted
          (update_sources takes snapshot discovered changed (source ∷ sources))

    abbrev pub after_paths : (ℕ → ℕ) → S → List Source → Result IndexError (List String) → Answer S
    after_paths takes snapshot discovered (err e) = some (err e)
    after_paths takes snapshot discovered (ok changed) =
        after_changed takes snapshot discovered changed
          (extract_changed_sources env takes changed (sources_by_path discovered []))

    -- From the answer of `OpenSnapshot` on.
    abbrev pub after_open : (ℕ → ℕ) → Answer S → List Source → List String → Opened S → Answer S
    after_open takes publish_all discovered paths workspace_not_found = publish_all
    after_open takes publish_all discovered paths (not_opened e) = some (err (failed e))
    after_open takes publish_all discovered paths (opened snapshot) =
        after_paths takes snapshot discovered (changed_paths env.root paths)

  abbrev pub after_discovery :
      {S : Type 0}
      → (ℕ → ℕ)
      → BatchStore S
      → Answer S
      → List String
      → Result String (List Source)
      → Answer S
  after_discovery takes store publish_all paths (err e) = some (err (failed e))
  after_discovery takes store publish_all paths (ok discovered) =
      after_open store takes publish_all discovered paths (store.open_snapshot env.root)

  -- The root of the environment is the absolute form of the requested one.
  unfoldable pub publish_batch :
      {S : Type 0}
      → (ℕ → ℕ)
      → Option (BatchStore S)
      → Answer S
      → Result String (List Source)
      → String
      → List String
      → Answer S
  unfolding changed_paths extract_changed_sources sources_by_path affected_of
      extract_discovered_sources publish_staged_batch
  publish_batch takes store publish_all discovered requested_root paths =
      if requested_root == "" then some (err root_required) else elim store [
        | none ↦ some (err publisher_required)
        | some batch_store ↦ after_discovery takes batch_store publish_all paths discovered
      ]
