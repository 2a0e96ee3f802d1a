-- ===== src/Indexing/Overrides.antt =====
-- index/index.go: `resolverTargetFromContribution`, and `snapshotResolverIndex`, the resolver index of a
-- snapshot with sources that were extracted anew.
use agent_wayfinder.Prelude.{
  String, ◌==◌, List, ◌&&◌, if◌then◌else◌, Option, none, some, lookup, map, Result, ok, ◌>>=◌,
}
use agent_wayfinder.Extractor.PageIndex.{
  ResolverTarget, ResolverTargetRequest, ResolverPackagePageRequest,
}
use agent_wayfinder.Indexing.{ExtractedSource, ResolverIndex, SnapshotResolverIndex}

unfoldable pub resolver_target_from_contribution : ExtractedSource → ResolverTarget
resolver_target_from_contribution source =
    let contribution = source.contribution in
    record {
      project_id = source.project_id;
      source_path = contribution.source_path;
      metadata = contribution.metadata;
      nodes = contribution.facts.nodes;
      unresolved_references = contribution.unresolved_references;
      symbol_references = contribution.symbol_references;
      exported_surfaces = contribution.exported_surfaces;
      diagnostics = contribution.diagnostics;
    }

-- The override of a path, if it is of this project and language.
abbrev pub fitting : String → String → Option ExtractedSource → Option ExtractedSource
fitting project_id language none = none
fitting project_id language (some override) =
    if override.project_id == project_id && override.language == language
    then some override
    else none

abbrev pub target_or :
    Result String (Option ResolverTarget)
    → Option ExtractedSource
    → Result String (Option ResolverTarget)
target_or answer none = answer
target_or answer (some override) = ok (some (resolver_target_from_contribution override))

-- The two methods of `snapshotResolverIndex`.
unfoldable pub override_resolver_target :
    SnapshotResolverIndex → ResolverTargetRequest → Result String (Option ResolverTarget)
unfolding resolver_target_from_contribution
override_resolver_target index request =
    target_or (index.store.resolver_target request)
      (fitting request.project_id request.language (lookup request.source_path index.overrides))

abbrev pub overridden : ResolverTarget → Option ExtractedSource → ResolverTarget
overridden target none = target
overridden target (some override) = resolver_target_from_contribution override

unfoldable pub override_package_page :
    SnapshotResolverIndex → ResolverPackagePageRequest → Result String (List ResolverTarget)
unfolding resolver_target_from_contribution
override_package_page index request = do
  targets ← index.store.resolver_package_page request
  ok (
      map
        (λ (target : ResolverTarget).
          overridden target (
            fitting request.project_id request.language
              (lookup target.source_path index.overrides)))
        targets)

-- `snapshotResolverIndex` as an `extractor.ResolverIndex`.
unfoldable pub as_resolver_index : SnapshotResolverIndex → ResolverIndex
unfolding override_resolver_target override_package_page
as_resolver_index index = record {
  resolver_target = override_resolver_target index;
  resolver_package_page = override_package_page index;
}
