-- ===== src/Indexing.antt =====
-- index/index.go: the sources of a workspace, what was extracted from them, and what a resolver
-- answers. An error of a function that is a parameter is its message.
pub mod Overrides
pub mod Pages
pub mod Languages
pub mod Extraction
pub mod Dependencies
pub mod Groups
pub mod Merge
pub mod Projection
pub mod Changes
pub mod Requests
pub mod Batch
use agent_wayfinder.Prelude.{ℕ, String, List, Bool, Option, Result}
use agent_wayfinder.Graph.{Node, Edge, Facts, ValidationError}
use agent_wayfinder.Extractor.{
  Metadata, UnresolvedReference, SymbolReference, ExportedSurface, Dependency, Diagnostic,
  Contribution,
}
use agent_wayfinder.Extractor.Contributions.{ContributionError}
use agent_wayfinder.Extractor.FileView.{ResolverFileView, ViewError}
use agent_wayfinder.Extractor.PageIndex.{
  ResolverTarget, ResolverTargetRequest, ResolverPackagePageRequest,
}

-- `workspace.Source`
pub record Source : Type 0 where
  pub path : String
  pub project_id : String

pub record ExtractedSource : Type 0 where
  pub project_id : String
  pub language : String
  pub contribution : Contribution

pub record ResolverProjection : Type 0 where
  pub project_id : String
  pub source_path : String
  pub metadata : Metadata
  pub nodes : List Node
  pub edges : List Edge
  pub unresolved_references : List UnresolvedReference
  pub symbol_references : List SymbolReference
  pub exported_surfaces : List ExportedSurface
  pub dependencies : List Dependency
  pub diagnostics : List Diagnostic

pub data IndexError : Type 0 where
  failed : String → IndexError
  changed_path_required resolve_changed_path root_required publisher_required empty_update :
      IndexError
  outside_workspace no_extractor unsupported_resolver unsupported_extractor : String → IndexError
  read_projection_page : String → String → IndexError
  bad_contribution : ContributionError → IndexError
  bad_file_view : ViewError → IndexError
  read_source create_worker read_go_module : String → String → IndexError

-- `graph.Facts` and the diagnostics that a resolver returns.
pub record Resolution : Type 0 where
  pub facts : Facts
  pub diagnostics : List Diagnostic

pub record ResolverProjectionPageRequest : Type 0 where
  pub project_id : String
  pub language : String
  pub after_source_path : String
  pub limit : ℕ

-- `resolverStore`, at one snapshot.
pub record ResolverStore : Type 0 where
  pub resolver_projection_page :
      ResolverProjectionPageRequest → Result String (List ResolverProjection)
  pub resolver_target : ResolverTargetRequest → Result String (Option ResolverTarget)
  pub resolver_package_page : ResolverPackagePageRequest → Result String (List ResolverTarget)

pub record SnapshotResolverIndex : Type 0 where
  pub store : ResolverStore
  pub overrides : List (String × ExtractedSource)

-- `extractor.ResolverIndex`
pub record ResolverIndex : Type 0 where
  pub resolver_target : ResolverTargetRequest → Result String (Option ResolverTarget)
  pub resolver_package_page : ResolverPackagePageRequest → Result String (List ResolverTarget)

-- `ResolvePage` of the three languages.
pub record PageResolvers : Type 0 where
  pub typescript : List Contribution → String → ResolverIndex → Result IndexError Resolution
  pub javascript : List Contribution → String → ResolverIndex → Result IndexError Resolution
  pub go :
      List Contribution → String → ResolverIndex → ResolverFileView → Result IndexError Resolution
