-- ===== src/Extractor/PageIndex.antt =====
-- extractor/page_resolver_index.go: the index of a page of sources, which remembers what the resolver
-- index answered. The answer that the resolver index would give now is an argument, and the flag of a
-- result says whether it was asked. A slice that Go clones is the same list here.
pub mod Repeats
use agent_wayfinder.Prelude.{
  ℕ, String, ◌==◌, List, [], ◌∷◌, Bool, true, false, ◌&&◌, if◌then◌else◌, Option, none, some,
}
use agent_wayfinder.Prelude.Int.{ℤ, eq_ℤ}
use agent_wayfinder.Graph.{Node}
use agent_wayfinder.Extractor.{
  Metadata, UnresolvedReference, SymbolReference, ExportedSurface, Diagnostic,
}

pub record ResolverTargetRequest : Type 0 where
  pub project_id : String
  pub language : String
  pub source_path : String

pub record ResolverTarget : Type 0 where
  pub project_id : String
  pub source_path : String
  pub metadata : Metadata
  pub nodes : List Node
  pub unresolved_references : List UnresolvedReference
  pub symbol_references : List SymbolReference
  pub exported_surfaces : List ExportedSurface
  pub diagnostics : List Diagnostic

pub record ResolverPackagePageRequest : Type 0 where
  pub project_id : String
  pub language : String
  pub package_path : String
  pub after_source_path : String
  pub limit : ℤ

-- `pageResolverTargetResult`, and `pageResolverPackageResult`; an error is its message.
pub record TargetResult : Type 0 where
  pub target : ResolverTarget
  pub found : Bool
  pub error : Option String

pub record PackageResult : Type 0 where
  pub targets : List ResolverTarget
  pub error : Option String

pub record PageResolverIndex : Type 0 where
  pub targets : List (ResolverTargetRequest × TargetResult)
  pub packages : List (ResolverPackagePageRequest × PackageResult)

abbrev pub new_page_resolver_index : PageResolverIndex
new_page_resolver_index = record { targets = []; packages = [] }

-- `==` on the keys of the two maps.
abbrev pub same_target : ResolverTargetRequest → ResolverTargetRequest → Bool
same_target a b =
    a.project_id == b.project_id && a.language == b.language && a.source_path == b.source_path

abbrev pub same_package : ResolverPackagePageRequest → ResolverPackagePageRequest → Bool
same_package a b =
    a.project_id == b.project_id
    && a.language == b.language
    && a.package_path == b.package_path
    && a.after_source_path == b.after_source_path
    && eq_ℤ a.limit b.limit

-- `m[k]` of a map whose keys are compared by `same`.
unfoldable pub remembered : {K R : Type 0} → (K → K → Bool) → K → List (K × R) → Option R
remembered same key [] = none
remembered same key ((other, result) ∷ table) =
    if same other key then some result else remembered same key table

-- A method from its `if !ok` on.
unfoldable pub answer_target :
    PageResolverIndex
    → ResolverTargetRequest
    → TargetResult
    → Option TargetResult
    → PageResolverIndex × TargetResult × Bool
answer_target index request answer (some result) = (index, result, false)
answer_target index request answer none =
    (record index { targets = (request, answer) ∷ index.targets }, answer, true)

unfoldable pub answer_package :
    PageResolverIndex
    → ResolverPackagePageRequest
    → PackageResult
    → Option PackageResult
    → PageResolverIndex × PackageResult × Bool
answer_package index request answer (some result) = (index, result, false)
answer_package index request answer none =
    (record index { packages = (request, answer) ∷ index.packages }, answer, true)

-- The new state, the result, and whether the index was asked.
unfoldable pub resolver_target :
    PageResolverIndex
    → ResolverTargetRequest
    → TargetResult
    → PageResolverIndex × TargetResult × Bool
unfolding remembered answer_target
resolver_target index request answer =
    answer_target index request answer (remembered same_target request index.targets)

unfoldable pub resolver_package_page :
    PageResolverIndex
    → ResolverPackagePageRequest
    → PackageResult
    → PageResolverIndex × PackageResult × Bool
unfolding remembered answer_package
resolver_package_page index request answer =
    answer_package index request answer (remembered same_package request index.packages)

-- A call, with what the resolver index would answer to it.
pub data Call : Type 0 where
  target_call : ResolverTargetRequest → TargetResult → Call
  package_call : ResolverPackagePageRequest → PackageResult → Call

unfoldable pub run : PageResolverIndex → List Call → PageResolverIndex
unfolding resolver_target resolver_package_page
run index [] = index
run index (target_call request answer ∷ calls) = run (resolver_target index request answer).0 calls
run index (package_call request answer ∷ calls) =
    run (resolver_package_page index request answer).0 calls
