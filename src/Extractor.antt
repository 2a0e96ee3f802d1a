-- ===== src/Extractor.antt =====
-- extractor/contracts.go: what extractors hand over about a source.
pub mod Extensions
pub mod Contributions
pub mod LanguageVocabulary
pub mod PageIndex
pub mod FileView
pub mod Registry
use agent_wayfinder.Prelude.{String, List, Bool}
use agent_wayfinder.Graph.{NodeKind, RelationKind, FactEvidence, Facts}

pub record Metadata : Type 0 where
  pub name : String
  pub version : String
  pub extensions : List String

pub record CatalogUnit : Type 0 where
  pub node_id : String
  pub name : String
  pub kind : NodeKind
  pub owner : String
  pub signature : String
  pub declaration_source : String
  pub comments : List String
  pub identifier_tokens : List String

abbrev pub ModuleReferenceKind : Type 0
ModuleReferenceKind = String

abbrev pub module_reference_import : ModuleReferenceKind
module_reference_import = "import"

abbrev pub module_reference_re_export : ModuleReferenceKind
module_reference_re_export = "re_export"

abbrev pub module_reference_require : ModuleReferenceKind
module_reference_require = "require"

pub record ModuleBinding : Type 0 where
  pub imported_name : String
  pub exported_name : String
  pub local_name : String

pub record UnresolvedReference : Type 0 where
  pub source_id : String
  pub target : String
  pub kind : ModuleReferenceKind
  pub ambiguous : Bool
  pub bindings : List ModuleBinding

pub record SymbolReference : Type 0 where
  pub source_id : String
  pub target : String
  pub receiver_type : String
  pub relation : RelationKind
  pub evidence : FactEvidence

pub record ExportedSurface : Type 0 where
  pub node_id : String
  pub name : String

pub record Dependency : Type 0 where
  pub source_path : String
  pub target_path : String

abbrev pub DiagnosticSeverity : Type 0
DiagnosticSeverity = String

abbrev pub diagnostic_error : DiagnosticSeverity
diagnostic_error = "error"

abbrev pub diagnostic_warning : DiagnosticSeverity
diagnostic_warning = "warning"

abbrev pub diagnostic_info : DiagnosticSeverity
diagnostic_info = "info"

pub record Diagnostic : Type 0 where
  pub severity : DiagnosticSeverity
  pub message : String

-- `ContributionInput`, and `Contribution`, which has the same fields.
pub record ContributionInput : Type 0 where
  pub project_id : String
  pub source_path : String
  pub metadata : Metadata
  pub facts : Facts
  pub catalog_units : List CatalogUnit
  pub unresolved_references : List UnresolvedReference
  pub symbol_references : List SymbolReference
  pub exported_surfaces : List ExportedSurface
  pub dependencies : List Dependency
  pub diagnostics : List Diagnostic

pub record Contribution : Type 0 where
  pub project_id : String
  pub source_path : String
  pub metadata : Metadata
  pub facts : Facts
  pub catalog_units : List CatalogUnit
  pub unresolved_references : List UnresolvedReference
  pub symbol_references : List SymbolReference
  pub exported_surfaces : List ExportedSurface
  pub dependencies : List Dependency
  pub diagnostics : List Diagnostic
