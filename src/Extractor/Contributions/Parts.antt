-- ===== src/Extractor/Contributions/Parts.antt =====
-- What each loop of `NewContribution` in extractor/contracts.go accepts.
use agent_wayfinder.Prelude.{
  filled_iff, wrap_iff, inl, inr, ap, String, ◌==◌, eq_iff, List, false, not, ◌&&◌, ◌≡◌, ◌≢◌, ◌↔◌,
  ◌⊎◌, Has, All, contains_iff, arith, ok, refuse_if, check_all, check_all_iff,
}
use agent_wayfinder.Graph.{FactEvidence}
use agent_wayfinder.Graph.Validation.{validate_evidence}
use agent_wayfinder.Graph.Validation.Evidence.{IsEvidence, validate_evidence_iff}
use agent_wayfinder.Extractor.{
  CatalogUnit, UnresolvedReference, ModuleBinding, SymbolReference, ExportedSurface, Dependency,
  Diagnostic, module_reference_import, module_reference_re_export, module_reference_require,
  diagnostic_error, diagnostic_warning, diagnostic_info,
}
use agent_wayfinder.Extractor.Contributions.{
  check_unit, check_reference, check_symbol, check_surface, check_dependency, check_diagnostic,
  validate_reference_evidence, bad_evidence, empty_token, empty_binding,
}

pub record IsUnit (node_ids : List String) (unit : CatalogUnit) : Type 0 where
  pub node : Has unit.node_id node_ids
  pub node_id : unit.node_id ≢ ""
  pub name : unit.name ≢ ""
  pub kind : unit.kind ≢ ""
  pub signature : unit.signature ≢ ""
  pub tokens : All (λ token. token ≢ "") unit.identifier_tokens

tokens_iff :
    (tokens : List String)
    → (check_all (λ token. refuse_if (token == "") empty_token) tokens ≡ ok tt)
      ↔ All (λ token. token ≢ "") tokens
tokens_iff tokens = check_all_iff _ (λ token. token ≢ "") (filled_iff empty_token) tokens

pub check_unit_iff :
    (node_ids : List String) (unit : CatalogUnit)
    → (check_unit node_ids unit ≡ ok tt) ↔ IsUnit node_ids unit
unfolding check_unit
check_unit_iff node_ids unit = (
  λ h. ground (
    arith,
    contains_iff node_ids unit.node_id,
    eq_iff unit.node_id "",
    eq_iff unit.name "",
    eq_iff unit.kind "",
    eq_iff unit.signature "",
    tokens_iff unit.identifier_tokens,
  ),
  λ u. ground (
    arith,
    contains_iff node_ids unit.node_id,
    eq_iff unit.node_id "",
    eq_iff unit.name "",
    eq_iff unit.kind "",
    eq_iff unit.signature "",
    tokens_iff unit.identifier_tokens,
  ),
)

pub record IsReference (node_ids : List String) (reference : UnresolvedReference) : Type 0 where
  pub source : Has reference.source_id node_ids
  pub source_id : reference.source_id ≢ ""
  pub target : reference.target ≢ ""
  pub kind :
      (reference.kind ≡ module_reference_import)
      ⊎ (reference.kind ≡ module_reference_re_export)
      ⊎ (reference.kind ≡ module_reference_require)
  pub bindings : All (λ (binding : ModuleBinding). binding.imported_name ≢ "") reference.bindings

bindings_iff :
    (bindings : List ModuleBinding)
    → (check_all
          (λ (binding : ModuleBinding). refuse_if (binding.imported_name == "") empty_binding)
          bindings
        ≡ ok tt)
      ↔ All (λ (binding : ModuleBinding). binding.imported_name ≢ "") bindings
bindings_iff bindings =
    check_all_iff _ (λ (binding : ModuleBinding). binding.imported_name ≢ "")
      (λ binding. filled_iff empty_binding binding.imported_name) bindings

-- The three kinds are texts of their own, and none is empty.
kind_iff :
    (kind : String)
    → ((not (kind == module_reference_import)
          && not (kind == module_reference_re_export)
          && not (kind == module_reference_require))
        ≡ false)
      ↔ ((kind ≡ module_reference_import)
          ⊎ (kind ≡ module_reference_re_export)
          ⊎ (kind ≡ module_reference_require))
kind_iff kind = ground (
  arith,
  eq_iff kind module_reference_import,
  eq_iff kind module_reference_re_export,
  eq_iff kind module_reference_require,
)

kind_filled :
    (kind : String)
    → (kind ≡ module_reference_import)
      ⊎ (kind ≡ module_reference_re_export)
      ⊎ (kind ≡ module_reference_require)
    → (kind == "") ≡ false
kind_filled kind (inl e) = ap (λ k. k == "") e
kind_filled kind (inr (inl e)) = ap (λ k. k == "") e
kind_filled kind (inr (inr e)) = ap (λ k. k == "") e

pub check_reference_iff :
    (node_ids : List String) (reference : UnresolvedReference)
    → (check_reference node_ids reference ≡ ok tt) ↔ IsReference node_ids reference
unfolding check_reference
check_reference_iff node_ids reference = (
  λ h. ground (
    arith,
    contains_iff node_ids reference.source_id,
    eq_iff reference.source_id "",
    eq_iff reference.target "",
    kind_iff reference.kind,
    bindings_iff reference.bindings,
  ),
  λ r. ground (
    arith,
    contains_iff node_ids reference.source_id,
    eq_iff reference.source_id "",
    eq_iff reference.target "",
    kind_filled reference.kind r.kind,
    (kind_iff reference.kind).1 r.kind,
    bindings_iff reference.bindings,
  ),
)

-- The extractor's check of evidence accepts what the graph's does.
pub validate_reference_evidence_iff :
    (e : FactEvidence) → (validate_reference_evidence e ≡ ok tt) ↔ IsEvidence e
unfolding validate_reference_evidence validate_evidence
validate_reference_evidence_iff e = ground (arith, validate_evidence_iff e)

pub record IsSymbol (node_ids : List String) (reference : SymbolReference) : Type 0 where
  pub source : Has reference.source_id node_ids
  pub source_id : reference.source_id ≢ ""
  pub target : reference.target ≢ ""
  pub relation : reference.relation ≢ ""
  pub evidence : IsEvidence reference.evidence

pub check_symbol_iff :
    (node_ids : List String) (reference : SymbolReference)
    → (check_symbol node_ids reference ≡ ok tt) ↔ IsSymbol node_ids reference
unfolding check_symbol
check_symbol_iff node_ids reference = (
  λ h. ground (
    arith,
    contains_iff node_ids reference.source_id,
    eq_iff reference.source_id "",
    eq_iff reference.target "",
    eq_iff reference.relation "",
    wrap_iff bad_evidence (validate_reference_evidence reference.evidence),
    validate_reference_evidence_iff reference.evidence,
  ),
  λ s. ground (
    arith,
    contains_iff node_ids reference.source_id,
    eq_iff reference.source_id "",
    eq_iff reference.target "",
    eq_iff reference.relation "",
    wrap_iff bad_evidence (validate_reference_evidence reference.evidence),
    validate_reference_evidence_iff reference.evidence,
  ),
)

pub record IsSurface (node_ids : List String) (surface : ExportedSurface) : Type 0 where
  pub node : Has surface.node_id node_ids
  pub node_id : surface.node_id ≢ ""
  pub name : surface.name ≢ ""

pub check_surface_iff :
    (node_ids : List String) (surface : ExportedSurface)
    → (check_surface node_ids surface ≡ ok tt) ↔ IsSurface node_ids surface
unfolding check_surface
check_surface_iff node_ids surface = (
  λ h. ground (
    arith,
    contains_iff node_ids surface.node_id,
    eq_iff surface.node_id "",
    eq_iff surface.name "",
  ),
  λ s. ground (
    arith,
    contains_iff node_ids surface.node_id,
    eq_iff surface.node_id "",
    eq_iff surface.name "",
  ),
)

pub record IsDependency (dependency : Dependency) : Type 0 where
  pub source_path : dependency.source_path ≢ ""
  pub target_path : dependency.target_path ≢ ""

pub check_dependency_iff :
    (dependency : Dependency) → (check_dependency dependency ≡ ok tt) ↔ IsDependency dependency
unfolding check_dependency
check_dependency_iff dependency = (
  λ h. ground (arith, eq_iff dependency.source_path "", eq_iff dependency.target_path ""),
  λ d. ground (arith, eq_iff dependency.source_path "", eq_iff dependency.target_path ""),
)

pub record IsDiagnostic (diagnostic : Diagnostic) : Type 0 where
  pub message : diagnostic.message ≢ ""
  pub severity :
      (diagnostic.severity ≡ diagnostic_error)
      ⊎ (diagnostic.severity ≡ diagnostic_warning)
      ⊎ (diagnostic.severity ≡ diagnostic_info)

severity_iff :
    (severity : String)
    → ((not (severity == diagnostic_error)
          && not (severity == diagnostic_warning)
          && not (severity == diagnostic_info))
        ≡ false)
      ↔ ((severity ≡ diagnostic_error)
          ⊎ (severity ≡ diagnostic_warning)
          ⊎ (severity ≡ diagnostic_info))
severity_iff severity = ground (
  arith,
  eq_iff severity diagnostic_error,
  eq_iff severity diagnostic_warning,
  eq_iff severity diagnostic_info,
)

pub check_diagnostic_iff :
    (diagnostic : Diagnostic) → (check_diagnostic diagnostic ≡ ok tt) ↔ IsDiagnostic diagnostic
unfolding check_diagnostic
check_diagnostic_iff diagnostic = (
  λ h. ground (arith, eq_iff diagnostic.message "", severity_iff diagnostic.severity),
  λ d.
      ground (arith, eq_iff diagnostic.message "", (severity_iff diagnostic.severity).1 d.severity),
)
