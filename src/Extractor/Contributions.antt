-- ===== src/Extractor/Contributions.antt =====
-- extractor/contracts.go: `NewContribution` with the checks of its loops, `WithDependencies` and
-- `NewGraphUpdate`. A slice that Go copies is the same list here.
pub mod Parts
pub mod Accepts
use agent_wayfinder.Prelude.{
  String, ◌==◌, List, [], ◌∷◌, Bool, true, false, not, ◌&&◌, ◌||◌, contains, map, Result, ok, err,
  Check, refuse_if, check_all, wrap, ◌>>◌, ◌>>=◌,
}
use agent_wayfinder.Graph.{FactEvidence, Confidence, ValidationError, Node}
use agent_wayfinder.Graph.Vocabulary.{Vocabulary}
use agent_wayfinder.Graph.Validation.{
  is_incomplete, starts_after_end, has_unsupported_confidence, validate,
}
use agent_wayfinder.Extractor.{
  CatalogUnit, UnresolvedReference, ModuleReferenceKind, ModuleBinding, SymbolReference,
  ExportedSurface, Dependency, Diagnostic, DiagnosticSeverity, ContributionInput, Contribution,
  module_reference_import, module_reference_re_export, module_reference_require, diagnostic_error,
  diagnostic_warning, diagnostic_info,
}
use agent_wayfinder.Extractor.Extensions.{Unicode, MetadataError, validate_metadata}

pub data EvidenceError : Type 0 where
  incomplete_evidence invalid_span : EvidenceError
  unsupported_confidence : Confidence → EvidenceError

pub data ContributionError : Type 0 where
  empty_source_path incomplete_unit empty_token incomplete_reference empty_binding :
      ContributionError
  incomplete_symbol incomplete_surface incomplete_dependency empty_message : ContributionError
  bad_metadata : MetadataError → ContributionError
  bad_facts : ValidationError → ContributionError
  foreign_unit foreign_reference foreign_symbol foreign_surface : String → ContributionError
  unsupported_kind : ModuleReferenceKind → ContributionError
  bad_evidence : EvidenceError → ContributionError
  unsupported_severity : DiagnosticSeverity → ContributionError
  foreign_dependency : String → ContributionError

unfoldable pub validate_reference_evidence : FactEvidence → Check EvidenceError
validate_reference_evidence evidence =
    refuse_if (is_incomplete evidence) incomplete_evidence
    >> (refuse_if (starts_after_end evidence) invalid_span
        >> refuse_if (has_unsupported_confidence evidence)
            (unsupported_confidence evidence.confidence))

-- `node_ids` are the keys of `nodeIDs`.
unfoldable pub check_unit : List String → CatalogUnit → Check ContributionError
check_unit node_ids unit =
    refuse_if (unit.node_id == "" || unit.name == "" || unit.kind == "" || unit.signature == "")
      incomplete_unit
    >> (refuse_if (not (contains node_ids unit.node_id)) (foreign_unit unit.node_id)
        >> check_all (λ token. refuse_if (token == "") empty_token) unit.identifier_tokens)

unfoldable pub check_reference : List String → UnresolvedReference → Check ContributionError
check_reference node_ids reference =
    refuse_if (reference.source_id == "" || reference.target == "" || reference.kind == "")
      incomplete_reference
    >> (refuse_if (not (contains node_ids reference.source_id))
          (foreign_reference reference.source_id)
        >> (refuse_if
              (not (reference.kind == module_reference_import)
                && not (reference.kind == module_reference_re_export)
                && not (reference.kind == module_reference_require))
              (unsupported_kind reference.kind)
            >> check_all
                (λ (binding : ModuleBinding). refuse_if (binding.imported_name == "") empty_binding)
                reference.bindings))

unfoldable pub check_symbol : List String → SymbolReference → Check ContributionError
unfolding validate_reference_evidence
check_symbol node_ids reference =
    refuse_if (reference.source_id == "" || reference.target == "" || reference.relation == "")
      incomplete_symbol
    >> (refuse_if (not (contains node_ids reference.source_id)) (foreign_symbol reference.source_id)
        >> wrap bad_evidence (validate_reference_evidence reference.evidence))

unfoldable pub check_surface : List String → ExportedSurface → Check ContributionError
check_surface node_ids surface =
    refuse_if (surface.node_id == "" || surface.name == "") incomplete_surface
    >> refuse_if (not (contains node_ids surface.node_id)) (foreign_surface surface.node_id)

unfoldable pub check_dependency : Dependency → Check ContributionError
check_dependency dependency =
    refuse_if (dependency.source_path == "" || dependency.target_path == "") incomplete_dependency

unfoldable pub check_diagnostic : Diagnostic → Check ContributionError
check_diagnostic diagnostic =
    refuse_if (diagnostic.message == "") empty_message
    >> refuse_if
        (not (diagnostic.severity == diagnostic_error)
          && not (diagnostic.severity == diagnostic_warning)
          && not (diagnostic.severity == diagnostic_info))
        (unsupported_severity diagnostic.severity)

abbrev pub local_ids : List Node → List String
local_ids nodes = map (λ node. node.id) nodes

-- All the checks of `NewContribution`, in their order.
unfoldable pub check_contribution :
    Unicode → Vocabulary → ContributionInput → Check ContributionError
unfolding check_unit check_reference check_symbol check_surface check_dependency check_diagnostic
check_contribution unicode vocabulary input =
    let node_ids = local_ids input.facts.nodes in
    refuse_if (input.source_path == "") empty_source_path
    >> (wrap bad_metadata (validate_metadata unicode input.metadata)
        >> (wrap bad_facts (validate vocabulary input.facts)
            >> (check_all (check_unit node_ids) input.catalog_units
                >> (check_all (check_reference node_ids) input.unresolved_references
                    >> (check_all (check_symbol node_ids) input.symbol_references
                        >> (check_all (check_surface node_ids) input.exported_surfaces
                            >> (check_all check_dependency input.dependencies
                                >> check_all check_diagnostic input.diagnostics)))))))

abbrev pub contribution_of : ContributionInput → Contribution
contribution_of input = record {
  project_id = input.project_id;
  source_path = input.source_path;
  metadata = input.metadata;
  facts = input.facts;
  catalog_units = input.catalog_units;
  unresolved_references = input.unresolved_references;
  symbol_references = input.symbol_references;
  exported_surfaces = input.exported_surfaces;
  dependencies = input.dependencies;
  diagnostics = input.diagnostics;
}

unfoldable pub new_contribution :
    Unicode → Vocabulary → ContributionInput → Result ContributionError Contribution
unfolding check_contribution
new_contribution unicode vocabulary input =
    check_contribution unicode vocabulary input >> ok (contribution_of input)

unfoldable pub with_dependencies :
    Contribution → List Dependency → Result ContributionError Contribution
with_dependencies contribution dependencies =
    check_all
      (λ (dependency : Dependency).
        refuse_if
          (not (dependency.source_path == contribution.source_path) || dependency.target_path == "")
          (foreign_dependency contribution.source_path))
      dependencies
    >> ok (record contribution { dependencies = dependencies })
