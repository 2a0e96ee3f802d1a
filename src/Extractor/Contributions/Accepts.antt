-- ===== src/Extractor/Contributions/Accepts.antt =====
-- What `NewContribution` of extractor/contracts.go accepts, and what `WithDependencies` keeps.
use agent_wayfinder.Prelude.{
  wrap_iff, ap, [], ◌∷◌, String, eq_iff, List, ◌≡◌, ◌≢◌, ◌↔◌, refl, sym, subst, All, arith, Check,
  ok, err, check_all_iff, ◌>>◌, All-map, ◌∙◌,
}
use agent_wayfinder.Graph.{Node}
use agent_wayfinder.Graph.Validation.Nodes.{ids_of}
use agent_wayfinder.Graph.Vocabulary.{Vocabulary}
use agent_wayfinder.Graph.Validation.{validate}
use agent_wayfinder.Graph.Validation.Correct.{IsWellFormed, validate_iff}
use agent_wayfinder.Extractor.{ContributionInput, Contribution, Dependency}
use agent_wayfinder.Extractor.Extensions.{Unicode, validate_metadata}
use agent_wayfinder.Extractor.Extensions.Accepts.{IsMetadata, validate_metadata_iff}
use agent_wayfinder.Extractor.Contributions.{
  local_ids, check_unit, check_reference, check_symbol, check_surface, check_dependency,
  check_diagnostic, check_contribution, contribution_of, new_contribution, with_dependencies,
  bad_metadata, bad_facts,
}
use agent_wayfinder.Extractor.Contributions.Parts.{
  IsUnit, IsReference, IsSymbol, IsSurface, IsDependency, IsDiagnostic, check_unit_iff,
  check_reference_iff, check_symbol_iff, check_surface_iff, check_dependency_iff,
  check_diagnostic_iff,
}

-- What a contribution promises of its parts: they are complete, and name nodes of its own.
pub record IsContribution (unicode : Unicode) (vocabulary : Vocabulary) (c : Contribution)
    : Type 0 where
  pub source_path : c.source_path ≢ ""
  pub metadata : IsMetadata unicode c.metadata
  pub facts : IsWellFormed vocabulary c.facts
  pub units : All (IsUnit (ids_of c.facts.nodes)) c.catalog_units
  pub references : All (IsReference (ids_of c.facts.nodes)) c.unresolved_references
  pub symbols : All (IsSymbol (ids_of c.facts.nodes)) c.symbol_references
  pub surfaces : All (IsSurface (ids_of c.facts.nodes)) c.exported_surfaces
  pub dependencies : All IsDependency c.dependencies
  pub diagnostics : All IsDiagnostic c.diagnostics

local_ids-ids_of : (nodes : List Node) → local_ids nodes ≡ ids_of nodes
local_ids-ids_of [] = refl
local_ids-ids_of (n ∷ nodes) = ap (λ (ids : List String). n.id ∷ ids) (local_ids-ids_of nodes)

check_contribution_iff :
    (unicode : Unicode) (vocabulary : Vocabulary) (input : ContributionInput)
    → (check_contribution unicode vocabulary input ≡ ok tt)
      ↔ IsContribution unicode vocabulary (contribution_of input)
unfolding check_contribution
check_contribution_iff unicode vocabulary input =
    let ids = ids_of input.facts.nodes in
    rw (local_ids-ids_of input.facts.nodes) (
      λ h. ground (
        arith,
        eq_iff input.source_path "",
        wrap_iff bad_metadata (validate_metadata unicode input.metadata),
        validate_metadata_iff unicode input.metadata,
        wrap_iff bad_facts (validate vocabulary input.facts),
        validate_iff vocabulary input.facts,
        check_all_iff (check_unit ids) (IsUnit ids) (check_unit_iff ids) input.catalog_units,
        check_all_iff (check_reference ids) (IsReference ids) (check_reference_iff ids)
            input.unresolved_references,
        check_all_iff (check_symbol ids) (IsSymbol ids) (check_symbol_iff ids)
            input.symbol_references,
        check_all_iff (check_surface ids) (IsSurface ids) (check_surface_iff ids)
            input.exported_surfaces,
        check_all_iff check_dependency IsDependency check_dependency_iff input.dependencies,
        check_all_iff check_diagnostic IsDiagnostic check_diagnostic_iff input.diagnostics,
      ),
      λ c. ground (
        arith,
        eq_iff input.source_path "",
        wrap_iff bad_metadata (validate_metadata unicode input.metadata),
        validate_metadata_iff unicode input.metadata,
        wrap_iff bad_facts (validate vocabulary input.facts),
        validate_iff vocabulary input.facts,
        check_all_iff (check_unit ids) (IsUnit ids) (check_unit_iff ids) input.catalog_units,
        check_all_iff (check_reference ids) (IsReference ids) (check_reference_iff ids)
            input.unresolved_references,
        check_all_iff (check_symbol ids) (IsSymbol ids) (check_symbol_iff ids)
            input.symbol_references,
        check_all_iff (check_surface ids) (IsSurface ids) (check_surface_iff ids)
            input.exported_surfaces,
        check_all_iff check_dependency IsDependency check_dependency_iff input.dependencies,
        check_all_iff check_diagnostic IsDiagnostic check_diagnostic_iff input.diagnostics,
      ),
    )

-- A check and then a value.
then_ok_iff :
    {E A : Type 0} (check : Check E) (value a : A)
    → ((check >> ok value) ≡ ok a) ↔ ((check ≡ ok tt) × (a ≡ value))
then_ok_iff (ok tt) value a = (λ h. (refl, cc h), λ h. cc h.1)
then_ok_iff (err e) value a = (λ h. cc, λ h. cc h.0)

pub new_contribution-contribution_of :
    (unicode : Unicode) (vocabulary : Vocabulary) (input : ContributionInput) (c : Contribution)
    → (new_contribution unicode vocabulary input ≡ ok c)
      ↔ (IsContribution unicode vocabulary (contribution_of input) × (c ≡ contribution_of input))
unfolding new_contribution
new_contribution-contribution_of unicode vocabulary input c =
    let (to, from) = check_contribution_iff unicode vocabulary input in
    let (to', from') =
      then_ok_iff (check_contribution unicode vocabulary input) (contribution_of input) c in
    (λ h. (to (to' h).0, (to' h).1), λ (v, e). from' (from v, e))

-- Each field of the contribution is that of the input.
pub record IsCopy (input : ContributionInput) (c : Contribution) : Type 0 where
  pub project_id : c.project_id ≡ input.project_id
  pub source_path : c.source_path ≡ input.source_path
  pub metadata : c.metadata ≡ input.metadata
  pub facts : c.facts ≡ input.facts
  pub catalog_units : c.catalog_units ≡ input.catalog_units
  pub unresolved_references : c.unresolved_references ≡ input.unresolved_references
  pub symbol_references : c.symbol_references ≡ input.symbol_references
  pub exported_surfaces : c.exported_surfaces ≡ input.exported_surfaces
  pub dependencies : c.dependencies ≡ input.dependencies
  pub diagnostics : c.diagnostics ≡ input.diagnostics

contribution_of-IsCopy : (input : ContributionInput) → IsCopy input (contribution_of input)
contribution_of-IsCopy input = record {
  project_id = refl;
  source_path = refl;
  metadata = refl;
  facts = refl;
  catalog_units = refl;
  unresolved_references = refl;
  symbol_references = refl;
  exported_surfaces = refl;
  dependencies = refl;
  diagnostics = refl;
}

copy-contribution_of :
    (input : ContributionInput) (c : Contribution) → IsCopy input c → c ≡ contribution_of input
copy-contribution_of input c same = λ i. record {
  project_id = same.project_id i;
  source_path = same.source_path i;
  metadata = same.metadata i;
  facts = same.facts i;
  catalog_units = same.catalog_units i;
  unresolved_references = same.unresolved_references i;
  symbol_references = same.symbol_references i;
  exported_surfaces = same.exported_surfaces i;
  dependencies = same.dependencies i;
  diagnostics = same.diagnostics i;
}

-- `NewContribution` returns exactly the contribution with the fields of the input, and this exactly if
-- the input has a source path, valid metadata, and facts that the vocabulary validates; its catalog
-- units, references, symbol references and exported surfaces are complete and about nodes of these facts,
-- the references and the diagnostics of a known kind and severity; and its dependencies have both paths,
-- its diagnostics a message.
pub new_contribution_iff :
    (unicode : Unicode) (vocabulary : Vocabulary) (input : ContributionInput) (c : Contribution)
    → (new_contribution unicode vocabulary input ≡ ok c)
      ↔ (IsContribution unicode vocabulary c × IsCopy input c)
new_contribution_iff unicode vocabulary input c =
    let (to, from) = new_contribution-contribution_of unicode vocabulary input c in
    (
      λ h.
          let (v, e) = to h in
          (
            subst (IsContribution unicode vocabulary) (sym e) v,
            subst (IsCopy input) (sym e) (contribution_of-IsCopy input),
          ),
      λ (v, same).
          let e = copy-contribution_of input c same in
          from (subst (IsContribution unicode vocabulary) e v, e),
    )

abbrev pub IsDependencyOf : String → Dependency → Type 0
IsDependencyOf source dependency = (dependency.source_path ≡ source) × (dependency.target_path ≢ "")

-- `WithDependencies` returns exactly if each dependency has a target and the contribution's own source
-- path for its source, and changes nothing but the dependencies.
pub with_dependencies_iff :
    (c : Contribution) (dependencies : List Dependency) (c' : Contribution)
    → (with_dependencies c dependencies ≡ ok c') ↔ (
        All (IsDependencyOf c.source_path) dependencies
        × (c' ≡ record c { dependencies = dependencies }))
unfolding with_dependencies
with_dependencies_iff c dependencies c' =
    let (to, from) = then_ok_iff _ (record c { dependencies = dependencies }) c' in
    let (to', from') =
      check_all_iff _ (IsDependencyOf c.source_path)
        (λ dependency.
          ground
            (arith, eq_iff dependency.source_path c.source_path, eq_iff dependency.target_path ""))
        dependencies in
    (λ h. (to' (to h).0, (to h).1), λ (v, e). from (from' v, e))

-- `WithDependencies` of a contribution as `NewContribution` builds it gives one again.
pub with_dependencies-IsContribution :
    (unicode : Unicode) (vocabulary : Vocabulary) (c : Contribution)
    (dependencies : List Dependency) (c' : Contribution)
    → IsContribution unicode vocabulary c
    → with_dependencies c dependencies ≡ ok c'
    → IsContribution unicode vocabulary c'
with_dependencies-IsContribution unicode vocabulary c dependencies c' I h =
    let (own, same) = (with_dependencies_iff c dependencies c').0 h in
    subst (IsContribution unicode vocabulary) (sym same) (record {
      source_path = I.source_path;
      metadata = I.metadata;
      facts = I.facts;
      units = I.units;
      references = I.references;
      symbols = I.symbols;
      surfaces = I.surfaces;
      dependencies =
          All-map (IsDependencyOf c.source_path) IsDependency dependencies
            (λ d o. record { source_path = λ e. I.source_path (sym o.0 ∙ e); target_path = o.1 })
            own;
      diagnostics = I.diagnostics;
    })
