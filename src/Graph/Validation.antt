-- ===== src/Graph/Validation.antt =====
-- graph/facts.go: `Vocabulary.Validate` and `validateEvidence`.
pub mod Evidence
pub mod Nodes
pub mod Correct
pub mod Defects
pub mod Errors
use agent_wayfinder.Prelude.{
  String, List, [], ◌∷◌, Bool, ◌==◌, ◌&&◌, ◌||◌, not, if◌then◌else◌, contains, lookup, is_found,
  Option, none, some, Result, ok, err, ◌>>=◌, ◌>>◌,
}
use agent_wayfinder.Prelude.Int.{ltb_ℤ, eq_ℤ, pos}
use agent_wayfinder.Graph.{
  NodeKind, FactEvidence, Node, Edge, Facts, EndpointRule, RelationDefinition, ValidationError,
  text, number, confidence_extracted, confidence_inferred, confidence_ambiguous, unknown_node_kind,
  unknown_relation_kind, invalid_relation_endpoint, missing_source_node, missing_target_node,
  duplicate_node_id, empty_node_id, missing_fact_evidence, invalid_fact_confidence,
  invalid_source_span,
}
use agent_wayfinder.Graph.Vocabulary.{Vocabulary}

unfoldable pub is_incomplete : FactEvidence → Bool
is_incomplete e =
    e.span.path == ""
    || ltb_ℤ e.span.start_line (pos 1)
    || ltb_ℤ e.span.start_column (pos 1)
    || ltb_ℤ e.span.end_line (pos 1)
    || ltb_ℤ e.span.end_column (pos 1)
    || e.file_hash == ""
    || e.extractor == ""
    || e.provenance == ""

unfoldable pub starts_after_end : FactEvidence → Bool
starts_after_end e =
    ltb_ℤ e.span.end_line e.span.start_line
    || eq_ℤ e.span.start_line e.span.end_line && ltb_ℤ e.span.end_column e.span.start_column

unfoldable pub has_unsupported_confidence : FactEvidence → Bool
has_unsupported_confidence e =
    not (e.confidence == confidence_extracted)
    && not (e.confidence == confidence_inferred)
    && not (e.confidence == confidence_ambiguous)

unfoldable pub validate_evidence : FactEvidence → Result ValidationError (Unit {0})
validate_evidence e =
    if is_incomplete e
    then err (record { code = missing_fact_evidence; detail = [] })
    else if starts_after_end e
    then err (record { code = invalid_source_span; detail = [] })
    else if has_unsupported_confidence e
    then err (record { code = invalid_fact_confidence; detail = text e.confidence ∷ [] })
    else ok tt

abbrev pub KindsById : Type 0
KindsById = List (String × NodeKind)

-- The loop over `facts.Nodes`, which fills `nodeKindsByID`.
unfoldable pub validate_nodes :
    Vocabulary → KindsById → List Node → Result ValidationError KindsById
validate_nodes v seen [] = ok seen
validate_nodes v seen (node ∷ nodes) =
    if node.id == ""
    then err (record { code = empty_node_id; detail = [] })
    else if not (contains v.node_kinds node.kind)
    then err (record { code = unknown_node_kind; detail = text node.id ∷ text node.kind ∷ [] })
    else validate_evidence node.evidence
      >> (if is_found (lookup node.id seen)
          then err (record { code = duplicate_node_id; detail = text node.id ∷ [] })
          else validate_nodes v ((node.id, node.kind) ∷ seen) nodes)

-- The search of `relation.Endpoints` for the pair of kinds.
unfoldable pub endpoint_allowed : List EndpointRule → NodeKind → NodeKind → Bool
endpoint_allowed [] source target = Bool.false
endpoint_allowed (endpoint ∷ endpoints) source target =
    (endpoint.source == source && endpoint.target == target)
    || endpoint_allowed endpoints source target

-- `value, ok := m[k]; if !ok { return err }`
abbrev pub require {ℓ} : {A : Type ℓ} → Option A → ValidationError → Result ValidationError A
require none e = err e
require (some a) e = ok a

-- The body of the loop over `facts.Edges`.
unfoldable pub validate_edge : Vocabulary → KindsById → Edge → Result ValidationError (Unit {0})
validate_edge v kinds edge = do
  relation ← require (lookup edge.relation v.relations) (record {
    code = unknown_relation_kind;
    detail = text edge.source_id ∷ text edge.target_id ∷ text edge.relation ∷ [];
  })
  validate_evidence edge.evidence
  source_kind ←
      require (lookup edge.source_id kinds)
        (record { code = missing_source_node; detail = text edge.source_id ∷ [] })
  target_kind ←
      require (lookup edge.target_id kinds)
        (record { code = missing_target_node; detail = text edge.target_id ∷ [] })
  if endpoint_allowed relation.endpoints source_kind target_kind
      then ok tt
      else err (record {
        code = invalid_relation_endpoint;
        detail =
            text edge.relation
            ∷ text source_kind
            ∷ text target_kind
            ∷ text edge.evidence.span.path
            ∷ number edge.evidence.span.start_line
            ∷ number edge.evidence.span.start_column
            ∷ [];
      })

unfoldable pub validate_edges :
    Vocabulary → KindsById → List Edge → Result ValidationError (Unit {0})
validate_edges v kinds [] = ok tt
validate_edges v kinds (edge ∷ edges) = validate_edge v kinds edge >> validate_edges v kinds edges

unfoldable pub validate : Vocabulary → Facts → Result ValidationError (Unit {0})
validate v facts = do kinds ← validate_nodes v [] facts.nodes; validate_edges v kinds facts.edges
