-- ===== src/Graph/Validation/Defects.antt =====
-- The defects that the codes of `Vocabulary.Validate` and `validateEvidence` name, graph/facts.go.
use agent_wayfinder.Prelude.Int.{pos, ◌<ℤ◌}
use agent_wayfinder.Prelude.{
  ◌≢◌, List, ◌≡◌, ◌⊎◌, inl, inr, refl, subst, Bool-cases, none, some, true, arith, eq_iff, Has,
  lookup, err, Result,
}
use agent_wayfinder.Graph.{
  NodeKind, RelationDefinition, confidence_extracted, confidence_inferred, confidence_ambiguous,
  Node, Edge, FactEvidence, ValidationError, ValidationCode, unknown_node_kind,
  unknown_relation_kind, invalid_relation_endpoint, missing_source_node, missing_target_node,
  empty_node_id, missing_fact_evidence, invalid_fact_confidence, invalid_source_span,
}
use agent_wayfinder.Graph.Vocabulary.{Vocabulary}
use agent_wayfinder.Graph.Validation.{
  is_incomplete, starts_after_end, has_unsupported_confidence, validate_evidence,
}
use agent_wayfinder.Graph.Validation.Nodes.{ids_of, HasNode}

-- What each code says of evidence.
abbrev pub EvidenceDefect : ValidationCode → FactEvidence → Type 0
EvidenceDefect missing_fact_evidence e =
    (e.span.path ≡ "")
    ⊎ (e.span.start_line <ℤ pos 1)
    ⊎ (e.span.start_column <ℤ pos 1)
    ⊎ (e.span.end_line <ℤ pos 1)
    ⊎ (e.span.end_column <ℤ pos 1)
    ⊎ (e.file_hash ≡ "")
    ⊎ (e.extractor ≡ "")
    ⊎ (e.provenance ≡ "")
EvidenceDefect invalid_source_span e =
    (e.span.end_line <ℤ e.span.start_line)
    ⊎ (e.span.start_line ≡ e.span.end_line) × (e.span.end_column <ℤ e.span.start_column)
EvidenceDefect invalid_fact_confidence e =
    (e.confidence ≢ confidence_extracted)
    × (e.confidence ≢ confidence_inferred)
    × (e.confidence ≢ confidence_ambiguous)
EvidenceDefect _ e = ⊥

-- What each code says of a node.
abbrev pub NodeDefect : Vocabulary → ValidationCode → Node → Type 0
NodeDefect v empty_node_id n = n.id ≡ ""
NodeDefect v unknown_node_kind n = ¬ Has n.kind v.node_kinds
NodeDefect v code n = EvidenceDefect code n.evidence

-- A relation that is registered, with nodes for its ends whose kinds no endpoint rule pairs.
abbrev pub IsUnpaired : Vocabulary → List Node → Edge → Type 0
IsUnpaired v nodes e =
    (relation : RelationDefinition) × (source : NodeKind) × (target : NodeKind) × (lookup e.relation
        v.relations
      ≡ some relation)
    × HasNode e.source_id source nodes
    × HasNode e.target_id target nodes
    × (¬ Has (record { source = source; target = target }) relation.endpoints)

-- What each code says of an edge.
abbrev pub EdgeDefect : Vocabulary → List Node → ValidationCode → Edge → Type 0
EdgeDefect v nodes unknown_relation_kind e = lookup e.relation v.relations ≡ none
EdgeDefect v nodes missing_source_node e = ¬ Has e.source_id (ids_of nodes)
EdgeDefect v nodes missing_target_node e = ¬ Has e.target_id (ids_of nodes)
EdgeDefect v nodes invalid_relation_endpoint e = IsUnpaired v nodes e
EdgeDefect v nodes code e = EvidenceDefect code e.evidence

abbrev pub IsEvidenceCode : ValidationCode → Type 0
IsEvidenceCode c =
    (c ≡ missing_fact_evidence) ⊎ (c ≡ invalid_source_span) ⊎ (c ≡ invalid_fact_confidence)

missing : (e : FactEvidence) → is_incomplete e ≡ true → EvidenceDefect missing_fact_evidence e
unfolding is_incomplete
missing e h = ground (
  arith,
  eq_iff e.span.path "",
  eq_iff e.file_hash "",
  eq_iff e.extractor "",
  eq_iff e.provenance "",
)

backwards : (e : FactEvidence) → starts_after_end e ≡ true → EvidenceDefect invalid_source_span e
unfolding starts_after_end
backwards e h = ground arith

unsupported :
    (e : FactEvidence)
    → has_unsupported_confidence e ≡ true
    → EvidenceDefect invalid_fact_confidence e
unfolding has_unsupported_confidence
unsupported e h = ground (
  arith,
  eq_iff e.confidence confidence_extracted,
  eq_iff e.confidence confidence_inferred,
  eq_iff e.confidence confidence_ambiguous,
)

abbrev pub failure : ValidationError → Result ValidationError (Unit {0})
failure x = err x

with_code :
    (e : FactEvidence) (y x : ValidationError)
    → IsEvidenceCode y.code
    → EvidenceDefect y.code e
    → failure y ≡ failure x
    → IsEvidenceCode x.code × EvidenceDefect x.code e
with_code e y x c d h =
    let same : y ≡ x = cc h in
    subst (λ (z : ValidationError). IsEvidenceCode z.code × EvidenceDefect z.code e) same (c, d)

pub evidence_error :
    (e : FactEvidence) (x : ValidationError)
    → validate_evidence e ≡ err x
    → IsEvidenceCode x.code × EvidenceDefect x.code e
unfolding validate_evidence
evidence_error e x h = elim (Bool-cases (is_incomplete e)) [
  | inl i ↦ with_code e _ x (inl refl) (missing e i) (rw i at h)
  | inr i ↦ elim (Bool-cases (starts_after_end e)) [
    | inl b ↦ with_code e _ x (inr (inl refl)) (backwards e b) (rw (i, b) at h)
    | inr b ↦ elim (Bool-cases (has_unsupported_confidence e)) [
      | inl u ↦ with_code e _ x (inr (inr refl)) (unsupported e u) (rw (i, b, u) at h)
      | inr u ↦ absurd (cc (rw (i, b, u) at h))
    ]
  ]
]
