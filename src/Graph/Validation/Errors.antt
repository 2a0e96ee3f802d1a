-- ===== src/Graph/Validation/Errors.antt =====
-- What an error of `Vocabulary.Validate`, graph/facts.go, tells of the facts.
use agent_wayfinder.Prelude.{
  String, List, [], ◌∷◌, ◌≡◌, ◌⊎◌, ◌↔◌, inl, inr, Option-cases, subst, Bool-cases, none, arith,
  eq_iff, Has, Any, IsDistinct, All, All-Has, keys, lookup, lookup_found_iff, contains_iff, ok, err,
  All-fresh, Result-cases,
}
use agent_wayfinder.Graph.{Node, Edge, Facts, ValidationError, ValidationCode, duplicate_node_id}
use agent_wayfinder.Graph.Vocabulary.{Vocabulary}
use agent_wayfinder.Graph.Validation.{
  KindsById, endpoint_allowed, validate_evidence, validate_nodes, validate_edge, validate_edges,
  validate,
}
use agent_wayfinder.Graph.Validation.Evidence.{validate_evidence_iff}
use agent_wayfinder.Graph.Validation.Nodes.{ids_of}
use agent_wayfinder.Graph.Validation.Correct.{endpoint_allowed_iff, table_of}
use agent_wayfinder.Graph.Validation.Defects.{
  EvidenceDefect, NodeDefect, EdgeDefect, IsEvidenceCode, failure, evidence_error,
}

validate_nodes_error :
    (v : Vocabulary) (seen : KindsById) (ns : List Node) (x : ValidationError)
    → validate_nodes v seen ns ≡ err x
    → Any (NodeDefect v x.code) ns
      ⊎ (x.code ≡ duplicate_node_id)
        × (¬ (IsDistinct (ids_of ns) × All (λ i. ¬ Has i (keys seen)) (ids_of ns)))
unfolding validate_nodes
validate_nodes_error v seen [] x h = cc
validate_nodes_error v seen (n ∷ ns) x h = ground (
  arith,
  eq_iff n.id "",
  contains_iff v.node_kinds n.kind,
  evidence_error n.evidence x,
  lookup_found_iff n.id seen,
  validate_nodes_error v ((n.id, n.kind) ∷ seen) ns x,
  All-fresh n.id (keys seen) (ids_of ns),
)

Has-keys-validate_nodes :
    (v : Vocabulary) (seen out : KindsById) (ns : List Node) (i : String)
    → validate_nodes v seen ns ≡ ok out
    → Has i (keys out) ↔ (Has i (keys seen) ⊎ Has i (ids_of ns))
unfolding validate_nodes
Has-keys-validate_nodes v seen out [] i h = ground arith
Has-keys-validate_nodes v seen out (n ∷ ns) i h = ground (
  arith,
  Has-keys-validate_nodes v ((n.id, n.kind) ∷ seen) out ns i,
  validate_evidence_iff n.evidence,
)

module _ (v : Vocabulary) (nodes : List Node) (kinds : KindsById)
    (loop : validate_nodes v [] nodes ≡ ok kinds) where
  named :
      (e : Edge) (y x : ValidationError)
      → EdgeDefect v nodes y.code e
      → failure y ≡ failure x
      → EdgeDefect v nodes x.code e
  named e y x d h =
      let same : y ≡ x = cc h in subst (λ (z : ValidationError). EdgeDefect v nodes z.code e) same d

  evidence_defect :
      (e : Edge) (c : ValidationCode)
      → IsEvidenceCode c
      → EvidenceDefect c e.evidence
      → EdgeDefect v nodes c e
  evidence_defect e c k d = ground arith

  unmatched : (i : String) → lookup i kinds ≡ none → ¬ Has i (ids_of nodes)
  unmatched i h =
      ground (arith, lookup_found_iff i kinds, Has-keys-validate_nodes v [] kinds nodes i)

  validate_edge_error :
      (e : Edge) (x : ValidationError)
      → validate_edge v kinds e ≡ err x
      → EdgeDefect v nodes x.code e
  unfolding validate_edge
  validate_edge_error e x h = elim (Option-cases (lookup e.relation v.relations)) [
    | inl r ↦ named e _ x r (rw r at h)
    | inr (relation, r) ↦ elim (Result-cases (validate_evidence e.evidence)) [
      | inr (y, w) ↦
          let (k, d) = evidence_error e.evidence y w in
          named e y x (evidence_defect e y.code k d) (rw (r, w) at h)
      | inl (u, w) ↦ elim (Option-cases (lookup e.source_id kinds)) [
        | inl s ↦ named e _ x (unmatched e.source_id s) (rw (r, w, s) at h)
        | inr (source, s) ↦ elim (Option-cases (lookup e.target_id kinds)) [
          | inl t ↦ named e _ x (unmatched e.target_id t) (rw (r, w, s, t) at h)
          | inr (target, t) ↦
              elim (Bool-cases (endpoint_allowed relation.endpoints source target)) [
                | inl p ↦ absurd (cc (rw (r, w, s, t, p) at h))
                | inr p ↦
                    named e _ x
                      (
                        relation,
                        source,
                        target,
                        r,
                        (table_of v nodes kinds loop e.source_id source).0 s,
                        (table_of v nodes kinds loop e.target_id target).0 t,
                        λ m. cc (p, (endpoint_allowed_iff relation.endpoints source target).1 m),
                      )
                      (rw (r, w, s, t, p) at h)
              ]
        ]
      ]
    ]
  ]

  validate_edges_error :
      (es : List Edge) (x : ValidationError)
      → validate_edges v kinds es ≡ err x
      → Any (EdgeDefect v nodes x.code) es
  unfolding validate_edges
  validate_edges_error [] x h = cc
  validate_edges_error (e ∷ es) x h =
      ground (arith, validate_edge_error e x, validate_edges_error es x)

-- An error of `Validate` is about the facts: some node or some edge has the defect that its code
-- names, or the code is `duplicate_node_id` and the IDs are not distinct.
pub validate_error :
    (v : Vocabulary) (facts : Facts) (x : ValidationError)
    → validate v facts ≡ err x
    → Any (NodeDefect v x.code) facts.nodes
      ⊎ (x.code ≡ duplicate_node_id) × (¬ IsDistinct (ids_of facts.nodes))
      ⊎ Any (EdgeDefect v facts.nodes x.code) facts.edges
unfolding validate
validate_error v facts x h = elim (Result-cases (validate_nodes v [] facts.nodes)) [
  | inl (kinds, n) ↦
      inr (inr (validate_edges_error v facts.nodes kinds n facts.edges x (rw n at h)))
  | inr (y, n) ↦ ground (
    arith,
    validate_nodes_error v [] facts.nodes y n,
    All-Has (λ i. ¬ Has i []) (ids_of facts.nodes) (λ a m k. k),
  )
]
