-- ===== src/Graph/Validation/Correct.antt =====
-- The contract of `Vocabulary.Validate`, graph/facts.go.
use agent_wayfinder.Prelude.{
  String, List, [], ◌∷◌, ◌≡◌, ◌↔◌, true, some, none, refl, arith, eq_iff, Has, IsDistinct, All,
  All-Has, Option, Result, lookup, lookup-Has, lookup_of_Has, ok, ◌>>=◌, >>=-eq-ok,
}
use agent_wayfinder.Graph.{
  NodeKind, Node, Edge, Facts, EndpointRule, ValidationError, RelationDefinition,
}
use agent_wayfinder.Graph.Vocabulary.{Vocabulary}
use agent_wayfinder.Graph.Validation.{
  KindsById, endpoint_allowed, validate_evidence, validate_nodes, validate_edge, validate_edges,
  validate, require,
}
use agent_wayfinder.Graph.Validation.Evidence.{IsEvidence, validate_evidence_iff}
use agent_wayfinder.Graph.Validation.Nodes.{
  ids_of, IsNode, HasNode, HasNode-iff, validate_nodes_sound, validate_nodes_complete,
  Has-validate_nodes, IsDistinct-validate_nodes,
}

-- The edge's relation is registered and has a rule for the kinds of two nodes of the facts, which
-- have the edge's endpoints for their IDs.
pub record IsEdge (v : Vocabulary) (nodes : List Node) (e : Edge) : Type 0 where
  pub relation : RelationDefinition
  pub source : Node
  pub target : Node
  pub registered : lookup e.relation v.relations ≡ some relation
  pub evidence : IsEvidence e.evidence
  pub source_is_node : Has source nodes
  pub source_id : source.id ≡ e.source_id
  pub target_is_node : Has target nodes
  pub target_id : target.id ≡ e.target_id
  pub permitted : Has (record { source = source.kind; target = target.kind }) relation.endpoints

pub record IsWellFormed (v : Vocabulary) (facts : Facts) : Type 0 where
  pub nodes : All (IsNode v) facts.nodes
  pub distinct : IsDistinct (ids_of facts.nodes)
  pub edges : All (IsEdge v facts.nodes) facts.edges

pub endpoint_allowed_iff :
    (rules : List EndpointRule) (s t : NodeKind)
    → (endpoint_allowed rules s t ≡ true) ↔ Has (record { source = s; target = t }) rules
unfolding endpoint_allowed
endpoint_allowed_iff [] s t = ground arith
endpoint_allowed_iff (r ∷ rules) s t =
    ground (arith, eq_iff r.source s, eq_iff r.target t, endpoint_allowed_iff rules s t)

require-eq-ok :
    {A B : Type 0} (o : Option A) (x : ValidationError) (f : A → Result ValidationError B) {b : B}
    → (require o x >>= f) ≡ ok b
    → (a : A) × (o ≡ some a) × (f a ≡ ok b)
require-eq-ok none x f h = cc
require-eq-ok (some a) x f h = (a, refl, h)

module _ (v : Vocabulary) (nodes : List Node) (kinds : KindsById)
    (table : (i : String) (k : NodeKind) → (lookup i kinds ≡ some k) ↔ HasNode i k nodes) where
  validate_edge_sound : (e : Edge) → validate_edge v kinds e ≡ ok tt → IsEdge v nodes e
  unfolding validate_edge
  validate_edge_sound e h =
      let (relation, r, h1) = require-eq-ok (lookup e.relation v.relations) _ _ h in
      let (_, evidence, h2) = >>=-eq-ok (validate_evidence e.evidence) _ h1 in
      let (s, source, h3) = require-eq-ok (lookup e.source_id kinds) _ _ h2 in
      let (t, target, h4) = require-eq-ok (lookup e.target_id kinds) _ _ h3 in
      let (n, n_in, n_id, n_kind) =
        (HasNode-iff e.source_id s nodes).0 ((table e.source_id s).0 source) in
      let (m, m_in, m_id, m_kind) =
        (HasNode-iff e.target_id t nodes).0 ((table e.target_id t).0 target) in
      record {
        relation = relation;
        source = n;
        target = m;
        registered = r;
        evidence = (validate_evidence_iff e.evidence).0 evidence;
        source_is_node = n_in;
        source_id = n_id;
        target_is_node = m_in;
        target_id = m_id;
        permitted =
            rw (n_kind, m_kind) (ground (arith, endpoint_allowed_iff relation.endpoints s t));
      }

  node_at : {i : String} (n : Node) → Has n nodes → n.id ≡ i → lookup i kinds ≡ some n.kind
  node_at {i} n p e = (table i n.kind).1 ((HasNode-iff i n.kind nodes).1 (n, p, e, refl))

  pub validate_edge_complete : (e : Edge) → IsEdge v nodes e → validate_edge v kinds e ≡ ok tt
  unfolding validate_edge
  validate_edge_complete e h =
      let source = node_at h.source h.source_is_node h.source_id in
      let target = node_at h.target h.target_is_node h.target_id in
      let allowed = (endpoint_allowed_iff h.relation.endpoints h.source.kind h.target.kind).1 in
      rw (
        h.registered,
        (validate_evidence_iff e.evidence).1 h.evidence,
        source,
        target,
        allowed h.permitted,
      )

  validate_edges_iff :
      (es : List Edge) → (validate_edges v kinds es ≡ ok tt) ↔ All (IsEdge v nodes) es
  unfolding validate_edges
  validate_edges_iff [] = ground arith
  validate_edges_iff (e ∷ es) =
      ground (arith, validate_edge_sound e, validate_edge_complete e, validate_edges_iff es)

-- The table of kinds that the loop over the nodes leaves.
pub table_of :
    (v : Vocabulary) (nodes : List Node) (kinds : KindsById)
    → validate_nodes v [] nodes ≡ ok kinds
    → (i : String) (k : NodeKind) → (lookup i kinds ≡ some k) ↔ HasNode i k nodes
table_of v nodes kinds h i k = ground (
  arith,
  Has-validate_nodes v [] kinds nodes i k h,
  lookup-Has i k kinds,
  lookup_of_Has i k kinds (IsDistinct-validate_nodes v [] kinds nodes h tt),
)

-- `Validate` accepts facts exactly if every node has an ID, a registered kind and valid evidence,
-- the IDs are distinct, and every edge has valid evidence and a registered relation with a rule
-- for the kinds of the two nodes that it names.
pub validate_iff :
    (v : Vocabulary) (facts : Facts) → (validate v facts ≡ ok tt) ↔ IsWellFormed v facts
unfolding validate
validate_iff v facts = (
  λ h.
      let (kinds, n, e) = >>=-eq-ok (validate_nodes v [] facts.nodes) _ h in
      let nodes = validate_nodes_sound v [] kinds facts.nodes n in
      let table = table_of v facts.nodes kinds n in
      record {
        nodes = nodes.0;
        distinct = nodes.1;
        edges = (validate_edges_iff v facts.nodes kinds table facts.edges).0 e;
      },
  λ w.
      let (kinds, n) =
        validate_nodes_complete v [] facts.nodes w.nodes w.distinct (All-Has _ _ (λ a m h. h)) in
      let table = table_of v facts.nodes kinds n in
      rw n ((validate_edges_iff v facts.nodes kinds table facts.edges).1 w.edges),
)
