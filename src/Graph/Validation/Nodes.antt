-- ===== src/Graph/Validation/Nodes.antt =====
-- The loop of `Vocabulary.Validate` over the nodes, graph/facts.go.
use agent_wayfinder.Prelude.{
  String, List, [], ◌∷◌, ◌≡◌, ◌≢◌, ◌↔◌, ◌⊎◌, inl, inr, refl, arith, eq_iff, Has, IsDistinct, All,
  All-fresh, keys, lookup_found_iff, contains_iff, ok,
}
use agent_wayfinder.Graph.{NodeKind, Node}
use agent_wayfinder.Graph.Vocabulary.{Vocabulary}
use agent_wayfinder.Graph.Validation.{KindsById, validate_nodes}
use agent_wayfinder.Graph.Validation.Evidence.{IsEvidence, validate_evidence_iff}

abbrev pub ids_of : List Node → List String
ids_of [] = []
ids_of (n ∷ ns) = n.id ∷ ids_of ns

pub record IsNode (v : Vocabulary) (n : Node) : Type 0 where
  pub identified : n.id ≢ ""
  pub kind : Has n.kind v.node_kinds
  pub evidence : IsEvidence n.evidence

-- Some node has this ID and this kind.
abbrev pub HasNode : String → NodeKind → List Node → Type 0
HasNode i k [] = ⊥
HasNode i k (n ∷ ns) = (n.id ≡ i) × (n.kind ≡ k) ⊎ HasNode i k ns

pub validate_nodes_sound :
    (v : Vocabulary) (seen out : KindsById) (ns : List Node)
    → validate_nodes v seen ns ≡ ok out
    → All (IsNode v) ns × IsDistinct (ids_of ns) × All (λ i. ¬ Has i (keys seen)) (ids_of ns)
unfolding validate_nodes
validate_nodes_sound v seen out [] h = ground arith
validate_nodes_sound v seen out (n ∷ ns) h = ground (
  arith,
  eq_iff n.id "",
  contains_iff v.node_kinds n.kind,
  validate_evidence_iff n.evidence,
  lookup_found_iff n.id seen,
  validate_nodes_sound v ((n.id, n.kind) ∷ seen) out ns,
  All-fresh n.id (keys seen) (ids_of ns),
)

pub validate_nodes_complete :
    (v : Vocabulary) (seen : KindsById) (ns : List Node)
    → All (IsNode v) ns
    → IsDistinct (ids_of ns)
    → All (λ i. ¬ Has i (keys seen)) (ids_of ns)
    → (out : KindsById) × (validate_nodes v seen ns ≡ ok out)
unfolding validate_nodes
validate_nodes_complete v seen [] a d f = (seen, refl)
validate_nodes_complete v seen (n ∷ ns) a d f =
    let (out, e) =
      validate_nodes_complete v ((n.id, n.kind) ∷ seen) ns a.1 d.1
        ((All-fresh n.id (keys seen) (ids_of ns)).1 (f.1, d.0)) in
    (
      out,
      ground (
        arith,
        eq_iff n.id "",
        contains_iff v.node_kinds n.kind,
        validate_evidence_iff n.evidence,
        lookup_found_iff n.id seen,
      ),
    )

pub Has-validate_nodes :
    (v : Vocabulary) (seen out : KindsById) (ns : List Node) (i : String) (k : NodeKind)
    → validate_nodes v seen ns ≡ ok out
    → Has (i, k) out ↔ (Has (i, k) seen ⊎ HasNode i k ns)
unfolding validate_nodes
Has-validate_nodes v seen out [] i k h = ground arith
Has-validate_nodes v seen out (n ∷ ns) i k h = ground (
  arith,
  Has-validate_nodes v ((n.id, n.kind) ∷ seen) out ns i k,
  validate_evidence_iff n.evidence,
)

pub IsDistinct-validate_nodes :
    (v : Vocabulary) (seen out : KindsById) (ns : List Node)
    → validate_nodes v seen ns ≡ ok out
    → IsDistinct (keys seen)
    → IsDistinct (keys out)
unfolding validate_nodes
IsDistinct-validate_nodes v seen out [] h d = ground arith
IsDistinct-validate_nodes v seen out (n ∷ ns) h d = ground (
  arith,
  validate_evidence_iff n.evidence,
  lookup_found_iff n.id seen,
  IsDistinct-validate_nodes v ((n.id, n.kind) ∷ seen) out ns,
)

-- `HasNode` in the words of the facts: there is such a node.
pub HasNode-iff :
    (i : String) (k : NodeKind) (ns : List Node)
    → HasNode i k ns ↔ ((n : Node) × Has n ns × (n.id ≡ i) × (n.kind ≡ k))
HasNode-iff i k [] = (λ h. absurd h, λ (n, h, _, _). h)
HasNode-iff i k (m ∷ ns) = (found (HasNode-iff i k ns).0, back (HasNode-iff i k ns).1)
  where
    found :
        (HasNode i k ns → (n : Node) × Has n ns × (n.id ≡ i) × (n.kind ≡ k))
        → HasNode i k (m ∷ ns)
        → (n : Node) × Has n (m ∷ ns) × (n.id ≡ i) × (n.kind ≡ k)
    found ih (inl (a, b)) = (m, inl refl, a, b)
    found ih (inr h) = let (n, p, a, b) = ih h in (n, inr p, a, b)

    back :
        ((n : Node) × Has n ns × (n.id ≡ i) × (n.kind ≡ k) → HasNode i k ns)
        → (n : Node) × Has n (m ∷ ns) × (n.id ≡ i) × (n.kind ≡ k)
        → HasNode i k (m ∷ ns)
    back ih (n, inl e, a, b) = inl (ground arith)
    back ih (n, inr p, a, b) = inr (ih (n, p, a, b))
