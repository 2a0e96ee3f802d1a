-- ===== src/Graph.antt =====
-- graph/facts.go: nodes, edges, evidence, and the errors of their validation. Go's string types
-- (`NodeKind`, `RelationKind`, `Confidence`) hold any text, and so do these.
pub mod Vocabulary
pub mod Validation
use agent_wayfinder.Prelude.{String, List}
use agent_wayfinder.Prelude.Int.{ℤ}

abbrev pub NodeKind : Type 0
NodeKind = String

abbrev pub RelationKind : Type 0
RelationKind = String

abbrev pub Confidence : Type 0
Confidence = String

pub record SourceSpan : Type 0 where
  pub path : String
  pub start_line : ℤ
  pub start_column : ℤ
  pub end_line : ℤ
  pub end_column : ℤ

abbrev pub confidence_extracted : Confidence
confidence_extracted = "extracted"

abbrev pub confidence_inferred : Confidence
confidence_inferred = "inferred"

abbrev pub confidence_ambiguous : Confidence
confidence_ambiguous = "ambiguous"

pub record FactEvidence : Type 0 where
  pub span : SourceSpan
  pub file_hash : String
  pub extractor : String
  pub provenance : String
  pub confidence : Confidence

pub record Node : Type 0 where
  pub id : String
  pub kind : NodeKind
  pub label : String
  pub qualified_name : String
  pub evidence : FactEvidence

pub record Edge : Type 0 where
  pub source_id : String
  pub target_id : String
  pub relation : RelationKind
  pub evidence : FactEvidence

pub record Facts : Type 0 where
  pub nodes : List Node
  pub edges : List Edge

pub record EndpointRule : Type 0 where
  pub source : NodeKind
  pub target : NodeKind

pub record RelationDefinition : Type 0 where
  pub kind : RelationKind
  pub endpoints : List EndpointRule

pub record VocabularyDefinition : Type 0 where
  pub node_kinds : List NodeKind
  pub relations : List RelationDefinition

pub data ValidationCode : Type 0 where
  unknown_node_kind unknown_relation_kind invalid_relation_endpoint : ValidationCode
  missing_source_node missing_target_node duplicate_node_id empty_node_id : ValidationCode
  empty_node_kind duplicate_node_kind empty_relation_kind duplicate_relation_kind : ValidationCode
  empty_relation_endpoints missing_fact_evidence invalid_fact_confidence : ValidationCode
  invalid_source_span : ValidationCode

-- A value that a message formats: a text by `%q` or `%s`, a number by `%d`.
pub data Argument : Type 0 where
  text : String → Argument
  number : ℤ → Argument

-- `detail` holds the values that the source formats into its message, in their order.
pub record ValidationError : Type 0 where
  pub code : ValidationCode
  pub detail : List Argument
