-- ===== src/Examples/GraphExamples.antt =====
-- graph/facts.go at a small vocabulary and a small graph.
use agent_wayfinder.Prelude.{String, [], ◌∷◌, ◌≡◌, ◌↔◌, ◌⊎◌, refl, ok, err, Any, IsDistinct, lookup}
use agent_wayfinder.Prelude.Int.{pos}
use agent_wayfinder.Graph.{
  FactEvidence, Node, Edge, Facts, VocabularyDefinition, ValidationError, confidence_extracted,
  text, missing_target_node, duplicate_node_id,
}
use agent_wayfinder.Graph.Vocabulary.{
  Vocabulary, new_vocabulary, register_kinds, register_relations, check_endpoints,
}
use agent_wayfinder.Graph.Vocabulary.Registration.{IsRegistrable}
use agent_wayfinder.Graph.Vocabulary.Accepts.{
  Registers, new_vocabulary-Registers, new_vocabulary_accepts,
}
use agent_wayfinder.Graph.Validation.{
  validate, validate_nodes, validate_edges, validate_edge, validate_evidence, is_incomplete,
  starts_after_end, has_unsupported_confidence, endpoint_allowed,
}
use agent_wayfinder.Graph.Validation.Nodes.{ids_of}
use agent_wayfinder.Graph.Validation.Correct.{IsWellFormed, validate_iff}
use agent_wayfinder.Graph.Validation.Errors.{validate_error}
use agent_wayfinder.Graph.Validation.Defects.{NodeDefect, EdgeDefect}
use agent_wayfinder.Prelude.{contains}

abbrev definition : VocabularyDefinition
definition = record {
  node_kinds = "file" ∷ "go:function" ∷ [];
  relations =
      record {
        kind = "defines";
        endpoints = record { source = "file"; target = "go:function" } ∷ [];
      }
      ∷ [];
}

abbrev pub vocabulary : Vocabulary
vocabulary = record {
  node_kinds = "go:function" ∷ "file" ∷ [];
  relations =
      (
        "defines",
        record {
          kind = "defines";
          endpoints = record { source = "file"; target = "go:function" } ∷ [];
        },
      )
      ∷ [];
}

vocabulary_of_definition : new_vocabulary definition ≡ ok vocabulary
unfolding new_vocabulary register_kinds register_relations check_endpoints contains lookup
vocabulary_of_definition = refl

new_vocabulary-Registers_example : Registers definition vocabulary
new_vocabulary-Registers_example =
    new_vocabulary-Registers definition vocabulary vocabulary_of_definition

new_vocabulary_accepts_example :
    ((v : Vocabulary) × (new_vocabulary definition ≡ ok v)) ↔ IsRegistrable definition
new_vocabulary_accepts_example = new_vocabulary_accepts definition

abbrev pub evidence : FactEvidence
evidence = record {
  span = record {
    path = "main.go";
    start_line = pos 1;
    start_column = pos 1;
    end_line = pos 3;
    end_column = pos 2;
  };
  file_hash = "abc";
  extractor = "go";
  provenance = "parser";
  confidence = confidence_extracted;
}

abbrev file_node : Node
file_node = record {
  id = "f";
  kind = "file";
  label = "main.go";
  qualified_name = "main.go";
  evidence = evidence;
}

abbrev function_node : Node
function_node = record {
  id = "g";
  kind = "go:function";
  label = "main";
  qualified_name = "main.main";
  evidence = evidence;
}

abbrev defines : String → String → Edge
defines s t = record { source_id = s; target_id = t; relation = "defines"; evidence = evidence }

abbrev pub facts : Facts
facts = record { nodes = file_node ∷ function_node ∷ []; edges = defines "f" "g" ∷ [] }

accepted : validate vocabulary facts ≡ ok tt
unfolding validate validate_nodes validate_edges validate_edge validate_evidence is_incomplete
    starts_after_end has_unsupported_confidence endpoint_allowed contains lookup
accepted = refl

validate_iff_example : (validate vocabulary facts ≡ ok tt) ↔ IsWellFormed vocabulary facts
validate_iff_example = validate_iff vocabulary facts

abbrev dangling : Facts
dangling = record { nodes = file_node ∷ function_node ∷ []; edges = defines "f" "h" ∷ [] }

abbrev no_target : ValidationError
no_target = record { code = missing_target_node; detail = text "h" ∷ [] }

rejected : validate vocabulary dangling ≡ err no_target
unfolding validate validate_nodes validate_edges validate_edge validate_evidence is_incomplete
    starts_after_end has_unsupported_confidence endpoint_allowed contains lookup
rejected = refl

validate_error_example :
    Any (NodeDefect vocabulary missing_target_node) dangling.nodes
    ⊎ (missing_target_node ≡ duplicate_node_id) × (¬ IsDistinct (ids_of dangling.nodes))
    ⊎ Any (EdgeDefect vocabulary dangling.nodes missing_target_node) dangling.edges
validate_error_example = validate_error vocabulary dangling no_target rejected
