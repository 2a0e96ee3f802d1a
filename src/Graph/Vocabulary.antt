-- ===== src/Graph/Vocabulary.antt =====
-- graph/facts.go: `NewVocabulary` registers node kinds and relations.
pub mod Registration
pub mod Accepts
use agent_wayfinder.Prelude.{
  String, List, [], ◌∷◌, ◌==◌, not, if◌then◌else◌, contains, lookup, is_found, is_empty, Result, ok,
  err, ◌>>=◌, ◌>>◌,
}
use agent_wayfinder.Graph.{
  NodeKind, RelationKind, EndpointRule, RelationDefinition, VocabularyDefinition, ValidationError,
  text, unknown_node_kind, empty_node_kind, duplicate_node_kind, empty_relation_kind,
  duplicate_relation_kind, empty_relation_endpoints,
}

-- The two Go maps: a set of kinds, and the relations by their kind.
pub record Vocabulary : Type 0 where
  pub node_kinds : List NodeKind
  pub relations : List (RelationKind × RelationDefinition)

-- The loop over `def.NodeKinds`.
unfoldable pub register_kinds :
    List NodeKind → List NodeKind → Result ValidationError (List NodeKind)
register_kinds seen [] = ok seen
register_kinds seen (kind ∷ kinds) =
    if kind == ""
    then err (record { code = empty_node_kind; detail = [] })
    else if contains seen kind
    then err (record { code = duplicate_node_kind; detail = text kind ∷ [] })
    else register_kinds (kind ∷ seen) kinds

-- The inner loop over `relation.Endpoints`.
unfoldable pub check_endpoints :
    List NodeKind → RelationKind → List EndpointRule → Result ValidationError (Unit {0})
check_endpoints kinds relation [] = ok tt
check_endpoints kinds relation (endpoint ∷ endpoints) =
    if not (contains kinds endpoint.source)
    then err
        (record { code = unknown_node_kind; detail = text relation ∷ text endpoint.source ∷ [] })
    else if not (contains kinds endpoint.target)
    then err
        (record { code = unknown_node_kind; detail = text relation ∷ text endpoint.target ∷ [] })
    else check_endpoints kinds relation endpoints

-- The loop over `def.Relations`.
unfoldable pub register_relations :
    List NodeKind
    → List (RelationKind × RelationDefinition)
    → List RelationDefinition
    → Result ValidationError (List (RelationKind × RelationDefinition))
register_relations kinds seen [] = ok seen
register_relations kinds seen (relation ∷ relations) =
    if relation.kind == ""
    then err (record { code = empty_relation_kind; detail = [] })
    else if is_found (lookup relation.kind seen)
    then err (record { code = duplicate_relation_kind; detail = text relation.kind ∷ [] })
    else if is_empty relation.endpoints
    then err (record { code = empty_relation_endpoints; detail = text relation.kind ∷ [] })
    else check_endpoints kinds relation.kind relation.endpoints
      >> register_relations kinds ((relation.kind, relation) ∷ seen) relations

unfoldable pub new_vocabulary : VocabularyDefinition → Result ValidationError Vocabulary
new_vocabulary def = do
  kinds ← register_kinds [] def.node_kinds
  relations ← register_relations kinds [] def.relations
  ok (record { node_kinds = kinds; relations = relations })
