-- ===== src/Graph/Vocabulary/Accepts.antt =====
-- The contract of `NewVocabulary` of graph/facts.go: which definitions it accepts, and what the
-- vocabulary answers.
use agent_wayfinder.Prelude.{
  List, [], ◌≡◌, ◌↔◌, ◌⊎◌, inl, inr, some, arith, Has, All, All-Has, lookup, lookup-Has,
  lookup_of_Has, ok, >>=-eq-ok,
}
use agent_wayfinder.Graph.{NodeKind, RelationKind, RelationDefinition, VocabularyDefinition}
use agent_wayfinder.Graph.Vocabulary.{
  Vocabulary, register_kinds, register_relations, new_vocabulary,
}
use agent_wayfinder.Graph.Vocabulary.Registration.{
  IsRegistrable, register_kinds_sound, Has-register_kinds, register_kinds_complete,
  register_relations_sound, register_relations_complete, Has-register_relations,
  IsDistinct-register_relations,
}

-- The two loops of a successful call.
loops :
    (def : VocabularyDefinition) (v : Vocabulary)
    → new_vocabulary def ≡ ok v
    → (register_kinds [] def.node_kinds ≡ ok v.node_kinds)
      × (register_relations v.node_kinds [] def.relations ≡ ok v.relations)
unfolding new_vocabulary
loops def v h =
    let (kinds, k, rest) = >>=-eq-ok (register_kinds [] def.node_kinds) _ h in
    let (relations, r, e) = >>=-eq-ok (register_relations kinds [] def.relations) _ rest in
    ground arith

only_right : {A B : Type 0} → A ↔ (⊥ ⊎ B) → A ↔ B
only_right e = (λ a. elim (e.0 a) [ inl n ↦ absurd n | inr b ↦ b ], λ b. e.1 (inr b))

None-seen : {A : Type 0} (xs : List A) → All (λ k. ¬ Has k []) xs
None-seen xs = All-Has (λ k. ¬ Has k []) xs (λ a m h. h)

-- The vocabulary knows the kinds and the relations of the definition, and no others.
pub record Registers (def : VocabularyDefinition) (v : Vocabulary) : Type 0 where
  pub kinds : (k : NodeKind) → Has k v.node_kinds ↔ Has k def.node_kinds
  pub relations :
      (k : RelationKind) (r : RelationDefinition)
      → (lookup k v.relations ≡ some r) ↔ ((r.kind ≡ k) × Has r def.relations)

-- A vocabulary that `NewVocabulary` returns has exactly the node kinds of its definition, and
-- finds under a relation kind exactly the definition's relation of that kind.
pub new_vocabulary-Registers :
    (def : VocabularyDefinition) (v : Vocabulary) → new_vocabulary def ≡ ok v → Registers def v
new_vocabulary-Registers def v h =
    let (k, r) = loops def v h in
    record {
      kinds = λ x. only_right (Has-register_kinds [] def.node_kinds v.node_kinds x k);
      relations = λ x d.
          let found = Has-register_relations v.node_kinds [] v.relations def.relations x d r in
          let distinct =
            IsDistinct-register_relations v.node_kinds [] v.relations def.relations r tt in
          ground (arith, found, lookup-Has x d v.relations, lookup_of_Has x d v.relations distinct);
    }

-- `NewVocabulary` returns a vocabulary exactly if the kinds are named and distinct, and the
-- relations are named, distinct, have a rule, and have rules between registered kinds only.
pub new_vocabulary_accepts :
    (def : VocabularyDefinition)
    → ((v : Vocabulary) × (new_vocabulary def ≡ ok v)) ↔ IsRegistrable def
new_vocabulary_accepts def = (sound, complete)
  where
    sound : (v : Vocabulary) × (new_vocabulary def ≡ ok v) → IsRegistrable def
    sound (v, h) =
        let (k, r) = loops def v h in
        let kinds = register_kinds_sound [] def.node_kinds v.node_kinds k in
        let relations =
          register_relations_sound v.node_kinds def.node_kinds
            (new_vocabulary-Registers def v h).kinds [] def.relations v.relations r in
        record {
          kinds_named = kinds.0;
          kinds_distinct = kinds.1;
          relations_valid = relations.0;
          relations_distinct = relations.1;
        }

    complete : IsRegistrable def → (v : Vocabulary) × (new_vocabulary def ≡ ok v)
    complete v =
        let (kinds, k) =
          register_kinds_complete [] def.node_kinds v.kinds_named v.kinds_distinct (None-seen _) in
        let same = λ (x : NodeKind). only_right (Has-register_kinds [] def.node_kinds kinds x k) in
        let (relations, r) =
          register_relations_complete kinds def.node_kinds same [] def.relations v.relations_valid
            v.relations_distinct (None-seen _) in
        (record { node_kinds = kinds; relations = relations }, unfold new_vocabulary in rw (k, r))
