-- ===== src/Graph/Vocabulary/Registration.antt =====
-- What `NewVocabulary` of graph/facts.go accepts, and what the accepted vocabulary holds.
use agent_wayfinder.Prelude.{
  List, [], ◌∷◌, ◌≡◌, ◌≢◌, ◌↔◌, ◌⊎◌, refl, arith, eq_iff, Has, IsDistinct, All, All-fresh, keys,
  lookup_found_iff, contains_iff, ok,
}
use agent_wayfinder.Graph.{
  NodeKind, RelationKind, EndpointRule, RelationDefinition, VocabularyDefinition,
}
use agent_wayfinder.Graph.Vocabulary.{register_kinds, check_endpoints, register_relations}

abbrev pub kinds_of : List RelationDefinition → List RelationKind
kinds_of [] = []
kinds_of (r ∷ rs) = r.kind ∷ kinds_of rs

-- A relation has a name and rules, and its rules go between the given kinds.
pub record IsRelation (kinds : List NodeKind) (r : RelationDefinition) : Type 0 where
  pub named : r.kind ≢ ""
  pub ruled : r.endpoints ≢ []
  pub closed : All (λ e. Has e.source kinds × Has e.target kinds) r.endpoints

pub record IsRegistrable (def : VocabularyDefinition) : Type 0 where
  pub kinds_named : All (λ k. k ≢ "") def.node_kinds
  pub kinds_distinct : IsDistinct def.node_kinds
  pub relations_valid : All (IsRelation def.node_kinds) def.relations
  pub relations_distinct : IsDistinct (kinds_of def.relations)

pub register_kinds_sound :
    (seen ks out : List NodeKind)
    → register_kinds seen ks ≡ ok out
    → All (λ k. k ≢ "") ks × IsDistinct ks × All (λ k. ¬ Has k seen) ks
unfolding register_kinds
register_kinds_sound seen [] out h = ground arith
register_kinds_sound seen (k ∷ ks) out h = ground (
  arith,
  eq_iff k "",
  contains_iff seen k,
  register_kinds_sound (k ∷ seen) ks out,
  All-fresh k seen ks,
)

pub Has-register_kinds :
    (seen ks out : List NodeKind) (k : NodeKind)
    → register_kinds seen ks ≡ ok out
    → Has k out ↔ (Has k seen ⊎ Has k ks)
unfolding register_kinds
Has-register_kinds seen [] out k h = ground arith
Has-register_kinds seen (x ∷ ks) out k h = ground (arith, Has-register_kinds (x ∷ seen) ks out k)

pub register_kinds_complete :
    (seen ks : List NodeKind)
    → All (λ k. k ≢ "") ks
    → IsDistinct ks
    → All (λ k. ¬ Has k seen) ks
    → (out : List NodeKind) × (register_kinds seen ks ≡ ok out)
unfolding register_kinds
register_kinds_complete seen [] n d f = (seen, refl)
register_kinds_complete seen (k ∷ ks) n d f =
    let (out, e) =
      register_kinds_complete (k ∷ seen) ks n.1 d.1 ((All-fresh k seen ks).1 (f.1, d.0)) in
    (out, ground (arith, eq_iff k "", contains_iff seen k))

module _ (kinds names : List NodeKind) (same : (k : NodeKind) → Has k kinds ↔ Has k names) where
  check_endpoints_iff :
      (relation : RelationKind) (es : List EndpointRule)
      → (check_endpoints kinds relation es ≡ ok tt)
        ↔ All (λ e. Has e.source names × Has e.target names) es
  unfolding check_endpoints
  check_endpoints_iff relation [] = ground arith
  check_endpoints_iff relation (e ∷ es) = ground (
    arith,
    same e.source,
    same e.target,
    contains_iff kinds e.source,
    contains_iff kinds e.target,
    check_endpoints_iff relation es,
  )

  pub register_relations_sound :
      (seen : List (RelationKind × RelationDefinition)) (rs : List RelationDefinition)
      (out : List (RelationKind × RelationDefinition))
      → register_relations kinds seen rs ≡ ok out
      → All (IsRelation names) rs
        × IsDistinct (kinds_of rs)
        × All (λ k. ¬ Has k (keys seen)) (kinds_of rs)
  unfolding register_relations
  register_relations_sound seen [] out h = ground arith
  register_relations_sound seen (r ∷ rs) out h = ground (
    arith,
    eq_iff r.kind "",
    lookup_found_iff r.kind seen,
    check_endpoints_iff r.kind r.endpoints,
    register_relations_sound ((r.kind, r) ∷ seen) rs out,
    All-fresh r.kind (keys seen) (kinds_of rs),
  )

  pub register_relations_complete :
      (seen : List (RelationKind × RelationDefinition)) (rs : List RelationDefinition)
      → All (IsRelation names) rs
      → IsDistinct (kinds_of rs)
      → All (λ k. ¬ Has k (keys seen)) (kinds_of rs)
      → (out : List (RelationKind × RelationDefinition)) × (register_relations kinds seen rs
          ≡ ok out)
  unfolding register_relations
  register_relations_complete seen [] v d f = (seen, refl)
  register_relations_complete seen (r ∷ rs) v d f =
      let (out, e) =
        register_relations_complete ((r.kind, r) ∷ seen) rs v.1 d.1
          ((All-fresh r.kind (keys seen) (kinds_of rs)).1 (f.1, d.0)) in
      (
        out,
        ground (
          arith,
          eq_iff r.kind "",
          lookup_found_iff r.kind seen,
          check_endpoints_iff r.kind r.endpoints,
        ),
      )

-- The relations that are registered are the ones given, each under its own kind.
pub Has-register_relations :
    (kinds : List NodeKind) (seen out : List (RelationKind × RelationDefinition))
    (rs : List RelationDefinition) (k : RelationKind) (r : RelationDefinition)
    → register_relations kinds seen rs ≡ ok out
    → Has (k, r) out ↔ (Has (k, r) seen ⊎ (r.kind ≡ k) × Has r rs)
unfolding register_relations
Has-register_relations kinds seen out [] k r h = ground arith
Has-register_relations kinds seen out (x ∷ rs) k r h =
    ground (arith, Has-register_relations kinds ((x.kind, x) ∷ seen) out rs k r)

pub IsDistinct-register_relations :
    (kinds : List NodeKind) (seen out : List (RelationKind × RelationDefinition))
    (rs : List RelationDefinition)
    → register_relations kinds seen rs ≡ ok out
    → IsDistinct (keys seen)
    → IsDistinct (keys out)
unfolding register_relations
IsDistinct-register_relations kinds seen out [] h d = ground arith
IsDistinct-register_relations kinds seen out (x ∷ rs) h d = ground (
  arith,
  lookup_found_iff x.kind seen,
  IsDistinct-register_relations kinds ((x.kind, x) ∷ seen) out rs,
)
