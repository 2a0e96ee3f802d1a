-- ===== src/Indexing/Merge/Refines.antt =====
-- `mergeSources` of index/index.go refines a map from paths to sources.
use agent_wayfinder.Prelude.{
  String, ◌==◌, eq_iff, List, [], ◌∷◌, true, if◌then◌else◌, Option, none, some, is_found, lookup,
  lookup_found_iff, keys, contains, contains_iff, All, All-Has, ok, >>=-eq-ok, ok_same, ◌≡◌, inl,
  inr, refl, sym, ◌∙◌, ap, arith, Option-cases, Bool-cases, subst, if_true, if_false,
}
use agent_wayfinder.Prelude.Order.{sort_texts, Has-sort_texts, sort_texts-IsAscending, IsAscending}
use agent_wayfinder.Indexing.{ExtractedSource}
use agent_wayfinder.Indexing.Merge.{
  SourceContribution, Sources, Workspace, merge_stored, merge_updated, values_of, sorted_values,
  merge_sources,
}
use agent_wayfinder.Indexing.Merge.Tables.{
  or_else, stored_at, updated_at, expected, IsTable, merge_updated-IsTable, lookup-merge_updated,
  lookup-merge_updated_deleted,
}
use agent_wayfinder.Indexing.Merge.Stored.{merge_stored-IsTable, lookup-merge_stored}

-- The source of a path in a list.
abbrev pub find_source : String → List ExtractedSource → Option ExtractedSource
find_source path [] = none
find_source path (source ∷ sources) =
    if source.contribution.source_path == path then some source else find_source path sources

abbrev pub source_paths : List ExtractedSource → List String
source_paths [] = []
source_paths (source ∷ sources) = source.contribution.source_path ∷ source_paths sources

-- A list that stands for a map: it holds the map's sources, once each, in the order of their paths.
pub record StandsFor (sources : List ExtractedSource) (abstract : String → Option ExtractedSource)
    : Type 0 where
  pub finds : (path : String) → find_source path sources ≡ abstract path
  pub ascending : IsAscending (source_paths sources)

module _ (workspace : Workspace) where
  find-values_of :
      (path : String) (merged : Sources) (paths : List String)
      → IsTable workspace merged
      → find_source path (values_of workspace merged paths)
        ≡ (if contains paths path then lookup path merged else none)
  unfolding values_of contains
  find-values_of path merged [] h = refl
  find-values_of path merged (p ∷ paths) h = elim (Option-cases (lookup p merged)) [
    | inl e ↦ rw e (find-values_of path merged paths h ∙ ground (arith, eq_iff p path))
    | inr (source, e) ↦ rw e (
        ground (
          arith,
          eq_iff p path,
          eq_iff source.contribution.source_path path,
          h.keyed p source e,
          find-values_of path merged paths h,
        ))
  ]

  paths-values_of :
      (merged : Sources) (paths : List String)
      → IsTable workspace merged
      → All (λ (p : String). is_found (lookup p merged) ≡ true) paths
      → source_paths (values_of workspace merged paths) ≡ paths
  unfolding values_of
  paths-values_of merged [] h found = refl
  paths-values_of merged (p ∷ paths) h found = elim (Option-cases (lookup p merged)) [
    | inl e ↦ absurd (cc (ap (λ (o : Option ExtractedSource). is_found o) e, found.0))
    | inr (source, e) ↦ rw e (λ i. h.keyed p source e i ∷ paths-values_of merged paths h found.1 i)
  ]

  sorted_values-StandsFor :
      (merged : Sources)
      → IsTable workspace merged
      → StandsFor (sorted_values workspace merged) (λ path. lookup path merged)
  sorted_values-StandsFor merged h =
      let paths = sort_texts (keys merged) in
      record {
        finds = λ path.
            find-values_of path merged paths h
            ∙ ground (
              arith,
              contains_iff paths path,
              Has-sort_texts path (keys merged),
              lookup_found_iff path merged,
            );
        ascending =
            subst IsAscending
              (sym (
                paths-values_of merged paths h (
                  All-Has (λ (p : String). is_found (lookup p merged) ≡ true) paths
                    (λ p m. (lookup_found_iff p merged).1 ((Has-sort_texts p (keys merged)).0 m)))))
              (sort_texts-IsAscending (keys merged) h.distinct);
      }

  empty-IsTable : IsTable workspace []
  unfolding lookup
  empty-IsTable = record { keyed = λ path source e. cc; distinct = tt }

  lookup-merged :
      (path : String) (merged : Sources) (stored : List SourceContribution)
      (updated : List ExtractedSource)
      → merge_stored workspace [] stored ≡ ok merged
      → lookup path (merge_updated workspace merged updated)
        ≡ expected workspace stored updated path
  unfolding lookup
  lookup-merged path merged stored updated e =
      let before = lookup-merge_stored workspace path [] merged stored e in
      elim (Bool-cases (contains workspace.deleted path)) [
        | inl gone ↦
            lookup-merge_updated_deleted workspace path merged updated gone
              (before ∙ if_true (contains workspace.deleted path) _ _ gone)
            ∙ sym (if_true (contains workspace.deleted path) _ _ gone)
        | inr live ↦
            lookup-merge_updated workspace path merged updated live
            ∙ ap (or_else workspace (updated_at workspace path updated)) (
                before
                ∙ if_false (contains workspace.deleted path) _ _ live
                ∙ or_else_none (stored_at workspace path stored))
            ∙ sym (if_false (contains workspace.deleted path) _ _ live)
      ]
    where
      or_else_none : (o : Option ExtractedSource) → or_else workspace o none ≡ o
      or_else_none none = refl
      or_else_none (some s) = refl

  -- A list that `mergeSources` returns stands for the map in which a path has nothing, if it is deleted;
  -- or else the last source of it that was extracted anew; or else the last stored source of it,
  -- restored, if the workspace still has its file.
  pub merge_sources-StandsFor :
      (stored : List SourceContribution) (updated result : List ExtractedSource)
      → merge_sources workspace stored updated ≡ ok result
      → StandsFor result (expected workspace stored updated)
  unfolding merge_sources lookup
  merge_sources-StandsFor stored updated result e =
      let (merged, first, last) = >>=-eq-ok (merge_stored workspace [] stored) _ e in
      let table = merge_updated workspace merged updated in
      let done =
        merge_updated-IsTable workspace merged updated
          (merge_stored-IsTable workspace [] merged stored first empty-IsTable) in
      let stands = sorted_values-StandsFor table done in
      subst (λ sources. StandsFor sources (expected workspace stored updated))
        (ok_same (sorted_values workspace table) result last)
        (record {
          finds = λ path. stands.finds path ∙ lookup-merged path merged stored updated first;
          ascending = stands.ascending;
        })
