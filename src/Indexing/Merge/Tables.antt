-- ===== src/Indexing/Merge/Tables.antt =====
-- The map `merged` of `mergeSources` in index/index.go, against the map from paths to sources that it stands
-- for.
use agent_wayfinder.Prelude.{
  String, ◌==◌, eq_iff, List, [], ◌∷◌, true, false, if◌then◌else◌, Option, none, some, lookup,
  lookup-insert, lookup-delete, insert, delete, keys, contains, IsDistinct, insert-IsDistinct,
  delete-IsDistinct, Result, ok, err, ◌≡◌, refl, ◌∙◌, arith, if_elim,
}
use agent_wayfinder.Indexing.{Source, ExtractedSource, IndexError}
use agent_wayfinder.Indexing.Merge.{SourceContribution, Sources, Workspace, restore, merge_updated}

module _ (workspace : Workspace) where
  abbrev pub restored_ok : Result IndexError ExtractedSource → Option ExtractedSource
  restored_ok (ok source) = some source
  restored_ok (err e) = none

  -- The stored source, where the workspace has a file of its path.
  abbrev pub kept : SourceContribution → Option Source → Option ExtractedSource
  kept source none = none
  kept source (some workspace_source) = restored_ok (restore workspace source workspace_source)

  -- The last stored source of a path, restored.
  abbrev pub stored_at : String → List SourceContribution → Option ExtractedSource
  stored_at path [] = none
  stored_at path (source ∷ sources) = elim (stored_at path sources) [
    | none ↦
        if source.source_path == path
        then kept source (lookup source.source_path workspace.sources_by_path)
        else none
    | some later ↦ some later
  ]

  -- The last source of a path that was extracted anew.
  abbrev pub updated_at : String → List ExtractedSource → Option ExtractedSource
  updated_at path [] = none
  updated_at path (source ∷ sources) = elim (updated_at path sources) [
    | none ↦ if source.contribution.source_path == path then some source else none
    | some later ↦ some later
  ]

  abbrev pub or_else : Option ExtractedSource → Option ExtractedSource → Option ExtractedSource
  or_else none other = other
  or_else (some source) other = some source

  -- What `mergeSources` promises for a path: nothing if the path is deleted; or else the source that was
  -- extracted anew; or else the stored source, if the workspace still has its file.
  abbrev pub expected :
      List SourceContribution → List ExtractedSource → String → Option ExtractedSource
  expected stored updated path =
      if contains workspace.deleted path
      then none
      else or_else (updated_at path updated) (stored_at path stored)

  -- Every source stands under its own path.
  pub record IsTable (merged : Sources) : Type 0 where
    pub keyed :
        (path : String) (source : ExtractedSource)
        → lookup path merged ≡ some source
        → source.contribution.source_path ≡ path
    pub distinct : IsDistinct (keys merged)

  pub insert-IsTable :
      (path : String) (source : ExtractedSource) (merged : Sources)
      → source.contribution.source_path ≡ path
      → IsTable merged
      → IsTable (insert path source merged)
  insert-IsTable path source merged e h = record {
    keyed =
        λ p s found. ground (arith, lookup-insert path p source merged, eq_iff path p, h.keyed p s);
    distinct = insert-IsDistinct path source merged h.distinct;
  }

  delete-IsTable :
      (path : String) (merged : Sources) → IsTable merged → IsTable (delete path merged)
  delete-IsTable path merged h = record {
    keyed = λ p s found. ground (arith, lookup-delete path p merged, h.keyed p s);
    distinct = delete-IsDistinct path merged h.distinct;
  }

  pub merge_updated-IsTable :
      (merged : Sources) (updated : List ExtractedSource)
      → IsTable merged
      → IsTable (merge_updated workspace merged updated)
  unfolding merge_updated
  merge_updated-IsTable merged [] h = h
  merge_updated-IsTable merged (source ∷ sources) h =
      let path = source.contribution.source_path in
      let next =
        if contains workspace.deleted path then delete path merged else insert path source merged in
      merge_updated-IsTable next sources (
        if_elim IsTable (contains workspace.deleted path) (λ _. delete-IsTable path merged h)
          (λ _. insert-IsTable path source merged refl h))

  pub lookup-merge_updated :
      (path : String) (merged : Sources) (updated : List ExtractedSource)
      → contains workspace.deleted path ≡ false
      → lookup path (merge_updated workspace merged updated)
        ≡ or_else (updated_at path updated) (lookup path merged)
  unfolding merge_updated
  lookup-merge_updated path merged [] live = refl
  lookup-merge_updated path merged (source ∷ sources) live =
      let p = source.contribution.source_path in
      let next = if contains workspace.deleted p then delete p merged else insert p source merged in
      lookup-merge_updated path next sources live
      ∙ ground
          (arith, eq_iff p path, lookup-delete p path merged, lookup-insert p path source merged)

  pub lookup-merge_updated_deleted :
      (path : String) (merged : Sources) (updated : List ExtractedSource)
      → contains workspace.deleted path ≡ true
      → lookup path merged ≡ none
      → lookup path (merge_updated workspace merged updated) ≡ none
  unfolding merge_updated
  lookup-merge_updated_deleted path merged [] gone h = h
  lookup-merge_updated_deleted path merged (source ∷ sources) gone h =
      let p = source.contribution.source_path in
      let next = if contains workspace.deleted p then delete p merged else insert p source merged in
      lookup-merge_updated_deleted path next sources gone (
        ground
          (arith, eq_iff p path, lookup-delete p path merged, lookup-insert p path source merged))
