-- ===== src/Indexing/Dependencies/Exact.antt =====
-- What `withResolvedDependencies` of index/index.go returns.
use agent_wayfinder.Prelude.{
  String, ◌==◌, eq_iff, List, [], ◌∷◌, not, ◌||◌, lookup, map, Has, Any, All, ok, ◌≡◌, ◌≢◌, ◌↔◌,
  inl, inr, refl, sym, ap, arith, eq_refl, subst, refuse_if, check_all,
}
use agent_wayfinder.Prelude.Order.{sort_texts, Has-sort_texts, sort_texts-IsAscending, IsAscending}
use agent_wayfinder.Graph.{Edge, Facts}
use agent_wayfinder.Extractor.{Contribution, Dependency}
use agent_wayfinder.Extractor.Contributions.{foreign_dependency, with_dependencies}
use agent_wayfinder.Indexing.Dependencies.{
  PathsById, TargetsByPath, paths_by_file_id, targets_of, index_targets, dependency_to,
  resolve_dependencies, with_resolved_dependencies,
}
use agent_wayfinder.Indexing.Dependencies.Files.{IsBetween, IsFileEdge-IsBetween}
use agent_wayfinder.Indexing.Dependencies.Tables.{
  HasPaths, paths_by_file_id-HasPaths, IsFileEdge, targets_of-index_targets, AreDistinct,
  index_targets-AreDistinct,
}

abbrev pub target_paths : List Dependency → List String
target_paths [] = []
target_paths (d ∷ ds) = d.target_path ∷ target_paths ds

-- A contribution with the dependencies that the edges show, in the order of their targets.
pub record IsResolved (contributions : List Contribution) (facts : Facts) (c u : Contribution)
    : Type 0 where
  pub same : u ≡ record c { dependencies = u.dependencies }
  pub ascending : IsAscending (target_paths u.dependencies)
  pub exact :
      (d : Dependency)
      → Has d u.dependencies ↔ (
          (d.source_path ≡ c.source_path)
          × Any (IsBetween contributions facts c.source_path d.target_path) facts.edges)

module _ (contributions : List Contribution) (facts : Facts) where
  abbrev pub AreResolved : List Contribution → List Contribution → Type 0
  AreResolved [] [] = Unit
  AreResolved [] (u ∷ us) = ⊥
  AreResolved (c ∷ cs) [] = ⊥
  AreResolved (c ∷ cs) (u ∷ us) = IsResolved contributions facts c u × AreResolved cs us

target_paths-map :
    (path : String) (targets : List String)
    → target_paths (map (dependency_to path) targets) ≡ targets
target_paths-map path [] = refl
target_paths-map path (t ∷ targets) =
    ap (λ (ts : List String). t ∷ ts) (target_paths-map path targets)

Has-dependencies :
    (path : String) (d : Dependency) (targets : List String)
    → Has d (map (dependency_to path) targets)
      ↔ ((d.source_path ≡ path) × Has d.target_path targets)
Has-dependencies path d [] = ground arith
Has-dependencies path d (t ∷ targets) = ground (arith, Has-dependencies path d targets)

check_dependencies :
    (path : String) (targets : List String)
    → ((t : String) → Has t targets → t ≢ "")
    → check_all
        (λ (d : Dependency).
          refuse_if (not (d.source_path == path) || d.target_path == "") (foreign_dependency path))
        (map (dependency_to path) targets)
      ≡ ok tt
check_dependencies path [] h = refl
check_dependencies path (t ∷ targets) h =
    let filled = h t (inl refl) in
    let rest = check_dependencies path targets (λ s m. h s (inr m)) in
    ground (arith, eq_iff t "", eq_refl path)

Any-target :
    (paths : PathsById) (p t : String) (edges : List Edge)
    → HasPaths paths
    → Any (IsFileEdge paths p t) edges
    → t ≢ ""
Any-target paths p t [] h m = absurd m
Any-target paths p t (edge ∷ edges) h (inl e) = h edge.target_id t e.1
Any-target paths p t (edge ∷ edges) h (inr m) = Any-target paths p t edges h m

nothing : (p t : String) → ¬ Has t (targets_of [] p)
unfolding targets_of lookup
nothing p t h = h

nothing_twice : AreDistinct []
unfolding targets_of lookup
nothing_twice p = tt

module _ (contributions : List Contribution) (facts : Facts) (table : TargetsByPath)
    (targets : (p t : String)
      → Has t (targets_of table p) ↔ Any (IsBetween contributions facts p t) facts.edges)
    (distinct : AreDistinct table)
    (filled : (p t : String) → Has t (targets_of table p) → t ≢ "") where
  resolve_dependencies-AreResolved :
      (cs : List Contribution)
      → (updated : List Contribution) × (resolve_dependencies table cs ≡ ok updated)
        × AreResolved contributions facts cs updated
  unfolding resolve_dependencies with_dependencies
  resolve_dependencies-AreResolved [] = ([], refl, tt)
  resolve_dependencies-AreResolved (c ∷ cs) =
      let (updated, e, resolved) = resolve_dependencies-AreResolved cs in
      let path = c.source_path in
      let found = sort_texts (targets_of table path) in
      let u : Contribution = record c { dependencies = map (dependency_to path) found } in
      let accepted =
        check_dependencies path found
          (λ t m. filled path t ((Has-sort_texts t (targets_of table path)).0 m)) in
      (
        u ∷ updated,
        rw (accepted, e) refl,
        (
          record {
            same = refl;
            ascending =
                subst IsAscending (sym (target_paths-map path found))
                  (sort_texts-IsAscending (targets_of table path) (distinct path));
            exact = λ d. ground (
              arith,
              Has-dependencies path d found,
              Has-sort_texts d.target_path (targets_of table path),
              targets path d.target_path,
            );
          },
          resolved,
        ),
      )

-- Where every contribution has a source path, `withResolvedDependencies` returns. It changes nothing
-- but the dependencies, which become one for each other file to which an edge of the facts leads from
-- a file of the contribution's path, in the order of their targets.
pub with_resolved_dependencies-AreResolved :
    (contributions : List Contribution) (facts : Facts)
    → All (λ (c : Contribution). c.source_path ≢ "") contributions
    → (updated : List Contribution) × (with_resolved_dependencies contributions facts ≡ ok updated)
      × AreResolved contributions facts contributions updated
unfolding with_resolved_dependencies
with_resolved_dependencies-AreResolved contributions facts filled =
    let paths = paths_by_file_id contributions facts in
    let table = index_targets paths [] facts.edges in
    let indexed : (p t : String)
        → Has t (targets_of table p) ↔ Any (IsFileEdge paths p t) facts.edges =
      λ p t. ground (arith, targets_of-index_targets paths [] facts.edges p t, nothing p t) in
    resolve_dependencies-AreResolved contributions facts table
      (λ p t.
        let (to, from) = IsFileEdge-IsBetween contributions facts p t facts.edges in
        (λ m. to ((indexed p t).0 m), λ h. (indexed p t).1 (from h)))
      (index_targets-AreDistinct paths [] facts.edges nothing_twice)
      (λ p t m.
        Any-target paths p t facts.edges (paths_by_file_id-HasPaths contributions facts filled)
          ((indexed p t).0 m))
      contributions
