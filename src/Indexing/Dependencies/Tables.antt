-- ===== src/Indexing/Dependencies/Tables.antt =====
-- What the tables of `withResolvedDependencies` in index/index.go hold.
use agent_wayfinder.Prelude.{
  String, ◌==◌, eq_iff, List, [], ◌∷◌, ◌++◌, not, ◌&&◌, if◌then◌else◌, Option, none, some, lookup,
  insert, lookup-insert, contains, contains_iff, Has, Has-append, IsDistinct, IsDistinct-append,
  Any, All, ◌≡◌, ◌≢◌, ◌↔◌, ◌⊎◌, inl, inr, sym, arith, if_elim, subst,
}
use agent_wayfinder.Graph.{Node, Edge, Facts}
use agent_wayfinder.Extractor.{Contribution}
use agent_wayfinder.Indexing.Dependencies.{
  PathsById, TargetsByPath, add_file_nodes, add_contributions, add_facts, paths_by_file_id,
  targets_of, add_target, add_edge_between, index_targets,
}

-- No path is empty.
abbrev pub HasPaths : PathsById → Type 0
HasPaths table = (id path : String) → lookup id table ≡ some path → path ≢ ""

HasPaths-insert :
    (id path : String) (table : PathsById)
    → path ≢ ""
    → HasPaths table
    → HasPaths (insert id path table)
HasPaths-insert id path table filled h other q found =
    ground (arith, lookup-insert id other path table, eq_iff id other, h other q)

add_file_nodes-HasPaths :
    (path : String) (table : PathsById) (nodes : List Node)
    → path ≢ ""
    → HasPaths table
    → HasPaths (add_file_nodes path table nodes)
unfolding add_file_nodes
add_file_nodes-HasPaths path table [] filled h = h
add_file_nodes-HasPaths path table (node ∷ nodes) filled h =
    add_file_nodes-HasPaths path (if node.kind == "file" then insert node.id path table else table)
      nodes filled
      (if_elim HasPaths (node.kind == "file") (λ _. HasPaths-insert node.id path table filled h)
        (λ _. h))

add_contributions-HasPaths :
    (table : PathsById) (contributions : List Contribution)
    → All (λ (c : Contribution). c.source_path ≢ "") contributions
    → HasPaths table
    → HasPaths (add_contributions table contributions)
unfolding add_contributions
add_contributions-HasPaths table [] filled h = h
add_contributions-HasPaths table (c ∷ contributions) filled h =
    add_contributions-HasPaths (add_file_nodes c.source_path table c.facts.nodes) contributions
      filled.1 (add_file_nodes-HasPaths c.source_path table c.facts.nodes filled.0 h)

add_facts-HasPaths :
    (table : PathsById) (nodes : List Node) → HasPaths table → HasPaths (add_facts table nodes)
unfolding add_facts
add_facts-HasPaths table [] h = h
add_facts-HasPaths table (node ∷ nodes) h =
    let path = node.evidence.span.path in
    add_facts-HasPaths
      (if node.kind == "file" && not (path == "") then insert node.id path table else table) nodes
      (if_elim HasPaths (node.kind == "file" && not (path == ""))
        (λ t. HasPaths-insert node.id path table (ground (arith, eq_iff path "")) h) (λ _. h))

pub paths_by_file_id-HasPaths :
    (contributions : List Contribution) (facts : Facts)
    → All (λ (c : Contribution). c.source_path ≢ "") contributions
    → HasPaths (paths_by_file_id contributions facts)
unfolding paths_by_file_id lookup
paths_by_file_id-HasPaths contributions facts filled =
    add_facts-HasPaths (add_contributions [] contributions) facts.nodes
      (add_contributions-HasPaths [] contributions filled (λ id path h. cc))

-- An edge from the file with the one path to the file with the other.
abbrev pub IsFileEdge : PathsById → String → String → Edge → Type 0
IsFileEdge paths source target edge =
    (lookup edge.source_id paths ≡ some source)
    × (lookup edge.target_id paths ≡ some target)
    × (source ≢ target)

targets_of-add_target :
    (source target p t : String) (table : TargetsByPath)
    → Has t (targets_of (add_target source target table) p)
      ↔ (Has t (targets_of table p) ⊎ (source ≡ p) × (t ≡ target))
unfolding targets_of add_target
targets_of-add_target source target p t table =
    let targets = targets_of table source in
    let next = if contains targets target then targets else targets ++ target ∷ [] in
    ground (
      arith,
      eq_iff source p,
      lookup-insert source p next table,
      contains_iff targets target,
      Has-append t targets (target ∷ []),
    )

targets_of-add_edge_between :
    (s d : Option String) (p t : String) (table : TargetsByPath)
    → Has t (targets_of (add_edge_between s d table) p)
      ↔ (Has t (targets_of table p) ⊎ (s ≡ some p) × (d ≡ some t) × (p ≢ t))
targets_of-add_edge_between none d p t table = ground arith
targets_of-add_edge_between (some source) none p t table = ground arith
targets_of-add_edge_between (some source) (some target) p t table =
    ground (arith, eq_iff source target, targets_of-add_target source target p t table)

-- The targets of a path: those of the edges from its file to another file.
pub targets_of-index_targets :
    (paths : PathsById) (table : TargetsByPath) (edges : List Edge) (p t : String)
    → Has t (targets_of (index_targets paths table edges) p)
      ↔ (Has t (targets_of table p) ⊎ Any (IsFileEdge paths p t) edges)
unfolding index_targets
targets_of-index_targets paths table [] p t = ground arith
targets_of-index_targets paths table (edge ∷ edges) p t =
    let s = lookup edge.source_id paths in
    let d = lookup edge.target_id paths in
    ground (
      arith,
      targets_of-add_edge_between s d p t table,
      targets_of-index_targets paths (add_edge_between s d table) edges p t,
    )

abbrev pub AreDistinct : TargetsByPath → Type 0
AreDistinct table = (p : String) → IsDistinct (targets_of table p)

targets_of-replaced :
    (source p : String) (next : List String) (table : TargetsByPath)
    → targets_of (insert source next table) p ≡ (if source == p then next else targets_of table p)
unfolding targets_of
targets_of-replaced source p next table = ground (arith, lookup-insert source p next table)

add_target-AreDistinct :
    (source target : String) (table : TargetsByPath)
    → AreDistinct table
    → AreDistinct (add_target source target table)
unfolding add_target
add_target-AreDistinct source target table h p =
    let targets = targets_of table source in
    let next = if contains targets target then targets else targets ++ target ∷ [] in
    let distinct : IsDistinct next =
      if_elim IsDistinct (contains targets target) (λ _. h source)
        (λ fresh.
          IsDistinct-append targets (target ∷ []) (h source) ((λ m. m), tt)
            (λ x m k. elim k [
              | inl e ↦ absurd (ground (arith, contains_iff targets target, m, e, fresh))
              | inr nothing ↦ absurd nothing
            ])) in
    subst IsDistinct (sym (targets_of-replaced source p next table))
      (if_elim IsDistinct (source == p) (λ _. distinct) (λ _. h p))

pub index_targets-AreDistinct :
    (paths : PathsById) (table : TargetsByPath) (edges : List Edge)
    → AreDistinct table
    → AreDistinct (index_targets paths table edges)
unfolding index_targets
index_targets-AreDistinct paths table [] h = h
index_targets-AreDistinct paths table (edge ∷ edges) h =
    let s = lookup edge.source_id paths in
    let d = lookup edge.target_id paths in
    index_targets-AreDistinct paths (add_edge_between s d table) edges (between s d)
  where
    between : (s d : Option String) → AreDistinct (add_edge_between s d table)
    between none d = h
    between (some source) none = h
    between (some source) (some target) =
        if_elim AreDistinct (source == target) (λ _. h)
          (λ _. add_target-AreDistinct source target table h)
