-- ===== src/Indexing/Dependencies.antt =====
-- index/index.go: `withResolvedDependencies`, which reads the dependencies of each source off the edges
-- between files.
pub mod Tables
pub mod Files
pub mod Exact
use agent_wayfinder.Prelude.{
  String, ◌==◌, List, [], ◌∷◌, ◌++◌, Bool, not, ◌&&◌, ◌||◌, if◌then◌else◌, Option, none, some,
  lookup, insert, contains, map, Result, ok, err, ◌>>=◌,
}
use agent_wayfinder.Prelude.Order.{sort_texts}
use agent_wayfinder.Graph.{Node, Edge, Facts}
use agent_wayfinder.Extractor.{Contribution, Dependency}
use agent_wayfinder.Extractor.Contributions.{ContributionError, with_dependencies}

abbrev pub PathsById : Type 0
PathsById = List (String × String)

abbrev pub TargetsByPath : Type 0
TargetsByPath = List (String × List String)

-- The loops that fill `pathsByFileID`.
unfoldable pub add_file_nodes : String → PathsById → List Node → PathsById
add_file_nodes path table [] = table
add_file_nodes path table (node ∷ nodes) =
    add_file_nodes path (if node.kind == "file" then insert node.id path table else table) nodes

unfoldable pub add_contributions : PathsById → List Contribution → PathsById
unfolding add_file_nodes
add_contributions table [] = table
add_contributions table (contribution ∷ rest) =
    add_contributions (add_file_nodes contribution.source_path table contribution.facts.nodes) rest

unfoldable pub add_facts : PathsById → List Node → PathsById
add_facts table [] = table
add_facts table (node ∷ nodes) =
    let path = node.evidence.span.path in
    add_facts (if node.kind == "file" && not (path == "") then insert node.id path table else table)
      nodes

unfoldable pub paths_by_file_id : List Contribution → Facts → PathsById
unfolding add_contributions add_facts
paths_by_file_id contributions facts = add_facts (add_contributions [] contributions) facts.nodes

-- A set read from a Go map: the empty one for a key that is missing.
unfoldable pub targets_of : TargetsByPath → String → List String
targets_of table path = elim (lookup path table) [ none ↦ [] | some targets ↦ targets ]

unfoldable pub add_target : String → String → TargetsByPath → TargetsByPath
unfolding targets_of
add_target source target table =
    let targets = targets_of table source in
    insert source (if contains targets target then targets else targets ++ target ∷ []) table

abbrev pub add_edge_between : Option String → Option String → TargetsByPath → TargetsByPath
add_edge_between none target table = table
add_edge_between (some source) none table = table
add_edge_between (some source) (some target) table =
    if source == target then table else add_target source target table

-- The loop that fills `targetsBySourcePath`.
unfoldable pub index_targets : PathsById → TargetsByPath → List Edge → TargetsByPath
unfolding add_target
index_targets paths table [] = table
index_targets paths table (edge ∷ edges) =
    index_targets paths
      (add_edge_between (lookup edge.source_id paths) (lookup edge.target_id paths) table) edges

abbrev pub dependency_to : String → String → Dependency
dependency_to path target = record { source_path = path; target_path = target }

-- The loop over the contributions. The targets are sorted before the dependencies are made of them,
-- which all have the same source.
unfoldable pub resolve_dependencies :
    TargetsByPath → List Contribution → Result ContributionError (List Contribution)
unfolding targets_of sort_texts with_dependencies
resolve_dependencies table [] = ok []
resolve_dependencies table (contribution ∷ contributions) = do
  let path = contribution.source_path
  updated ←
      with_dependencies contribution (map (dependency_to path) (sort_texts (targets_of table path)))
  rest ← resolve_dependencies table contributions
  ok (updated ∷ rest)

unfoldable pub with_resolved_dependencies :
    List Contribution → Facts → Result ContributionError (List Contribution)
unfolding paths_by_file_id index_targets resolve_dependencies
with_resolved_dependencies contributions facts =
    resolve_dependencies (index_targets (paths_by_file_id contributions facts) [] facts.edges)
      contributions
