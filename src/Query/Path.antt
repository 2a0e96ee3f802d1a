-- ===== src/Query/Path.antt =====
-- query/path.go: `shortestPath`, the breadth-first search for a path between two nodes of a set of
-- facts, along the edges or, if `undirected`, in both directions.
pub mod Walk
pub mod Index
pub mod Layers
pub mod Discover
pub mod Fuel
pub mod Loop
pub mod Back
pub mod Shortest
use Prim.Native.String
use agent_wayfinder.Prelude.{
  ℕ, zero, suc, String, ◌==◌, List, [], ◌∷◌, ◌++◌, Bool, true, false, ◌&&◌, ◌||◌, not,
  if◌then◌else◌, Option, none, some, lookup, insert, contains, is_found, is_empty, length,
}
use agent_wayfinder.Prelude.Int.{pos}
use agent_wayfinder.Graph.{Node, Edge, Facts, FactEvidence}
use mathlib.Core.List.{reverse}

abbrev pub NodesById : Type 0
NodesById = List (String × Node)

abbrev pub EdgesBySource : Type 0
EdgesBySource = List (String × List Edge)

-- `nodes`: a later node replaces an earlier one of the same ID.
unfoldable pub index_nodes : NodesById → List Node → NodesById
index_nodes table [] = table
index_nodes table (node ∷ nodes) = index_nodes (insert node.id node table) nodes

-- A list read from a Go map: the empty one for a key that is missing.
unfoldable pub edges_of : EdgesBySource → String → List Edge
edges_of table id = elim (lookup id table) [ none ↦ [] | some edges ↦ edges ]

unfoldable pub add_edge : String → Edge → EdgesBySource → EdgesBySource
unfolding edges_of
add_edge id edge table = insert id (edges_of table id ++ edge ∷ []) table

unfoldable pub index_edges : Bool → EdgesBySource → List Edge → EdgesBySource
unfolding add_edge
index_edges undirected table [] = table
index_edges undirected table (edge ∷ edges) =
    let once = add_edge edge.source_id edge table in
    index_edges undirected (if undirected then add_edge edge.target_id edge once else once) edges

unfoldable pub path_edge_key : Edge → String
path_edge_key edge =
    String.◌++◌ edge.source_id
      (String.◌++◌ "\0" (String.◌++◌ edge.target_id (String.◌++◌ "\0" edge.relation)))

unfoldable pub key_less : Edge → Edge → Bool
unfolding path_edge_key
key_less a b = elim (String.compare (path_edge_key a) (path_edge_key b)) [
  | Prim.Native.Nat.Ordering.lt ↦ true
  | _ ↦ false
]

-- `sort.Slice` by `pathEdgeKey`. It says nothing about edges with the same key; here the order that
-- they have is kept.
unfoldable pub insert_edge : Edge → List Edge → List Edge
unfolding key_less
insert_edge edge [] = edge ∷ []
insert_edge edge (other ∷ others) =
    let rest = insert_edge edge others in
    if key_less other edge then other ∷ rest else edge ∷ other ∷ others

unfoldable pub sort_edges : List Edge → List Edge
unfolding insert_edge
sort_edges [] = []
sort_edges (edge ∷ edges) = insert_edge edge (sort_edges edges)

unfoldable pub sort_all : EdgesBySource → EdgesBySource
unfolding sort_edges
sort_all [] = []
sort_all ((id, edges) ∷ table) = (id, sort_edges edges) ∷ sort_all table

pub record Predecessor : Type 0 where
  pub node_id : String
  pub edge : Edge

-- The variables of the loop.
pub record Search : Type 0 where
  pub frontier : List String
  pub seen : List String
  pub predecessors : List (String × Predecessor)

unfoldable pub neighbor_of : Bool → String → Edge → String
neighbor_of undirected id edge =
    if undirected && edge.target_id == id then edge.source_id else edge.target_id

-- The body of the loop over the edges of a node.
unfoldable pub discover : Bool → NodesById → String → Edge → Search → Search
unfolding neighbor_of
discover undirected nodes id edge s =
    let neighbor = neighbor_of undirected id edge in
    if not (is_found (lookup neighbor nodes)) || contains s.seen neighbor then s else record {
      frontier = s.frontier ++ neighbor ∷ [];
      seen = neighbor ∷ s.seen;
      predecessors = insert neighbor (record { node_id = id; edge = edge }) s.predecessors;
    }

unfoldable pub discover_all : Bool → NodesById → String → List Edge → Search → Search
unfolding discover
discover_all undirected nodes id [] s = s
discover_all undirected nodes id (edge ∷ edges) s =
    discover_all undirected nodes id edges (discover undirected nodes id edge s)

-- The loop over the frontier; `none` where the fuel does not reach.
unfoldable pub search : ℕ → Bool → NodesById → EdgesBySource → String → Search → Option Search
unfolding discover_all
search zero undirected nodes edges target s = if is_empty s.frontier then some s else none
search (suc fuel) undirected nodes edges target s = elim s.frontier [
  | [] ↦ some s
  | id ∷ ids ↦
      let popped = record s { frontier = ids } in
      elim (id == target) [
        | true ↦ some popped
        | false ↦
            search fuel undirected nodes edges target
              (discover_all undirected nodes id (edges_of edges id) popped)
      ]
]

-- The zero values that Go reads for a key that a map does not have.
abbrev pub zero_evidence : FactEvidence
zero_evidence = record {
  span = record {
    path = "";
    start_line = pos 0;
    start_column = pos 0;
    end_line = pos 0;
    end_column = pos 0;
  };
  file_hash = "";
  extractor = "";
  provenance = "";
  confidence = "";
}

abbrev pub zero_node : Node
zero_node = record { id = ""; kind = ""; label = ""; qualified_name = ""; evidence = zero_evidence }

abbrev pub zero_predecessor : Predecessor
zero_predecessor = record {
  node_id = "";
  edge = record { source_id = ""; target_id = ""; relation = ""; evidence = zero_evidence };
}

abbrev pub value_or {ℓ} : {A : Type ℓ} → A → Option A → A
value_or a none = a
value_or a (some b) = b

-- The last loop, which follows the predecessors back from the target, with what it appends to
-- `pathNodes` and `pathEdges`; `none` where the fuel does not reach.
unfoldable pub go_back :
    ℕ
    → NodesById
    → List (String × Predecessor)
    → String
    → String
    → List Node
    → List Edge
    → Option (List Node × List Edge)
go_back zero nodes predecessors source id path_nodes path_edges =
    if id == source then some (path_nodes, path_edges) else none
go_back (suc fuel) nodes predecessors source id path_nodes path_edges = elim (id == source) [
  | true ↦ some (path_nodes, path_edges)
  | false ↦
      let previous = value_or zero_predecessor (lookup id predecessors) in
      go_back fuel nodes predecessors source previous.node_id
        (path_nodes ++ value_or zero_node (lookup previous.node_id nodes) ∷ [])
        (path_edges ++ previous.edge ∷ [])
]

pub record PathResult : Type 0 where
  pub source_candidates : List Node
  pub source_remainder_count : ℕ
  pub target_candidates : List Node
  pub target_remainder_count : ℕ
  pub nodes : List Node
  pub edges : List Edge
  pub scope_boundary : Option Node
  pub used_undirected_fallback : Bool
  pub undirected_fallback_attempted : Bool

abbrev pub zero_result : PathResult
zero_result = record {
  source_candidates = [];
  source_remainder_count = 0;
  target_candidates = [];
  target_remainder_count = 0;
  nodes = [];
  edges = [];
  scope_boundary = none;
  used_undirected_fallback = false;
  undirected_fallback_attempted = false;
}

-- The source before the first iteration.
abbrev pub initial : String → Search
initial source = record { frontier = source ∷ []; seen = source ∷ []; predecessors = [] }

-- The path of the two lists, each in reverse.
abbrev pub reversed : Option (List Node × List Edge) → Option PathResult
reversed none = none
reversed (some (path_nodes, path_edges)) =
    some (record zero_result { nodes = reverse path_nodes; edges = reverse path_edges })

-- What follows the loop over the frontier.
unfoldable pub path_back : NodesById → String → String → Option Search → Option PathResult
unfolding go_back
path_back nodes source target none = none
path_back nodes source target (some s) =
    if contains s.seen target
    then reversed (
        go_back (length s.seen) nodes s.predecessors source target
          (value_or zero_node (lookup target nodes) ∷ []) [])
    else some zero_result

-- `shortestPath`. Each iteration takes a node from the frontier, and each node enters it once, so
-- that the number of nodes is fuel enough for both loops.
unfoldable pub shortest_path : Facts → String → String → Bool → Option PathResult
unfolding index_nodes index_edges sort_all search path_back
shortest_path facts source target undirected =
    let nodes = index_nodes [] facts.nodes in
    if not (is_found (lookup source nodes)) || not (is_found (lookup target nodes))
    then some zero_result
    else path_back nodes source target (
        search (suc (length nodes)) undirected nodes
          (sort_all (index_edges undirected [] facts.edges)) target (initial source))
