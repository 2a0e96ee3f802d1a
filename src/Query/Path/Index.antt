-- ===== src/Query/Path/Index.antt =====
-- The tables of query/path.go hold what the facts hold.
use agent_wayfinder.Prelude.{
  String, eq_iff, List, [], ◌∷◌, ◌++◌, Bool, true, false, ◌≡◌, ◌⊎◌, ◌↔◌, inl, refl, Has, Has-append,
  some, lookup, insert, lookup-insert, is_found, arith,
}
use agent_wayfinder.Graph.{Node, Edge}
use agent_wayfinder.Query.Path.{
  NodesById, EdgesBySource, index_nodes, edges_of, add_edge, index_edges, insert_edge, sort_edges,
  sort_all,
}
use agent_wayfinder.Query.Path.Walk.{ids}

pub index_nodes-found :
    (k : String) (table : NodesById) (nodes : List Node)
    → (is_found (lookup k (index_nodes table nodes)) ≡ true)
      ↔ ((is_found (lookup k table) ≡ true) ⊎ Has k (ids nodes))
unfolding index_nodes
index_nodes-found k table [] = ground arith
index_nodes-found k table (node ∷ nodes) = ground (
  arith,
  eq_iff node.id k,
  lookup-insert node.id k node table,
  index_nodes-found k (insert node.id node table) nodes,
)

pub index_nodes-origin :
    (k : String) (n : Node) (table : NodesById) (nodes : List Node)
    → lookup k (index_nodes table nodes) ≡ some n
    → (lookup k table ≡ some n) ⊎ Has n nodes × (n.id ≡ k)
unfolding index_nodes
index_nodes-origin k n table [] h = inl h
index_nodes-origin k n table (node ∷ nodes) h = ground (
  arith,
  eq_iff node.id k,
  lookup-insert node.id k node table,
  index_nodes-origin k n (insert node.id node table) nodes h,
)

pub edges_of-add_edge :
    (k id : String) (edge e : Edge) (table : EdgesBySource)
    → Has e (edges_of (add_edge id edge table) k)
      ↔ (Has e (edges_of table k) ⊎ (id ≡ k) × (e ≡ edge))
unfolding add_edge edges_of
edges_of-add_edge k id edge e table = ground (
  arith,
  eq_iff id k,
  lookup-insert id k (edges_of table id ++ edge ∷ []) table,
  Has-append e (edges_of table id) (edge ∷ []),
)

-- The bucket of a node: the edges that leave it and, if undirected, those that enter it.
pub edges_of-index_edges :
    (k : String) (e : Edge) (undirected : Bool) (table : EdgesBySource) (edges : List Edge)
    → Has e (edges_of (index_edges undirected table edges) k) ↔ (
        Has e (edges_of table k)
        ⊎ Has e edges × ((k ≡ e.source_id) ⊎ (undirected ≡ true) × (k ≡ e.target_id)))
unfolding index_edges
edges_of-index_edges k e undirected table [] = ground arith
edges_of-index_edges k e false table (edge ∷ edges) = grind (
  arith,
  edges_of-add_edge k edge.source_id edge e table,
  edges_of-index_edges k e false (add_edge edge.source_id edge table) edges,
)
edges_of-index_edges k e true table (edge ∷ edges) =
    let once = add_edge edge.source_id edge table in
    grind (
      arith,
      edges_of-add_edge k edge.source_id edge e table,
      edges_of-add_edge k edge.target_id edge e once,
      edges_of-index_edges k e true (add_edge edge.target_id edge once) edges,
    )

pub Has-insert_edge :
    (e edge : Edge) (edges : List Edge)
    → Has e (insert_edge edge edges) ↔ ((e ≡ edge) ⊎ Has e edges)
unfolding insert_edge
Has-insert_edge e edge [] = ground arith
Has-insert_edge e edge (other ∷ others) = ground (arith, Has-insert_edge e edge others)

pub Has-sort_edges : (e : Edge) (edges : List Edge) → Has e (sort_edges edges) ↔ Has e edges
unfolding sort_edges
Has-sort_edges e [] = ground arith
Has-sort_edges e (edge ∷ edges) =
    ground (arith, Has-insert_edge e edge (sort_edges edges), Has-sort_edges e edges)

pub edges_of-sort_all :
    (k : String) (table : EdgesBySource)
    → edges_of (sort_all table) k ≡ sort_edges (edges_of table k)
unfolding sort_all edges_of sort_edges lookup
edges_of-sort_all k [] = refl
edges_of-sort_all k ((id, edges) ∷ table) = ground (arith, eq_iff id k, edges_of-sort_all k table)
