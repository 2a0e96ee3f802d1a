-- ===== src/Query/Path/Shortest.antt =====
-- `shortestPath` of query/path.go finds a shortest walk, or there is none.
use agent_wayfinder.Prelude.{
  suc, String, List, [], ◌∷◌, Bool, true, not, ◌||◌, ◌≡◌, ◌⊎◌, ◌↔◌, inl, inr, sym, subst, ◌≤◌, refl,
  Option, some, lookup, is_found, arith, length, Has, ap, if_elim, contains, contains_iff,
}
use agent_wayfinder.Graph.{Edge, Facts}
use agent_wayfinder.Query.Path.{
  NodesById, EdgesBySource, Search, PathResult, reversed, zero_result, value_or, zero_node,
  index_nodes, index_edges, sort_all, edges_of, path_back, shortest_path,
}
use agent_wayfinder.Query.Path.Walk.{ids, Walk, IsPath}
use agent_wayfinder.Query.Path.Index.{
  index_nodes-found, index_nodes-origin, edges_of-index_edges, edges_of-sort_all, Has-sort_edges,
}
use agent_wayfinder.Query.Path.Layers.{Tables}
use agent_wayfinder.Query.Path.Fuel.{unseen-length}
use agent_wayfinder.Query.Path.Loop.{Ended, AtHead, search-Ends}
use agent_wayfinder.Query.Path.Back.{node_of, go_back-Completes}

-- The tables that `shortestPath` builds.
built-Tables :
    (facts : Facts) (u : Bool)
    → Tables facts u (index_nodes [] facts.nodes) (sort_all (index_edges u [] facts.edges))
unfolding edges_of lookup
built-Tables facts u = record {
  nodes_iff = λ k. ground (arith, index_nodes-found k [] facts.nodes);
  origin = λ k n h. ground (arith, index_nodes-origin k n [] facts.nodes h);
  edges_iff = λ k e.
      subst
        (λ es.
          Has e es ↔ (Has e facts.edges × ((k ≡ e.source_id) ⊎ (u ≡ true) × (k ≡ e.target_id))))
        (sym (edges_of-sort_all k (index_edges u [] facts.edges)))
        (ground (
          arith,
          Has-sort_edges e (edges_of (index_edges u [] facts.edges) k),
          edges_of-index_edges k e u [] facts.edges,
        ));
}

initial-AtHead :
    (facts : Facts) (u : Bool) (source target : String) (nodes : NodesById) (edges : EdgesBySource)
    (T : Tables facts u nodes edges)
    → Has source (ids facts.nodes)
    → AtHead facts u source target nodes edges T (source ∷ []) (source ∷ []) []
initial-AtHead facts u source target nodes edges T m = (
  source,
  0,
  (λ _. 0),
  record {
    start = (inl refl, refl);
    tree = λ y h. elim h [ inl e ↦ inl e | inr h' ↦ absurd h' ];
    are_nodes = λ y h. elim h [
      | inl e ↦ subst (λ z. Has z (ids facts.nodes)) (sym e) m
      | inr h' ↦ absurd h'
    ];
    bounded = λ y h. omega arith;
    low = λ y h. omega arith;
    layers = inl (refl, tt);
    queued = λ y h. h;
    closed = λ y h. inl h;
  },
)

-- The result is a shortest walk and no more, or it is empty and there is no walk.
abbrev pub IsShortest : Facts → Bool → String → String → PathResult → Type 0
IsShortest facts u source target r =
    IsPath facts u source r.nodes r.edges target
      × ((edges : List Edge) → Walk facts u source edges target → length r.edges ≤ length edges)
      × (r ≡ record zero_result { nodes = r.nodes; edges = r.edges })
    ⊎ (r ≡ zero_result) × ((edges : List Edge) → ¬ Walk facts u source edges target)

Walk-ends :
    (facts : Facts) (u : Bool) (x : String) (edges : List Edge) (y : String)
    → Walk facts u x edges y
    → Has x (ids facts.nodes) × Has y (ids facts.nodes)
unfolding Walk
Walk-ends facts u x [] y w = (w.1, subst (λ z. Has z (ids facts.nodes)) w.0 w.1)
Walk-ends facts u x (edge ∷ edges) y (m, (z, step, w)) = (m, (Walk-ends facts u z edges y w).1)

-- `r` is a result, and a right one.
abbrev Finds : Facts → Bool → String → String → Option PathResult → Type 0
Finds facts u source target o = (r : PathResult) × (o ≡ some r) × IsShortest facts u source target r

path_back-Finds :
    (facts : Facts) (u : Bool) (source target : String) (nodes : NodesById) (edges : EdgesBySource)
    (T : Tables facts u nodes edges) (s : Search) (E : Ended facts u source target s)
    → Finds facts u source target (path_back nodes source target (some s))
unfolding path_back IsPath
path_back-Finds facts u source target nodes edges T s E =
    if_elim (Finds facts u source target) (contains s.seen target)
      (λ e.
        let m = (contains_iff s.seen target).0 e in
        let n = value_or zero_node (lookup target nodes) in
        let at = node_of facts u source target nodes edges T s E target (E.are_nodes target m) in
        let (path_nodes, path_edges, found, path, long) =
          go_back-Completes facts u source target nodes edges T s E (length s.seen) target (n ∷ [])
            [] m (omega (arith, E.bounded target m)) (refl, at.0, at.1, refl) in
        (_, ap reversed found, inl (path, (λ es w. omega (arith, long, (E.nearest es w).1)), refl)))
      (λ e. (
        zero_result,
        refl,
        inr (refl, λ es w. ground (arith, contains_iff s.seen target, e, (E.nearest es w).0)),
      ))

-- `shortestPath` returns: it returns a path from the source to the target along edges of the facts,
-- with its nodes in order, and no walk between them is shorter; or it returns the empty result, and
-- there is no walk.
pub shortest_path-IsShortest :
    (facts : Facts) (source target : String) (undirected : Bool)
    → (r : PathResult) × (shortest_path facts source target undirected ≡ some r)
      × IsShortest facts undirected source target r
unfolding shortest_path
shortest_path-IsShortest facts source target u =
    let nodes = index_nodes [] facts.nodes in
    let edges = sort_all (index_edges u [] facts.edges) in
    let T = built-Tables facts u in
    if_elim (Finds facts u source target)
      (not (is_found (lookup source nodes)) || not (is_found (lookup target nodes)))
      (λ e. (
        zero_result,
        refl,
        inr (
          refl,
          λ es w.
              let (m, m') = Walk-ends facts u source es target w in
              ground (arith, T.nodes_iff source, T.nodes_iff target, e, m, m'),
        ),
      ))
      (λ e.
        let m : Has source (ids facts.nodes) = ground (arith, T.nodes_iff source, e) in
        let (s, found, E) =
          search-Ends facts u source target nodes edges T (suc (length nodes)) (source ∷ [])
            (source ∷ []) [] (initial-AtHead facts u source target nodes edges T m)
            (omega (arith, unseen-length nodes (source ∷ []))) in
        subst (λ o. Finds facts u source target (path_back nodes source target o)) (sym found)
          (path_back-Finds facts u source target nodes edges T s E))
