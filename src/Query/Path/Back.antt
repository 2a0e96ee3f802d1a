-- ===== src/Query/Path/Back.antt =====
-- The last loop of `shortestPath` in query/path.go: following the predecessors gives the path.
use agent_wayfinder.Prelude.{
  elim_test, ℕ, zero, suc, String, ◌==◌, eq_iff, List, [], ◌∷◌, ◌++◌, Bool, ◌≡◌, inl, inr, sym,
  subst, ◌≤◌, ◌+◌, refl, Option, some, lookup, arith, length, Has, ap, if_elim, Option-cases,
}
use mathlib.Core.List.{reverse, reverse-append}
use agent_wayfinder.Graph.{Node, Edge, Facts}
use agent_wayfinder.Query.Path.{
  NodesById, EdgesBySource, Predecessor, Search, go_back, value_or, zero_node, zero_predecessor,
}
use agent_wayfinder.Query.Path.Walk.{ids, Step, IsPath}
use agent_wayfinder.Query.Path.Layers.{Tables}
use agent_wayfinder.Query.Path.Loop.{Ended}

reverse-snoc : {A : Type 0} (xs : List A) (x : A) → reverse (xs ++ x ∷ []) ≡ x ∷ reverse xs
reverse-snoc xs x = reverse-append xs (x ∷ [])

module _ (facts : Facts) (u : Bool) (source target : String) (nodes : NodesById)
    (edges : EdgesBySource) (T : Tables facts u nodes edges) (s : Search)
    (E : Ended facts u source target s) where
  pub node_of :
      (k : String)
      → Has k (ids facts.nodes)
      → Has (value_or zero_node (lookup k nodes)) facts.nodes
        × ((value_or zero_node (lookup k nodes)).id ≡ k)
  node_of k m = elim (Option-cases (lookup k nodes)) [
    | inl e ↦ absurd (ground (arith, T.nodes_iff k, e, m))
    | inr (n, e) ↦
        subst (λ o. Has (value_or zero_node o) facts.nodes × ((value_or zero_node o).id ≡ k))
          (sym e) (T.origin k n e)
  ]

  -- From `y` on, with the part from `y` to the target in hand, the loop completes the path.
  abbrev Completes : String → ℕ → Option (List Node × List Edge) → Type 0
  Completes y rest r =
      (path_nodes : List Node) × (path_edges : List Edge) × (r ≡ some (path_nodes, path_edges))
      × IsPath facts u source (reverse path_nodes) (reverse path_edges) target
      × (length (reverse path_edges) ≡ E.depth y + rest)

  stop-Completes :
      (y : String) (path_nodes : List Node) (path_edges : List Edge)
      → y ≡ source
      → IsPath facts u y (reverse path_nodes) (reverse path_edges) target
      → Completes y (length (reverse path_edges)) (some (path_nodes, path_edges))
  stop-Completes y path_nodes path_edges e h = (
    path_nodes,
    path_edges,
    refl,
    subst (λ z. IsPath facts u z (reverse path_nodes) (reverse path_edges) target) e h,
    omega (arith, ap E.depth e, E.start.1),
  )

  extend-IsPath :
      (y : String) (p : Predecessor) (path_nodes : List Node) (path_edges : List Edge)
      → Has p.node_id s.seen
      → Step facts u p.node_id p.edge y
      → IsPath facts u y (reverse path_nodes) (reverse path_edges) target
      → IsPath facts u p.node_id
          (reverse (path_nodes ++ value_or zero_node (lookup p.node_id nodes) ∷ []))
          (reverse (path_edges ++ p.edge ∷ []))
          target
  unfolding IsPath
  extend-IsPath y p path_nodes path_edges before step h =
      let n = value_or zero_node (lookup p.node_id nodes) in
      let at = node_of p.node_id (E.are_nodes p.node_id before) in
      subst (λ ns. IsPath facts u p.node_id ns (reverse (path_edges ++ p.edge ∷ [])) target)
        (sym (reverse-snoc path_nodes n))
        (subst (λ es. IsPath facts u p.node_id (n ∷ reverse path_nodes) es target)
          (sym (reverse-snoc path_edges p.edge)) (at.0, at.1, (y, step, h)))

  pub go_back-Completes :
      (fuel : ℕ) (y : String) (path_nodes : List Node) (path_edges : List Edge)
      → Has y s.seen
      → E.depth y ≤ fuel
      → IsPath facts u y (reverse path_nodes) (reverse path_edges) target
      → Completes y
          (length (reverse path_edges))
          (go_back fuel nodes s.predecessors source y path_nodes path_edges)
  unfolding go_back
  go_back-Completes zero y path_nodes path_edges m le h =
      if_elim (Completes y (length (reverse path_edges))) (y == source)
        (λ e. stop-Completes y path_nodes path_edges ((eq_iff y source).0 e) h)
        (λ e. elim (E.tree y m) [
          | inl here ↦ absurd (ground (arith, eq_iff y source, here, e))
          | inr (p, _, _, _, deeper) ↦ absurd (omega (arith, deeper, le))
        ])
  go_back-Completes (suc fuel) y path_nodes path_edges m le h =
      elim_test (Completes y (length (reverse path_edges))) (y == source)
        (λ e. stop-Completes y path_nodes path_edges ((eq_iff y source).0 e) h)
        (λ e. elim (E.tree y m) [
          | inl here ↦ absurd (ground (arith, eq_iff y source, here, e))
          | inr (p, at_y, before, step, deeper) ↦
              let (path_nodes', path_edges', found, path, long) =
                go_back-Completes fuel p.node_id
                  (path_nodes ++ value_or zero_node (lookup p.node_id nodes) ∷ [])
                  (path_edges ++ p.edge ∷ []) before (omega (arith, deeper, le))
                  (extend-IsPath y p path_nodes path_edges before step h) in
              subst
                (λ o.
                  let q = value_or zero_predecessor o in
                  Completes y (length (reverse path_edges)) (
                    go_back fuel nodes s.predecessors source q.node_id
                      (path_nodes ++ value_or zero_node (lookup q.node_id nodes) ∷ [])
                      (path_edges ++ q.edge ∷ [])))
                (sym at_y)
                (
                  path_nodes',
                  path_edges',
                  found,
                  path,
                  omega (arith, long, deeper, ap length (reverse-snoc path_edges p.edge)),
                )
        ])
