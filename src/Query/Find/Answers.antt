-- ===== src/Query/Find/Answers.antt =====
-- What `FindPathSnapshot` of query/path.go answers.
use agent_wayfinder.Prelude.{
  String, List, [], ◌∷◌, Bool, true, false, not, ◌≡◌, inl, inr, refl, subst, sym, ◌≤◌, Option, none,
  some, ok, err, length, if◌then◌else◌, arith, if_elim, ap,
}
use agent_wayfinder.Graph.{Node, Edge, Facts}
use agent_wayfinder.Query.Path.{PathResult, zero_result, shortest_path}
use agent_wayfinder.Query.Path.Walk.{Walk, IsPath}
use agent_wayfinder.Query.Path.Shortest.{shortest_path-IsShortest}
use agent_wayfinder.Query.Find.{
  PathRequest, NodeLookup, NodeMatch, Traverser, TraversalResult, invalid_request, Answer,
  traverse_outgoing, traverse_both, traversal_request, path_endpoint_matches, node_matches,
  find_path_snapshot, find_among, directed_of, after_directed, fallback_of, fallback_result,
  find_matched, is_invalid, with_traversal_scope_boundary,
}

-- No walk leads from the one node to the other.
abbrev pub HasNoWalk : Facts → Bool → Node → Node → Type 0
HasNoWalk facts u source target = (edges : List Edge) → ¬ Walk facts u source.id edges target.id

-- The path of `r` leads from the one node to the other, and is a shortest.
abbrev pub HasPath : Facts → Bool → Node → Node → PathResult → Type 0
HasPath facts u source target r =
    IsPath facts u source.id r.nodes r.edges target.id
    × ((edges : List Edge) → Walk facts u source.id edges target.id → length r.edges ≤ length edges)

-- The answer `r` for two nodes, from the traversal along the edges and the one in both directions.
pub data IsAnswer (request : PathRequest) (source target : Node) (out both : TraversalResult)
    : PathResult → Type 0 where
  directed :
      (r : PathResult)
      → HasPath out.facts false source target r
      → r.scope_boundary ≡ out.scope_boundary
      → r.undirected_fallback_attempted ≡ false
      → IsAnswer request source target out both r
  no_fallback :
      HasNoWalk out.facts false source target
      → request.allow_undirected_fallback ≡ false
      → IsAnswer request source target out both zero_result
  undirected :
      (r : PathResult)
      → HasNoWalk out.facts false source target
      → request.allow_undirected_fallback ≡ true
      → HasPath both.facts true source target r
      → r.scope_boundary ≡ both.scope_boundary
      → r.used_undirected_fallback ≡ true
      → IsAnswer request source target out both r
  no_path :
      HasNoWalk out.facts false source target
      → request.allow_undirected_fallback ≡ true
      → HasNoWalk both.facts true source target
      → IsAnswer request source target out both
          (record zero_result { undirected_fallback_attempted = true })

-- The matches of an endpoint are this one node.
abbrev pub IsEndpoint : NodeLookup → String → Node → Type 0
IsEndpoint lookup endpoint node =
    (matches : List NodeMatch) × (path_endpoint_matches lookup endpoint ≡ ok matches)
    × (node_matches matches ≡ node ∷ [])

-- The boundary is set on a path.
scoped :
    (node : Node) (nodes : List Node) (edges : List Edge) (used attempted : Bool)
    (boundary : Option Node)
    → with_traversal_scope_boundary
        (record zero_result {
          nodes = node ∷ nodes;
          edges = edges;
          used_undirected_fallback = used;
          undirected_fallback_attempted = attempted;
        })
        boundary
      ≡ record zero_result {
        nodes = node ∷ nodes;
        edges = edges;
        scope_boundary = boundary;
        used_undirected_fallback = used;
        undirected_fallback_attempted = attempted;
      }
unfolding with_traversal_scope_boundary
scoped node nodes edges used attempted none = refl
scoped node nodes edges used attempted (some boundary) = refl

module _ (traverse : Traverser) (request : PathRequest) (source target : Node)
    (out both : TraversalResult) where
  abbrev Answers : Answer → Type 0
  Answers a = (r : PathResult) × (a ≡ some (ok r)) × IsAnswer request source target out both r

  path-Answers :
      (nodes : List Node) (edges : List Edge)
      → HasPath out.facts false source target (record zero_result { nodes = nodes; edges = edges })
      → Answers (
          after_directed traverse request source target out.scope_boundary
            (some (record zero_result { nodes = nodes; edges = edges })))
  unfolding after_directed IsPath
  path-Answers [] edges h = absurd h.0
  path-Answers (node ∷ nodes) edges h = (
    _,
    ap (λ r. some (ok r)) (scoped node nodes edges false false out.scope_boundary),
    directed _ h refl refl,
  )

  undirected-Answers :
      (nodes : List Node) (edges : List Edge)
      → HasNoWalk out.facts false source target
      → request.allow_undirected_fallback ≡ true
      → HasPath both.facts true source target (record zero_result { nodes = nodes; edges = edges })
      → Answers (
          fallback_result both.scope_boundary
            (some (record zero_result { nodes = nodes; edges = edges })))
  unfolding fallback_result IsPath
  undirected-Answers [] edges none_out allow h = absurd h.0
  undirected-Answers (node ∷ nodes) edges none_out allow h = (
    _,
    ap (λ r. some (ok r)) (scoped node nodes edges true true both.scope_boundary),
    undirected _ none_out allow h refl refl,
  )

  no_path-Answers :
      HasNoWalk out.facts false source target
      → request.allow_undirected_fallback ≡ true
      → HasNoWalk both.facts true source target
      → Answers (fallback_result both.scope_boundary (some zero_result))
  unfolding fallback_result with_traversal_scope_boundary
  no_path-Answers none_out allow none_both = (_, refl, no_path none_out allow none_both)

  fallback-Answers :
      HasNoWalk out.facts false source target
      → request.allow_undirected_fallback ≡ true
      → Answers
          (fallback_result both.scope_boundary (shortest_path both.facts source.id target.id true))
  fallback-Answers none_out allow =
      let (r, found, h) = shortest_path-IsShortest both.facts source.id target.id true in
      subst (λ o. Answers (fallback_result both.scope_boundary o)) (sym found)
        (elim h [
          | inl (path, short, e) ↦
              subst (λ q. Answers (fallback_result both.scope_boundary (some q))) (sym e)
                (undirected-Answers r.nodes r.edges none_out allow (path, short))
          | inr (e, none_both) ↦
              subst (λ q. Answers (fallback_result both.scope_boundary (some q))) (sym e)
                (no_path-Answers none_out allow none_both)
        ])

  nothing-Answers :
      HasNoWalk out.facts false source target
      → traverse (traversal_request request source traverse_both) ≡ ok both
      → Answers
          (after_directed traverse request source target out.scope_boundary (some zero_result))
  unfolding after_directed fallback_of with_traversal_scope_boundary
  nothing-Answers none_out e =
      if_elim Answers (not request.allow_undirected_fallback)
        (λ refuse. (zero_result, refl, no_fallback none_out (ground (arith, refuse))))
        (λ allow.
          subst (λ t. Answers (fallback_of source target t)) (sym e)
            (fallback-Answers none_out (ground (arith, allow))))

  directed-Answers :
      traverse (traversal_request request source traverse_both) ≡ ok both
      → Answers (directed_of traverse request source target (ok out))
  unfolding directed_of
  directed-Answers e =
      let (r, found, h) = shortest_path-IsShortest out.facts source.id target.id false in
      let after : Option PathResult → Answer =
        after_directed traverse request source target out.scope_boundary in
      subst (λ o. Answers (after o)) (sym found)
        (elim h [
          | inl (path, short, e') ↦
              subst (λ q. Answers (after (some q))) (sym e')
                (path-Answers r.nodes r.edges (path, short))
          | inr (e', none_out) ↦
              subst (λ q. Answers (after (some q))) (sym e') (nothing-Answers none_out e)
        ])

  -- Where the request is valid, each endpoint matches one node and the traversals succeed,
  -- `FindPathSnapshot` answers with a shortest path of the traversal along the edges, with that
  -- traversal's scope boundary; or, if there is none and the fallback is allowed, with a shortest
  -- path of the traversal in both directions, marked as such; or with no path, and there is none.
  pub find_path_snapshot_answers :
      (lookup : NodeLookup)
      → is_invalid request ≡ false
      → IsEndpoint lookup request.source source
      → IsEndpoint lookup request.target target
      → traverse (traversal_request request source traverse_outgoing) ≡ ok out
      → traverse (traversal_request request source traverse_both) ≡ ok both
      → (r : PathResult) × (find_path_snapshot (some lookup) (some traverse) request ≡ some (ok r))
        × IsAnswer request source target out both r
  unfolding find_path_snapshot find_matched find_among
  find_path_snapshot_answers lookup valid (sources, s, e) (targets, t, e') d b =
      subst
        (λ v. Answers (
          if v
          then some (err invalid_request)
          else find_matched traverse request (path_endpoint_matches lookup request.source)
              (path_endpoint_matches lookup request.target)))
        (sym valid)
        (subst
          (λ m.
            Answers (find_matched traverse request m (path_endpoint_matches lookup request.target)))
          (sym s)
          (subst (λ m. Answers (find_matched traverse request (ok sources) m)) (sym t)
            (subst (λ ns. Answers (find_among traverse request ns (node_matches targets))) (sym e)
              (subst (λ ns. Answers (find_among traverse request (source ∷ []) ns)) (sym e')
                (subst (λ o. Answers (directed_of traverse request source target o)) (sym d)
                  (directed-Answers b))))))
