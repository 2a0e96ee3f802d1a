-- ===== src/Query/Find.antt =====
-- query/path.go: `FindPathSnapshot`, with the types of storage/storage.go that it reads. The lookups
-- and the traverser are parameters, at the context and the snapshot of the call.
pub mod Answers
pub mod Candidates
use agent_wayfinder.Prelude.{
  ℕ, zero, suc, ◌-◌, ◌≡◌, String, ◌==◌, List, [], ◌∷◌, Bool, true, false, ◌&&◌, ◌||◌, not,
  if◌then◌else◌, Option, none, some, is_empty, length, map, Result, ok, err, min, nat_eq, is_found,
}
use agent_wayfinder.Prelude.Int.{ℤ, pos, ltb_ℤ}
use agent_wayfinder.Graph.{NodeKind, RelationKind, Node, Facts}
use agent_wayfinder.Query.Path.{PathResult, zero_result, shortest_path}

pub record PathRequest : Type 0 where
  pub source : String
  pub target : String
  pub allow_undirected_fallback : Bool
  pub project_ids : List String
  pub relations : List RelationKind
  pub max_depth : ℤ
  pub max_nodes : ℤ

pub record NodeLookupRequest : Type 0 where
  pub text : String
  pub kinds : List NodeKind
  pub project_ids : List String
  pub limit : ℕ

-- The score of a match is left out: a path question does not read it.
pub record NodeMatch : Type 0 where
  pub node : Node

pub data TraversalDirection : Type 0 where
  traverse_incoming traverse_outgoing traverse_both : TraversalDirection

pub record TraversalRequest : Type 0 where
  pub start_node_ids : List String
  pub project_ids : List String
  pub direction : TraversalDirection
  pub relations : List RelationKind
  pub max_depth : ℤ
  pub max_nodes : ℤ

pub data TruncationReason : Type 0 where
  depth_limit node_limit : TruncationReason

pub record TraversalResult : Type 0 where
  pub facts : Facts
  pub truncation_reasons : List TruncationReason
  pub scope_boundary : Option Node

-- `lookup_exact_nodes` is there if the lookup is an `ExactNodeLookup` too.
pub record NodeLookup : Type 0 where
  pub lookup_nodes : NodeLookupRequest → Result String (List NodeMatch)
  pub lookup_exact_nodes : Option (String → Result String (List NodeMatch))

abbrev pub Traverser : Type 0
Traverser = TraversalRequest → Result String TraversalResult

pub data FindError : Type 0 where
  lookup_required traverser_required invalid_request : FindError
  lookup_failed traversal_failed fallback_failed : String → FindError

abbrev pub max_seeds_per_term : ℕ
max_seeds_per_term = 3

unfoldable pub path_endpoint_matches : NodeLookup → String → Result String (List NodeMatch)
path_endpoint_matches lookup endpoint =
    let by_text =
      lookup.lookup_nodes (record {
        text = endpoint;
        kinds = [];
        project_ids = [];
        limit = suc max_seeds_per_term;
      }) in
    elim lookup.lookup_exact_nodes [
      | none ↦ by_text
      | some lookup_exact_nodes ↦ elim (lookup_exact_nodes endpoint) [
        | err e ↦ err e
        | ok [] ↦ by_text
        | ok (match ∷ matches) ↦ ok (match ∷ matches)
      ]
    ]

abbrev pub node_matches : List NodeMatch → List Node
node_matches matches = map (λ match. match.node) matches

unfoldable pub with_traversal_scope_boundary : PathResult → Option Node → PathResult
with_traversal_scope_boundary result boundary =
    if is_empty result.nodes || not (is_found boundary)
    then result
    else record result { scope_boundary = boundary }

-- `nodes[:n]`
unfoldable pub take : ℕ → List Node → List Node
take zero nodes = []
take (suc n) [] = []
take (suc n) (node ∷ nodes) = node ∷ take n nodes

unfoldable pub ambiguous_path_candidates : List Node → List Node
unfolding take
ambiguous_path_candidates nodes =
    if nat_eq (length nodes) 1 then [] else take (min (length nodes) max_seeds_per_term) nodes

-- The subtraction stops at 0, which is `max(0, …)`.
unfoldable pub path_candidate_remainder : List Node → ℕ
path_candidate_remainder nodes =
    if nat_eq (length nodes) 1 then 0 else length nodes - max_seeds_per_term

abbrev pub traversal_request : PathRequest → Node → TraversalDirection → TraversalRequest
traversal_request request source direction = record {
  start_node_ids = source.id ∷ [];
  project_ids = request.project_ids;
  direction = direction;
  relations = request.relations;
  max_depth = request.max_depth;
  max_nodes = request.max_nodes;
}

abbrev pub Answer : Type 0
Answer = Option (Result FindError PathResult)

-- The end of `FindPathSnapshot` with the traversal in both directions and what was found in it.
unfoldable pub fallback_result : Option Node → Option PathResult → Answer
unfolding with_traversal_scope_boundary
fallback_result boundary none = none
fallback_result boundary (some result) = some (
    ok (
      with_traversal_scope_boundary
        (record result {
          undirected_fallback_attempted = true;
          used_undirected_fallback = not (is_empty result.nodes);
        })
        boundary))

unfoldable pub fallback_of : Node → Node → Result String TraversalResult → Answer
unfolding fallback_result
fallback_of source target (err e) = some (err (fallback_failed e))
fallback_of source target (ok traversal) =
    fallback_result traversal.scope_boundary
      (shortest_path traversal.facts source.id target.id true)

-- From the result of `directedPath` on.
unfoldable pub after_directed :
    Traverser → PathRequest → Node → Node → Option Node → Option PathResult → Answer
unfolding fallback_of with_traversal_scope_boundary
after_directed traverse request source target boundary none = none
after_directed traverse request source target boundary (some result) =
    if not (is_empty result.nodes) || not request.allow_undirected_fallback
    then some (ok (with_traversal_scope_boundary result boundary))
    else fallback_of source target (traverse (traversal_request request source traverse_both))

unfoldable pub directed_of :
    Traverser → PathRequest → Node → Node → Result String TraversalResult → Answer
unfolding after_directed
directed_of traverse request source target (err e) = some (err (traversal_failed e))
directed_of traverse request source target (ok traversal) =
    after_directed traverse request source target traversal.scope_boundary
      (shortest_path traversal.facts source.id target.id false)

unfoldable pub ambiguous_result : List Node → List Node → Answer
unfolding ambiguous_path_candidates path_candidate_remainder
ambiguous_result sources targets = some (
    ok (record zero_result {
      source_candidates = ambiguous_path_candidates sources;
      source_remainder_count = path_candidate_remainder sources;
      target_candidates = ambiguous_path_candidates targets;
      target_remainder_count = path_candidate_remainder targets;
    }))

unfoldable pub find_among : Traverser → PathRequest → List Node → List Node → Answer
unfolding directed_of ambiguous_result
find_among traverse request (source ∷ []) (target ∷ []) =
    directed_of traverse request source target
      (traverse (traversal_request request source traverse_outgoing))
find_among traverse request sources targets = ambiguous_result sources targets

-- From the two lookups on.
unfoldable pub find_matched :
    Traverser
    → PathRequest
    → Result String (List NodeMatch)
    → Result String (List NodeMatch)
    → Answer
unfolding find_among
find_matched traverse request (err e) targets = some (err (lookup_failed e))
find_matched traverse request (ok sources) (err e) = some (err (lookup_failed e))
find_matched traverse request (ok sources) (ok targets) =
    find_among traverse request (node_matches sources) (node_matches targets)

unfoldable pub is_invalid : PathRequest → Bool
is_invalid request =
    request.source == ""
    || request.target == ""
    || ltb_ℤ request.max_depth (pos 0)
    || not (ltb_ℤ (pos 0) request.max_nodes)

unfoldable pub find_path_snapshot : Option NodeLookup → Option Traverser → PathRequest → Answer
unfolding path_endpoint_matches find_matched is_invalid
find_path_snapshot none traverser request = some (err lookup_required)
find_path_snapshot (some lookup) none request = some (err traverser_required)
find_path_snapshot (some lookup) (some traverse) request =
    if is_invalid request
    then some (err invalid_request)
    else find_matched traverse request (path_endpoint_matches lookup request.source)
        (path_endpoint_matches lookup request.target)
