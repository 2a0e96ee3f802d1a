-- ===== src/Examples/QueryExamples.antt =====
-- Tests of the search for paths.
use agent_wayfinder.Prelude.{
  lookup, insert, contains, String, List, [], ◌∷◌, true, false, ◌≡◌, refl, Option, none, some, ok,
  length, ◌+◌, ◌≤◌, ◌++◌, ◌≢◌, arith,
}
use agent_wayfinder.Prelude.Int.{pos}
use agent_wayfinder.Graph.{Node, Edge, Facts}
use agent_wayfinder.Query.Path.{PathResult, zero_evidence, zero_node, shortest_path}
use agent_wayfinder.Query.Path.Shortest.{IsShortest, shortest_path-IsShortest}
use agent_wayfinder.Query.Find.{
  PathRequest, NodeLookup, Traverser, TraversalResult, find_path_snapshot, path_endpoint_matches,
  is_invalid, ambiguous_path_candidates, path_candidate_remainder,
}
use agent_wayfinder.Query.Find.Answers.{IsAnswer, find_path_snapshot_answers}
use agent_wayfinder.Query.Find.Candidates.{candidates_counted}

abbrev node : String → Node
node id = record zero_node { id = id }

abbrev edge : String → String → Edge
edge source target = record {
  source_id = source;
  target_id = target;
  relation = "calls";
  evidence = zero_evidence;
}

-- From `a` to `d` by `b` and `c`, and by `e` directly.
abbrev calls : Facts
calls = record {
  nodes = node "a" ∷ node "b" ∷ node "c" ∷ node "d" ∷ node "e" ∷ node "f" ∷ [];
  edges =
      edge "a" "b" ∷ edge "b" "c" ∷ edge "c" "d" ∷ edge "a" "e" ∷ edge "e" "d" ∷ edge "f" "a" ∷ [];
}

abbrev edges_found : Option PathResult → List Edge
edges_found none = []
edges_found (some r) = r.edges

test_shortest : edges_found (shortest_path calls "a" "d" false) ≡ edge "a" "e" ∷ edge "e" "d" ∷ []
unfolding shortest_path lookup insert contains
test_shortest = refl

test_no_way_back : edges_found (shortest_path calls "a" "f" false) ≡ []
unfolding shortest_path lookup insert contains
test_no_way_back = refl

test_undirected : edges_found (shortest_path calls "a" "f" true) ≡ edge "f" "a" ∷ []
unfolding shortest_path lookup insert contains
test_undirected = refl

shortest_path-IsShortest_example :
    (r : PathResult) × (shortest_path calls "a" "d" false ≡ some r)
    × IsShortest calls false "a" "d" r
shortest_path-IsShortest_example = shortest_path-IsShortest calls "a" "d" false

abbrev lookup_by_id : NodeLookup
lookup_by_id = record {
  lookup_nodes = λ request. ok (record { node = node request.text } ∷ []);
  lookup_exact_nodes = none;
}

abbrev all_calls : TraversalResult
all_calls = record { facts = calls; truncation_reasons = []; scope_boundary = none }

abbrev traverse_calls : Traverser
traverse_calls request = ok all_calls

abbrev question : PathRequest
question = record {
  source = "a";
  target = "f";
  allow_undirected_fallback = true;
  project_ids = [];
  relations = [];
  max_depth = pos 5;
  max_nodes = pos 50;
}

question_valid : is_invalid question ≡ false
unfolding is_invalid
question_valid = refl

matched :
    (id : String) → path_endpoint_matches lookup_by_id id ≡ ok (record { node = node id } ∷ [])
unfolding path_endpoint_matches
matched id = refl

find_path_snapshot_answers_example :
    (r : PathResult) × (find_path_snapshot (some lookup_by_id) (some traverse_calls) question
      ≡ some (ok r))
    × IsAnswer question (node "a") (node "f") all_calls all_calls r
find_path_snapshot_answers_example =
    find_path_snapshot_answers traverse_calls question (node "a") (node "f") all_calls all_calls
      lookup_by_id question_valid (_, matched "a", refl) (_, matched "f", refl) refl refl

abbrev four : List Node
four = node "a" ∷ node "b" ∷ node "c" ∷ node "d" ∷ []

four-several : length four ≢ 1
four-several = λ e. omega (arith, e)

candidates_counted_example :
    ((rest : List Node) × (four ≡ ambiguous_path_candidates four ++ rest))
    × (length (ambiguous_path_candidates four) ≤ 3)
    × (length (ambiguous_path_candidates four) + path_candidate_remainder four ≡ length four)
candidates_counted_example = candidates_counted four four-several
