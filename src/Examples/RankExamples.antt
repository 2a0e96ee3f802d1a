-- ===== src/Examples/RankExamples.antt =====
-- Tests of the ranking of seeds. Scores are numbers here, and letters have no case.
use agent_wayfinder.Prelude.{
  ℕ, ◌+◌, String, List, [], ◌∷◌, false, if◌then◌else◌, nat_eq, ltb, ◌≡◌, refl, none, some, Result,
  ok, err, contains, arith,
}
use agent_wayfinder.Prelude.Int.{pos}
use agent_wayfinder.Graph.{Node}
use agent_wayfinder.Query.Path.{zero_evidence, zero_node}
use agent_wayfinder.Query.Rank.{SeedRequest, SeedSet, Scores, RankedSeed}
use agent_wayfinder.Query.Find.{NodeLookup}
use agent_wayfinder.Query.Rank.Texts.{Letters, map_chars, base_kind}
use agent_wayfinder.Query.Rank.Diversify.{diversify_ranked_seeds}
use agent_wayfinder.Query.Rank.Diversify.Exact.{AreDiverse, diversify_ranked_seeds-AreDiverse}
use agent_wayfinder.Query.Rank.Seeds.{
  RankError, Searcher, rank_seed_requests_snapshot, zero_components,
}
use agent_wayfinder.Query.Rank.Seeds.Answers.{AreAnswers, rank_seed_requests_snapshot-AreAnswers}

-- A quotient is rounded down.
abbrev counts : Scores ℕ
counts = record {
  nought = 0;
  one = 1;
  add = λ a b. a + b;
  div = λ a b. 0;
  greatest = λ a b. if ltb a b then b else a;
  of_count = λ n. n;
  is_below = ltb;
  is_same = nat_eq;
}

abbrev plain_letters : Letters
plain_letters = record { is_space = λ c. false; to_lower = λ c. c; fold = λ c. c }

abbrev node_in : String → String → Node
node_in id path = record zero_node {
  id = id;
  label = id;
  evidence = record zero_evidence {
    span = record {
      path = path;
      start_line = pos 1;
      start_column = pos 1;
      end_line = pos 1;
      end_column = pos 1;
    };
  };
}

abbrev seed : String → String → RankedSeed ℕ
seed id path = record {
  node = node_in id path;
  score = 0;
  components = zero_components counts plain_letters;
}

abbrev candidates : List (RankedSeed ℕ)
candidates = seed "a" "x.go" ∷ seed "b" "x.go" ∷ seed "a" "x.go" ∷ seed "c" "y.go" ∷ []

test_diversify :
    diversify_ranked_seeds candidates 3 ≡ seed "a" "x.go" ∷ seed "c" "y.go" ∷ seed "b" "x.go" ∷ []
unfolding diversify_ranked_seeds contains
test_diversify = refl

diversify_ranked_seeds-AreDiverse_example :
    AreDiverse candidates 2 (diversify_ranked_seeds candidates 2)
diversify_ranked_seeds-AreDiverse_example =
    diversify_ranked_seeds-AreDiverse candidates 2 (omega arith)

test_base_kind : base_kind "go:function" ≡ "function"
unfolding base_kind
test_base_kind = refl

abbrev no_exact : NodeLookup
no_exact = record { lookup_nodes = λ request. ok []; lookup_exact_nodes = none }

abbrev search_found : Searcher ℕ
search_found request = ok (
    record { node = node_in "a" "x.go"; score = 2 }
    ∷ record { node = node_in "b" "y.go"; score = 3 }
    ∷ [])

abbrev find_b : SeedRequest
find_b = record {
  role = "caller";
  entity_role = "";
  retrieval = record {
    text = "b";
    phrases = [];
    token_groups = [];
    kinds = [];
    project_ids = [];
    source_path = "y.go";
    limit = pos 2;
  };
}

abbrev ids_found : {A : Type 0} → Result A (List (SeedSet ℕ)) → List (List Node)
ids_found (ok []) = []
ids_found (ok (s ∷ sets)) = s.nodes ∷ []
ids_found (err e) = []

test_ranked :
    ids_found (
      rank_seed_requests_snapshot counts plain_letters
        (some no_exact)
        (some search_found)
        (find_b ∷ []))
    ≡ (node_in "b" "y.go" ∷ []) ∷ []
unfolding rank_seed_requests_snapshot contains map_chars
test_ranked = refl

abbrev sets_found : Result RankError (List (SeedSet ℕ))
sets_found =
    rank_seed_requests_snapshot counts plain_letters (some no_exact) (some search_found)
      (find_b ∷ [])

abbrev value_or : {A : Type 0} → A → Result RankError A → A
value_or a (ok b) = b
value_or a (err e) = a

returned : sets_found ≡ ok (value_or [] sets_found)
unfolding rank_seed_requests_snapshot contains map_chars
returned = refl

rank_seed_requests_snapshot-AreAnswers_example :
    AreAnswers counts plain_letters (find_b ∷ []) (value_or [] sets_found)
rank_seed_requests_snapshot-AreAnswers_example =
    rank_seed_requests_snapshot-AreAnswers counts plain_letters (some no_exact) (some search_found)
      (find_b ∷ []) (value_or [] sets_found) returned
