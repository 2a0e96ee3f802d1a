-- ===== src/Query/Rank/Seeds.antt =====
-- query/rank.go: `RankSnapshot`, `RankRetrievalsSnapshot`, `RankSeedRequestsSnapshot` and
-- `ExplainSnapshot`. The lookups, the search and the explanations of the store are parameters, at the
-- context and the snapshot of the call.
pub mod Answers
use agent_wayfinder.Prelude.{
  ℕ, zero, suc, ◌-◌, String, ◌==◌, List, [], ◌∷◌, Bool, not, ◌||◌, if◌then◌else◌, Option, none,
  some, map, is_empty, length, Result, ok, err, ◌>>=◌,
}
use agent_wayfinder.Prelude.Int.{ℤ, pos, negsuc, pos_part, ltb_ℤ, double64}
use agent_wayfinder.Graph.{Node}
use agent_wayfinder.Query.Find.{NodeMatch, NodeLookup, max_seeds_per_term, take}
use agent_wayfinder.Query.Rank.{
  LexicalSearchRequest, LexicalMatch, SeedRequest, Scores, SeedScoreComponents, SeedRanking,
  SeedSet, RankedSeed,
}
use agent_wayfinder.Query.Rank.Texts.{Letters}
use agent_wayfinder.Query.Rank.Fit.{
  seed_role_fit, seed_entity_role_fit, seed_kind_fit, seed_project_scope_fit, seed_label_exactness,
  seed_text_coverage, seed_token_coverage,
}
use agent_wayfinder.Query.Rank.Fuse.{fuse_ranked_seeds}
use agent_wayfinder.Query.Rank.Diversify.{diversify_ranked_seeds, prefer_exact_source_label}

pub data RankError : Type 0 where
  lookup_required explainer_required text_and_limit_required : RankError
  store_failed : String → RankError

abbrev pub from_store : {A : Type 0} → Result String A → Result RankError A
from_store (ok a) = ok a
from_store (err e) = err (store_failed e)

-- `matches[:n]`, for an `n` that is at most the length.
unfoldable pub first_matches : ℕ → List NodeMatch → List NodeMatch
first_matches zero matches = []
first_matches (suc n) [] = []
first_matches (suc n) (match ∷ matches) = match ∷ first_matches n matches

unfoldable pub lookup_exact_matches : NodeLookup → String → ℕ → Result String (List NodeMatch)
unfolding first_matches
lookup_exact_matches lookup text limit = elim lookup.lookup_exact_nodes [
  | none ↦ ok []
  | some lookup_exact ↦ lookup_exact text >>= λ matches. ok (first_matches limit matches)
]

abbrev pub exact_or :
    ℕ → Result String (List NodeMatch) → List NodeMatch → Result String (List NodeMatch)
exact_or limit other [] = other
exact_or limit other (match ∷ matches) = ok (first_matches limit (match ∷ matches))

unfoldable pub lookup_term_matches : NodeLookup → String → ℕ → Result String (List NodeMatch)
unfolding first_matches
lookup_term_matches lookup term limit =
    let by_text =
      lookup.lookup_nodes (record { text = term; kinds = []; project_ids = []; limit = limit }) in
    elim lookup.lookup_exact_nodes [
      | none ↦ by_text
      | some lookup_exact ↦ lookup_exact term >>= exact_or limit by_text
    ]

abbrev pub match_nodes : List NodeMatch → List Node
match_nodes matches = map (λ (match : NodeMatch). match.node) matches

-- `storage.LexicalSearcher`
abbrev pub Searcher : Type 0 → Type 0
Searcher S = LexicalSearchRequest → Result String (List (LexicalMatch S))

-- A request without a text or a positive limit.
abbrev pub is_refused : LexicalSearchRequest → Bool
is_refused request = request.text == "" || not (ltb_ℤ (pos 0) request.limit)

module _ {S : Type 0} where
  abbrev pub plain_set : String → List Node → SeedSet S
  plain_set term nodes = record { role = ""; term = term; nodes = nodes; rankings = [] }

  -- The loop over the terms.
  unfoldable pub rank_terms : NodeLookup → List String → Result RankError (List (SeedSet S))
  unfolding lookup_term_matches
  rank_terms lookup [] = ok []
  rank_terms lookup (term ∷ terms) = do
    matches ← from_store (lookup_term_matches lookup term max_seeds_per_term)
    rest ← rank_terms lookup terms
    ok (plain_set term (match_nodes matches) ∷ rest)

  unfoldable pub rank_snapshot :
      Option NodeLookup → List String → Result RankError (List (SeedSet S))
  unfolding rank_terms
  rank_snapshot none terms = err lookup_required
  rank_snapshot (some lookup) terms = rank_terms lookup terms

  abbrev pub lexical_nodes : List (LexicalMatch S) → List Node
  lexical_nodes matches = map (λ (match : LexicalMatch S). match.node) matches

  abbrev pub nodes_or_search :
      Searcher S → LexicalSearchRequest → List NodeMatch → Result RankError (List Node)
  nodes_or_search searcher request [] = do
    matches ← from_store (searcher request)
    ok (lexical_nodes matches)
  nodes_or_search searcher request (match ∷ matches) = ok (match_nodes (match ∷ matches))

  -- The loop over the requests.
  unfoldable pub rank_retrievals :
      NodeLookup → Searcher S → List LexicalSearchRequest → Result RankError (List (SeedSet S))
  unfolding lookup_exact_matches
  rank_retrievals lookup searcher [] = ok []
  rank_retrievals lookup searcher (request ∷ requests) =
      let rest = rank_retrievals lookup searcher requests in
      if is_refused request
      then err text_and_limit_required
      else (from_store (lookup_exact_matches lookup request.text (pos_part request.limit))
          >>= λ matches. nodes_or_search searcher request matches >>= λ nodes.
              rest >>= λ seeds. ok (plain_set request.text nodes ∷ seeds))

  unfoldable pub rank_retrievals_snapshot :
      Option NodeLookup
      → Option (Searcher S)
      → List LexicalSearchRequest
      → Result RankError (List (SeedSet S))
  unfolding rank_retrievals
  rank_retrievals_snapshot none searcher requests = err lookup_required
  rank_retrievals_snapshot (some lookup) none requests = err lookup_required
  rank_retrievals_snapshot (some lookup) (some searcher) requests =
      rank_retrievals lookup searcher requests

abbrev pub matches_source_path : Node → String → Bool
matches_source_path node path = path == "" || node.evidence.span.path == path

module _ {S : Type 0} (scores : Scores S) (letters : Letters) where
  abbrev pub zero_components : SeedScoreComponents S
  zero_components = record {
    exact = scores.nought;
    lexical = scores.nought;
    entity_role = scores.nought;
    node_kind = scores.nought;
    project_scope = scores.nought;
    path_affinity = scores.nought;
    token_coverage = scores.nought;
    reciprocal_rank = scores.nought;
  }

  abbrev pub exact_seed : Node → RankedSeed S
  exact_seed node = record {
    node = node;
    score = scores.one;
    components = record zero_components { exact = scores.one; reciprocal_rank = scores.one };
  }

  -- The exact matches, those of the source path only.
  unfoldable pub exact_seeds : String → List NodeMatch → List (RankedSeed S)
  exact_seeds path [] = []
  exact_seeds path (match ∷ matches) =
      if matches_source_path match.node path
      then exact_seed match.node ∷ exact_seeds path matches
      else exact_seeds path matches

  unfoldable pub lexical_seed : SeedRequest → LexicalMatch S → RankedSeed S
  unfolding seed_role_fit seed_entity_role_fit seed_kind_fit seed_project_scope_fit
      seed_label_exactness seed_text_coverage seed_token_coverage
  lexical_seed seed_request match =
      let request = seed_request.retrieval in
      let kind = match.node.kind in
      record {
        node = match.node;
        score = scores.nought;
        components = record {
          exact = seed_label_exactness scores request match.node;
          lexical = match.score;
          entity_role =
              scores.greatest (seed_role_fit scores seed_request.role kind)
                (seed_entity_role_fit scores seed_request.entity_role kind);
          node_kind = seed_kind_fit scores request.kinds kind;
          project_scope = seed_project_scope_fit scores request.project_ids;
          path_affinity = seed_text_coverage scores letters request match.node.evidence.span.path;
          token_coverage = seed_token_coverage scores letters request match.node;
          reciprocal_rank = scores.nought;
        };
      }

  unfoldable pub lexical_seeds : SeedRequest → List (LexicalMatch S) → List (RankedSeed S)
  unfolding lexical_seed
  lexical_seeds seed_request [] = []
  lexical_seeds seed_request (match ∷ matches) =
      if matches_source_path match.node seed_request.retrieval.source_path
      then lexical_seed seed_request match ∷ lexical_seeds seed_request matches
      else lexical_seeds seed_request matches

  -- `candidateRequest.Limit *= questionCandidateMultiplier`, which is 4.
  unfoldable pub candidate_request : LexicalSearchRequest → LexicalSearchRequest
  unfolding double64
  candidate_request request = record request { limit = double64 (double64 request.limit) }

  abbrev pub ranked_or_search :
      Searcher S → SeedRequest → List (RankedSeed S) → Result RankError (List (RankedSeed S))
  ranked_or_search searcher seed_request [] = do
    matches ← from_store (searcher (candidate_request seed_request.retrieval))
    ok (fuse_ranked_seeds scores (lexical_seeds seed_request matches))
  ranked_or_search searcher seed_request (seed ∷ seeds) = ok (seed ∷ seeds)

  unfoldable pub select_seeds : LexicalSearchRequest → List (RankedSeed S) → List (RankedSeed S)
  unfolding prefer_exact_source_label diversify_ranked_seeds
  select_seeds request ranked =
      diversify_ranked_seeds
        (if request.source_path == ""
          then ranked
          else prefer_exact_source_label letters ranked request.text)
        (pos_part request.limit)

  abbrev pub ranking_of : RankedSeed S → SeedRanking S
  ranking_of seed = record {
    node_id = seed.node.id;
    score = seed.score;
    components = seed.components;
  }

  abbrev pub set_of : SeedRequest → List (RankedSeed S) → SeedSet S
  set_of seed_request seeds = record {
    role = seed_request.role;
    term = seed_request.retrieval.text;
    nodes = map (λ (seed : RankedSeed S). seed.node) seeds;
    rankings = map ranking_of seeds;
  }

  -- A round of the loop over the requests.
  unfoldable pub rank_seed_request :
      NodeLookup → Searcher S → SeedRequest → Result RankError (SeedSet S)
  unfolding lookup_exact_matches exact_seeds lexical_seeds candidate_request fuse_ranked_seeds
      select_seeds
  rank_seed_request lookup searcher seed_request =
      let request = seed_request.retrieval in
      if is_refused request
      then err text_and_limit_required
      else (from_store (lookup_exact_matches lookup request.text (pos_part request.limit))
          >>= λ matches.
              ranked_or_search searcher seed_request (exact_seeds request.source_path matches)
              >>= λ ranked. ok (set_of seed_request (select_seeds request ranked)))

  unfoldable pub rank_seed_requests :
      NodeLookup → Searcher S → List SeedRequest → Result RankError (List (SeedSet S))
  unfolding rank_seed_request
  rank_seed_requests lookup searcher [] = ok []
  rank_seed_requests lookup searcher (request ∷ requests) = do
    seeds ← rank_seed_request lookup searcher request
    rest ← rank_seed_requests lookup searcher requests
    ok (seeds ∷ rest)

  unfoldable pub rank_seed_requests_snapshot :
      Option NodeLookup
      → Option (Searcher S)
      → List SeedRequest
      → Result RankError (List (SeedSet S))
  unfolding rank_seed_requests
  rank_seed_requests_snapshot none searcher requests = err lookup_required
  rank_seed_requests_snapshot (some lookup) none requests = err lookup_required
  rank_seed_requests_snapshot (some lookup) (some searcher) requests =
      rank_seed_requests lookup searcher requests

-- `ExplainResult`; `Explanation` is of any type.
pub record ExplainResult (X : Type 0) : Type 0 where
  pub candidates : List Node
  pub remainder_count : ℕ
  pub explanation : Option X

module _ {X : Type 0} where
  -- From the candidates on.
  unfoldable pub explain_candidates :
      (String → Result String X) → List Node → Result RankError (ExplainResult X)
  explain_candidates explain (node ∷ []) = do
    explanation ← from_store (explain node.id)
    ok (record { candidates = []; remainder_count = 0; explanation = some explanation })
  explain_candidates explain candidates = ok (record {
    candidates = take max_seeds_per_term candidates;
    remainder_count = length candidates - max_seeds_per_term;
    explanation = none;
  })

  unfoldable pub explain_snapshot :
      Option NodeLookup
      → Option (String → Result String X)
      → String
      → Result RankError (ExplainResult X)
  unfolding lookup_term_matches explain_candidates
  explain_snapshot lookup none term = err explainer_required
  explain_snapshot none (some explain) term = err lookup_required
  explain_snapshot (some lookup) (some explain) term = do
    matches ← from_store (lookup_term_matches lookup term (suc max_seeds_per_term))
    explain_candidates explain (match_nodes matches)
