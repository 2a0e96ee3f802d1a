-- ===== src/Query/Rank/Seeds/Answers.antt =====
-- What `RankSeedRequestsSnapshot` of query/rank.go answers.
use agent_wayfinder.Prelude.{
  ◌<◌, ◌≤◌, String, ◌==◌, eq_iff, List, [], ◌∷◌, true, false, if◌then◌else◌, if_elim, if_true,
  if_false, map, length, IsDistinct, All, All_of_Has, All-Has, Option, none, some, ok, >>=-eq-ok,
  ok_same, Bool-cases, ◌≡◌, ◌≢◌, inl, inr, refl, sym, ◌∙◌, ap, subst, arith,
}
use agent_wayfinder.Prelude.Int.{pos_part}
use agent_wayfinder.Graph.{Node}
use agent_wayfinder.Query.Find.{NodeMatch, NodeLookup}
use agent_wayfinder.Query.Rank.{
  LexicalSearchRequest, LexicalMatch, SeedRequest, SeedSet, Scores, RankedSeed,
}
use agent_wayfinder.Query.Rank.Texts.{Letters}
use agent_wayfinder.Query.Rank.Fuse.{fuse_ranked_seeds}
use agent_wayfinder.Query.Rank.Keeps.{
  AllNodes, fuse_ranked_seeds-AllNodes, prefer_exact_source_label-AllNodes,
}
use agent_wayfinder.Query.Rank.Diversify.{diversify_ranked_seeds, prefer_exact_source_label}
use agent_wayfinder.Query.Rank.Diversify.Selects.{ids}
use agent_wayfinder.Query.Rank.Diversify.Exact.{diversify_ranked_seeds-AreDiverse}
use agent_wayfinder.Query.Rank.Seeds.{
  from_store, Searcher, is_refused, matches_source_path, lookup_exact_matches, exact_seeds,
  lexical_seeds, candidate_request, ranked_or_search, select_seeds, set_of, rank_seed_request,
  rank_seed_requests, rank_seed_requests_snapshot,
}

abbrev pub node_ids : List Node → List String
node_ids [] = []
node_ids (node ∷ nodes) = node.id ∷ node_ids nodes

-- A node that a request with a source path asks for.
abbrev pub IsLocated : LexicalSearchRequest → Node → Type 0
IsLocated request node = request.source_path ≢ "" → node.evidence.span.path ≡ request.source_path

module _ {S : Type 0} (scores : Scores S) (letters : Letters) where
  -- A set of seeds that answers a request.
  pub record IsAnswer (request : SeedRequest) (seeds : SeedSet S) : Type 0 where
    pub asked : (request.retrieval.text ≢ "") × (0 < pos_part request.retrieval.limit)
    pub role : seeds.role ≡ request.role
    pub term : seeds.term ≡ request.retrieval.text
    pub bounded : length seeds.nodes ≤ pos_part request.retrieval.limit
    pub nodes_once : IsDistinct (node_ids seeds.nodes)
    pub located : All (IsLocated request.retrieval) seeds.nodes

  abbrev pub AreAnswers : List SeedRequest → List (SeedSet S) → Type 0
  AreAnswers [] [] = Unit
  AreAnswers [] (s ∷ sets) = ⊥
  AreAnswers (r ∷ requests) [] = ⊥
  AreAnswers (r ∷ requests) (s ∷ sets) = IsAnswer r s × AreAnswers requests sets

  on_path :
      (request : LexicalSearchRequest) (node : Node)
      → matches_source_path node request.source_path ≡ true
      → IsLocated request node
  on_path request node t filled =
      ground
        (arith, eq_iff request.source_path "", eq_iff node.evidence.span.path request.source_path)

  exact_seeds-AllNodes :
      (request : LexicalSearchRequest) (matches : List NodeMatch)
      → AllNodes scores (IsLocated request) (exact_seeds scores letters request.source_path matches)
  unfolding exact_seeds
  exact_seeds-AllNodes request [] = tt
  exact_seeds-AllNodes request (match ∷ matches) =
      if_elim (AllNodes scores (IsLocated request))
        (matches_source_path match.node request.source_path)
        (λ t. (on_path request match.node t, exact_seeds-AllNodes request matches))
        (λ _. exact_seeds-AllNodes request matches)

  lexical_seeds-AllNodes :
      (request : SeedRequest) (matches : List (LexicalMatch S))
      → AllNodes scores (IsLocated request.retrieval) (lexical_seeds scores letters request matches)
  unfolding lexical_seeds
  lexical_seeds-AllNodes request [] = tt
  lexical_seeds-AllNodes request (match ∷ matches) =
      if_elim (AllNodes scores (IsLocated request.retrieval))
        (matches_source_path match.node request.retrieval.source_path)
        (λ t. (on_path request.retrieval match.node t, lexical_seeds-AllNodes request matches))
        (λ _. lexical_seeds-AllNodes request matches)

  ranked_or_search-AllNodes :
      (searcher : Searcher S) (request : SeedRequest) (seeds ranked : List (RankedSeed S))
      → AllNodes scores (IsLocated request.retrieval) seeds
      → ranked_or_search scores letters searcher request seeds ≡ ok ranked
      → AllNodes scores (IsLocated request.retrieval) ranked
  ranked_or_search-AllNodes searcher request [] ranked all e =
      let (matches, _, last) =
        >>=-eq-ok (from_store (searcher (candidate_request scores letters request.retrieval))) _
          e in
      let found = lexical_seeds scores letters request matches in
      subst (AllNodes scores (IsLocated request.retrieval))
        (ok_same (fuse_ranked_seeds scores found) ranked last)
        (fuse_ranked_seeds-AllNodes scores (IsLocated request.retrieval) found
          (lexical_seeds-AllNodes request matches))
  ranked_or_search-AllNodes searcher request (seed ∷ seeds) ranked all e =
      subst (AllNodes scores (IsLocated request.retrieval)) (ok_same (seed ∷ seeds) ranked e) all

  node_ids-map :
      (seeds : List (RankedSeed S))
      → node_ids (map (λ (s : RankedSeed S). s.node) seeds) ≡ ids seeds
  node_ids-map [] = refl
  node_ids-map (s ∷ seeds) = ap (λ (l : List String). s.node.id ∷ l) (node_ids-map seeds)

  length-map :
      (seeds : List (RankedSeed S))
      → length (map (λ (s : RankedSeed S). s.node) seeds) ≡ length seeds
  length-map [] = refl
  length-map (s ∷ seeds) = omega (arith, length-map seeds)

  All-map_nodes :
      (P : Node → Type 0) (seeds : List (RankedSeed S))
      → AllNodes scores P seeds
      → All P (map (λ (s : RankedSeed S). s.node) seeds)
  All-map_nodes P [] h = tt
  All-map_nodes P (s ∷ seeds) h = (h.0, All-map_nodes P seeds h.1)

  set_of-IsAnswer :
      (request : SeedRequest) (ranked : List (RankedSeed S))
      → is_refused request.retrieval ≡ false
      → AllNodes scores (IsLocated request.retrieval) ranked
      → IsAnswer request
          (set_of scores letters request (select_seeds scores letters request.retrieval ranked))
  unfolding select_seeds
  set_of-IsAnswer request ranked accepted all =
      let P = IsLocated request.retrieval in
      let limit = pos_part request.retrieval.limit in
      let text = request.retrieval.text in
      let source_path = request.retrieval.source_path in
      let preferred =
        if source_path == "" then ranked else prefer_exact_source_label letters ranked text in
      let kept : AllNodes scores P preferred =
        if_elim (AllNodes scores P) (source_path == "") (λ _. all)
          (λ _. prefer_exact_source_label-AllNodes scores P letters ranked text all) in
      let positive : 0 < limit = ground (arith, accepted) in
      let seeds = diversify_ranked_seeds preferred limit in
      let diverse = diversify_ranked_seeds-AreDiverse preferred limit positive in
      record {
        asked = (ground (arith, accepted, eq_iff text ""), positive);
        role = refl;
        term = refl;
        bounded = omega (arith, diverse.bounded, length-map seeds);
        nodes_once = subst IsDistinct (sym (node_ids-map seeds)) diverse.nodes_once;
        located = All-map_nodes P seeds (
            All-Has (λ (s : RankedSeed S). P s.node) seeds
              (λ s m.
                All_of_Has (λ (s : RankedSeed S). P s.node) preferred s kept (diverse.among s m)));
      }

  rank_seed_request-IsAnswer :
      (lookup : NodeLookup) (searcher : Searcher S) (request : SeedRequest) (seeds : SeedSet S)
      → rank_seed_request scores letters lookup searcher request ≡ ok seeds
      → IsAnswer request seeds
  unfolding rank_seed_request
  rank_seed_request-IsAnswer lookup searcher request seeds e =
      elim (Bool-cases (is_refused request.retrieval)) [
        | inl t ↦ absurd (cc (sym (if_true (is_refused request.retrieval) _ _ t) ∙ e))
        | inr f ↦
            let (matches, _, h1) =
              >>=-eq-ok
                (from_store (
                  lookup_exact_matches lookup request.retrieval.text
                    (pos_part request.retrieval.limit)))
                _ (sym (if_false (is_refused request.retrieval) _ _ f) ∙ e) in
            let retrieval = request.retrieval in
            let found = exact_seeds scores letters retrieval.source_path matches in
            let (ranked, chosen, last) =
              >>=-eq-ok (ranked_or_search scores letters searcher request found) _ h1 in
            subst (IsAnswer request)
              (ok_same
                (set_of scores letters request (select_seeds scores letters retrieval ranked)) seeds
                last)
              (set_of-IsAnswer request ranked f (
                ranked_or_search-AllNodes searcher request found ranked
                  (exact_seeds-AllNodes retrieval matches) chosen))
      ]

  rank_seed_requests-AreAnswers :
      (lookup : NodeLookup) (searcher : Searcher S) (requests : List SeedRequest)
      (sets : List (SeedSet S))
      → rank_seed_requests scores letters lookup searcher requests ≡ ok sets
      → AreAnswers requests sets
  unfolding rank_seed_requests
  rank_seed_requests-AreAnswers lookup searcher [] sets e =
      subst (AreAnswers []) (ok_same [] sets e) tt
  rank_seed_requests-AreAnswers lookup searcher (request ∷ requests) sets e =
      let (seeds, first, h1) =
        >>=-eq-ok (rank_seed_request scores letters lookup searcher request) _ e in
      let (rest, others, last) =
        >>=-eq-ok (rank_seed_requests scores letters lookup searcher requests) _ h1 in
      subst (AreAnswers (request ∷ requests)) (ok_same (seeds ∷ rest) sets last) (
        rank_seed_request-IsAnswer lookup searcher request seeds first,
        rank_seed_requests-AreAnswers lookup searcher requests rest others,
      )

  -- Where `RankSeedRequestsSnapshot` returns, there is one set of seeds for each request, in their order,
  -- and each request has a text and a positive limit. Its set has the request's role and text, as many
  -- nodes as the limit at most, no node twice, and nodes of the request's source path only, if it has one.
  pub rank_seed_requests_snapshot-AreAnswers :
      (lookup : Option NodeLookup) (searcher : Option (Searcher S)) (requests : List SeedRequest)
      (sets : List (SeedSet S))
      → rank_seed_requests_snapshot scores letters lookup searcher requests ≡ ok sets
      → AreAnswers requests sets
  unfolding rank_seed_requests_snapshot
  rank_seed_requests_snapshot-AreAnswers none searcher requests sets e = absurd (cc e)
  rank_seed_requests_snapshot-AreAnswers (some lookup) none requests sets e = absurd (cc e)
  rank_seed_requests_snapshot-AreAnswers (some lookup) (some searcher) requests sets e =
      rank_seed_requests-AreAnswers lookup searcher requests sets e
