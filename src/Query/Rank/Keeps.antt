-- ===== src/Query/Rank/Keeps.antt =====
-- What `fuseRankedSeeds` and `preferExactSourceLabel` of query/rank.go keep: the nodes of the seeds.
use agent_wayfinder.Prelude.{ℕ, suc, String, List, [], ◌∷◌, if◌then◌else◌, if_elim, is_empty, All}
use agent_wayfinder.Graph.{Node}
use agent_wayfinder.Query.Rank.{Scores, RankedSeed}
use agent_wayfinder.Query.Rank.Texts.{Letters, equal_fold}
use agent_wayfinder.Query.Rank.Fuse.{
  add_ranks, add_all_ranks, component_ranks, maximum_lexical, divide_lexical, add_scores, seed_less,
  insert_seed, sort_seeds, fuse_ranked_seeds,
}
use agent_wayfinder.Query.Rank.Diversify.{matching_label, prefer_exact_source_label}

module _ {S : Type 0} (scores : Scores S) (P : Node → Type 0) where
  -- The nodes of all seeds satisfy `P`.
  abbrev pub AllNodes : List (RankedSeed S) → Type 0
  AllNodes seeds = All (λ (seed : RankedSeed S). P seed.node) seeds

  divide_lexical-AllNodes :
      (greatest : S) (seeds : List (RankedSeed S))
      → AllNodes seeds
      → AllNodes (divide_lexical scores greatest seeds)
  unfolding divide_lexical
  divide_lexical-AllNodes greatest [] h = tt
  divide_lexical-AllNodes greatest (seed ∷ seeds) h =
      (h.0, divide_lexical-AllNodes greatest seeds h.1)

  add_ranks-AllNodes :
      (index : ℕ) (ranks : List (ℕ × ℕ)) (seeds : List (RankedSeed S))
      → AllNodes seeds
      → AllNodes (add_ranks scores index ranks seeds)
  unfolding add_ranks
  add_ranks-AllNodes index ranks [] h = tt
  add_ranks-AllNodes index ranks (seed ∷ seeds) h =
      (h.0, add_ranks-AllNodes (suc index) ranks seeds h.1)

  add_all_ranks-AllNodes :
      (table : List (List (ℕ × ℕ))) (seeds : List (RankedSeed S))
      → AllNodes seeds
      → AllNodes (add_all_ranks scores table seeds)
  unfolding add_all_ranks
  add_all_ranks-AllNodes [] seeds h = h
  add_all_ranks-AllNodes (ranks ∷ table) seeds h =
      add_all_ranks-AllNodes table (add_ranks scores 0 ranks seeds)
        (add_ranks-AllNodes 0 ranks seeds h)

  add_scores-AllNodes :
      (seeds : List (RankedSeed S)) → AllNodes seeds → AllNodes (add_scores scores seeds)
  unfolding add_scores
  add_scores-AllNodes [] h = tt
  add_scores-AllNodes (seed ∷ seeds) h = (h.0, add_scores-AllNodes seeds h.1)

  insert_seed-AllNodes :
      (seed : RankedSeed S) (seeds : List (RankedSeed S))
      → P seed.node
      → AllNodes seeds
      → AllNodes (insert_seed scores seed seeds)
  unfolding insert_seed
  insert_seed-AllNodes seed [] p h = (p, tt)
  insert_seed-AllNodes seed (other ∷ others) p h =
      if_elim AllNodes (seed_less scores other seed)
        (λ _. (h.0, insert_seed-AllNodes seed others p h.1)) (λ _. (p, h))

  sort_seeds-AllNodes :
      (seeds : List (RankedSeed S)) → AllNodes seeds → AllNodes (sort_seeds scores seeds)
  unfolding sort_seeds
  sort_seeds-AllNodes [] h = tt
  sort_seeds-AllNodes (seed ∷ seeds) h =
      insert_seed-AllNodes seed (sort_seeds scores seeds) h.0 (sort_seeds-AllNodes seeds h.1)

  pub fuse_ranked_seeds-AllNodes :
      (seeds : List (RankedSeed S)) → AllNodes seeds → AllNodes (fuse_ranked_seeds scores seeds)
  unfolding fuse_ranked_seeds
  fuse_ranked_seeds-AllNodes seeds h =
      let greatest = maximum_lexical scores scores.nought seeds in
      let divided =
        if scores.is_below scores.nought greatest
        then divide_lexical scores greatest seeds
        else seeds in
      let all : AllNodes divided =
        if_elim AllNodes (scores.is_below scores.nought greatest)
          (λ _. divide_lexical-AllNodes greatest seeds h) (λ _. h) in
      let ranked = add_all_ranks scores (component_ranks scores divided) divided in
      sort_seeds-AllNodes (add_scores scores ranked) (
        add_scores-AllNodes ranked
          (add_all_ranks-AllNodes (component_ranks scores divided) divided all))

  matching_label-AllNodes :
      (letters : Letters) (text : String) (seeds : List (RankedSeed S))
      → AllNodes seeds
      → AllNodes (matching_label letters text seeds)
  unfolding matching_label
  matching_label-AllNodes letters text [] h = tt
  matching_label-AllNodes letters text (seed ∷ seeds) h =
      if_elim AllNodes (equal_fold letters seed.node.label text)
        (λ _. (h.0, matching_label-AllNodes letters text seeds h.1))
        (λ _. matching_label-AllNodes letters text seeds h.1)

  pub prefer_exact_source_label-AllNodes :
      (letters : Letters) (seeds : List (RankedSeed S)) (text : String)
      → AllNodes seeds
      → AllNodes (prefer_exact_source_label letters seeds text)
  unfolding prefer_exact_source_label
  prefer_exact_source_label-AllNodes letters seeds text h =
      if_elim AllNodes (is_empty (matching_label letters text seeds)) (λ _. h)
        (λ _. matching_label-AllNodes letters text seeds h)
