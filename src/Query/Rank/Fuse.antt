-- ===== src/Query/Rank/Fuse.antt =====
-- query/rank.go: `fuseRankedSeeds`, which scores seeds by their ranks in each component, and
-- `seedComponentRanks`.
use agent_wayfinder.Prelude.{
  ℕ, zero, suc, ◌+◌, String, ◌==◌, List, [], ◌∷◌, Bool, not, nat_eq, if◌then◌else◌, Option, none,
  some,
}
use agent_wayfinder.Prelude.Order.{less}
use agent_wayfinder.Query.Rank.{Scores, SeedScoreComponents, RankedSeed}

module _ {S : Type 0} (scores : Scores S) where
  abbrev pub Seeds : Type 0
  Seeds = List (RankedSeed S)

  -- A seed of `indexes`: its place among the candidates, its value and its node's ID.
  pub record Place : Type 0 where
    pub index : ℕ
    pub value : S
    pub id : String

  -- `seedComponentValues`, with the places.
  unfoldable pub places : (SeedScoreComponents S → S) → ℕ → Seeds → List Place
  places value index [] = []
  places value index (seed ∷ seeds) =
      record { index = index; value = value seed.components; id = seed.node.id }
      ∷ places value (suc index) seeds

  unfoldable pub place_less : Place → Place → Bool
  unfolding less
  place_less left right =
      if not (scores.is_same left.value right.value)
      then scores.is_below right.value left.value
      else less left.id right.id

  -- `sort.SliceStable` of the places.
  unfoldable pub insert_place : Place → List Place → List Place
  unfolding place_less
  insert_place place [] = place ∷ []
  insert_place place (other ∷ others) =
      let rest = insert_place place others in
      if place_less other place then other ∷ rest else place ∷ other ∷ others

  unfoldable pub sort_places : List Place → List Place
  unfolding insert_place
  sort_places [] = []
  sort_places (place ∷ others) = insert_place place (sort_places others)

  abbrev pub rank_from : Option (S × ℕ) → ℕ → S → ℕ
  rank_from none position value = suc position
  rank_from (some (previous, rank)) position value =
      if scores.is_same value previous then rank else suc position

  abbrev pub rank_of : Option (S × ℕ) → ℕ → S → ℕ
  rank_of previous position value =
      if not (scores.is_below scores.nought value) then 0 else rank_from previous position value

  -- The loop that fills `ranks`, as pairs of an index and a rank; 0 is no rank.
  unfoldable pub rank_places : Option (S × ℕ) → ℕ → List Place → List (ℕ × ℕ)
  rank_places previous position [] = []
  rank_places previous position (place ∷ others) =
      let rank = rank_of previous position place.value in
      (place.index, rank) ∷ rank_places (some (place.value, rank)) (suc position) others

  unfoldable pub seed_component_ranks : (SeedScoreComponents S → S) → Seeds → List (ℕ × ℕ)
  unfolding places sort_places rank_places
  seed_component_ranks value seeds = rank_places none 0 (sort_places (places value 0 seeds))

  -- `ranks[index]`
  abbrev pub rank_at : ℕ → List (ℕ × ℕ) → ℕ
  rank_at index [] = 0
  rank_at index ((other, rank) ∷ ranks) = if nat_eq other index then rank else rank_at index ranks

  abbrev pub with_rank : ℕ → SeedScoreComponents S → SeedScoreComponents S
  with_rank zero components = components
  with_rank (suc rank) components = record components {
    reciprocal_rank =
        scores.add components.reciprocal_rank
          (scores.div scores.one (scores.of_count (60 + suc rank)));
  }

  -- The loop over the ranks of a component.
  unfoldable pub add_ranks : ℕ → List (ℕ × ℕ) → Seeds → Seeds
  add_ranks index ranks [] = []
  add_ranks index ranks (seed ∷ seeds) =
      record seed { components = with_rank (rank_at index ranks) seed.components }
      ∷ add_ranks (suc index) ranks seeds

  -- The values of all components are read before any rank is added.
  unfoldable pub add_all_ranks : List (List (ℕ × ℕ)) → Seeds → Seeds
  unfolding add_ranks
  add_all_ranks [] seeds = seeds
  add_all_ranks (ranks ∷ rest) seeds = add_all_ranks rest (add_ranks 0 ranks seeds)

  abbrev pub maximum_lexical : S → Seeds → S
  maximum_lexical greatest [] = greatest
  maximum_lexical greatest (seed ∷ seeds) =
      maximum_lexical (scores.greatest greatest seed.components.lexical) seeds

  unfoldable pub divide_lexical : S → Seeds → Seeds
  divide_lexical greatest [] = []
  divide_lexical greatest (seed ∷ seeds) =
      record seed {
        components = record seed.components {
          lexical = scores.div seed.components.lexical greatest;
        };
      }
      ∷ divide_lexical greatest seeds

  unfoldable pub add_scores : Seeds → Seeds
  add_scores [] = []
  add_scores (seed ∷ seeds) =
      record seed { score = scores.add seed.components.exact seed.components.reciprocal_rank }
      ∷ add_scores seeds

  unfoldable pub seed_less : RankedSeed S → RankedSeed S → Bool
  unfolding less
  seed_less left right =
      if not (scores.is_same left.score right.score)
      then scores.is_below right.score left.score
      else if not (left.node.qualified_name == right.node.qualified_name)
      then less left.node.qualified_name right.node.qualified_name
      else if not (left.node.label == right.node.label)
      then less left.node.label right.node.label
      else less left.node.id right.node.id

  -- `sort.SliceStable` of the seeds.
  unfoldable pub insert_seed : RankedSeed S → Seeds → Seeds
  unfolding seed_less
  insert_seed seed [] = seed ∷ []
  insert_seed seed (other ∷ others) =
      let rest = insert_seed seed others in
      if seed_less other seed then other ∷ rest else seed ∷ other ∷ others

  unfoldable pub sort_seeds : Seeds → Seeds
  unfolding insert_seed
  sort_seeds [] = []
  sort_seeds (seed ∷ seeds) = insert_seed seed (sort_seeds seeds)

  -- `componentValues`, each with the ranks of its values.
  abbrev pub component_ranks : Seeds → List (List (ℕ × ℕ))
  component_ranks seeds =
      seed_component_ranks (λ c. c.exact) seeds
      ∷ seed_component_ranks (λ c. c.lexical) seeds
      ∷ seed_component_ranks (λ c. c.entity_role) seeds
      ∷ seed_component_ranks (λ c. c.node_kind) seeds
      ∷ seed_component_ranks (λ c. c.project_scope) seeds
      ∷ seed_component_ranks (λ c. c.path_affinity) seeds
      ∷ seed_component_ranks (λ c. c.token_coverage) seeds
      ∷ []

  unfoldable pub fuse_ranked_seeds : Seeds → Seeds
  unfolding seed_component_ranks add_all_ranks divide_lexical add_scores sort_seeds
  fuse_ranked_seeds seeds =
      let greatest = maximum_lexical scores.nought seeds in
      let divided =
        if scores.is_below scores.nought greatest then divide_lexical greatest seeds else seeds in
      sort_seeds (add_scores (add_all_ranks (component_ranks divided) divided))
