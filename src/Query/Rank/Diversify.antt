-- ===== src/Query/Rank/Diversify.antt =====
-- query/rank.go: `diversifyRankedSeeds`, which selects seeds of distinct nodes, one of each file first,
-- and `preferExactSourceLabel`.
pub mod Selects
pub mod Exact
use agent_wayfinder.Prelude.{
  ℕ, String, ◌==◌, List, [], ◌∷◌, ◌++◌, Bool, true, false, ◌&&◌, nat_eq, if◌then◌else◌, contains,
  is_empty, length,
}
use agent_wayfinder.Query.Rank.{RankedSeed}
use agent_wayfinder.Query.Rank.Texts.{Letters, equal_fold}

-- The variables of the first loop.
pub record Selection (S : Type 0) : Type 0 where
  pub selected : List (RankedSeed S)
  pub deferred : List (RankedSeed S)
  pub seen_nodes : List String
  pub seen_paths : List String

module _ {S : Type 0} where
  abbrev pub path_of : RankedSeed S → String
  path_of candidate = candidate.node.evidence.span.path

  -- A round of the loop, and whether it selects the candidate.
  unfoldable pub select : RankedSeed S → Selection S → Selection S × Bool
  select candidate s =
      if contains s.seen_nodes candidate.node.id
      then (s, false)
      else if contains s.seen_paths (path_of candidate)
      then (
        record s {
          deferred = s.deferred ++ candidate ∷ [];
          seen_nodes = candidate.node.id ∷ s.seen_nodes;
        },
        false,
      )
      else (
        record {
          selected = s.selected ++ candidate ∷ [];
          deferred = s.deferred;
          seen_nodes = candidate.node.id ∷ s.seen_nodes;
          seen_paths = path_of candidate ∷ s.seen_paths;
        },
        true,
      )

  -- The loop over the candidates, and whether it returns early.
  unfoldable pub select_all : ℕ → List (RankedSeed S) → Selection S → Selection S × Bool
  unfolding select
  select_all limit [] s = (s, false)
  select_all limit (candidate ∷ candidates) s =
      let (next, selects) = select candidate s in
      elim (selects && nat_eq (length next.selected) limit) [
        | true ↦ (next, true)
        | false ↦ select_all limit candidates next
      ]

  -- The loop over the deferred ones.
  unfoldable pub add_deferred : ℕ → List (RankedSeed S) → List (RankedSeed S) → List (RankedSeed S)
  add_deferred limit [] selected = selected
  add_deferred limit (candidate ∷ deferred) selected =
      let next = selected ++ candidate ∷ [] in
      elim (nat_eq (length next) limit) [ true ↦ next | false ↦ add_deferred limit deferred next ]

  abbrev pub finish : ℕ → Selection S × Bool → List (RankedSeed S)
  finish limit (s, true) = s.selected
  finish limit (s, false) = add_deferred limit s.deferred s.selected

  abbrev pub nothing_selected : Selection S
  nothing_selected = record { selected = []; deferred = []; seen_nodes = []; seen_paths = [] }

  unfoldable pub diversify_ranked_seeds : List (RankedSeed S) → ℕ → List (RankedSeed S)
  unfolding select_all add_deferred
  diversify_ranked_seeds candidates limit =
      finish limit (select_all limit candidates nothing_selected)

  unfoldable pub matching_label : Letters → String → List (RankedSeed S) → List (RankedSeed S)
  matching_label letters text [] = []
  matching_label letters text (candidate ∷ candidates) =
      if equal_fold letters candidate.node.label text
      then candidate ∷ matching_label letters text candidates
      else matching_label letters text candidates

  unfoldable pub prefer_exact_source_label :
      Letters → List (RankedSeed S) → String → List (RankedSeed S)
  unfolding matching_label
  prefer_exact_source_label letters candidates text =
      let matching = matching_label letters text candidates in
      if is_empty matching then candidates else matching
