-- ===== src/Query/Find/Candidates.antt =====
-- The candidates that `FindPathSnapshot` of query/path.go names for an endpoint.
use agent_wayfinder.Prelude.{
  ℕ, zero, suc, ◌+◌, ◌-◌, ◌≡◌, ◌≢◌, ◌≤◌, List, [], ◌∷◌, ◌++◌, min, length, refl, ap, arith, nat_eq,
  if◌then◌else◌, inl, inr, Bool-cases, nat_eq_iff, subst, sym,
}
use agent_wayfinder.Graph.{Node}
use agent_wayfinder.Query.Find.{
  take, ambiguous_path_candidates, path_candidate_remainder, max_seeds_per_term,
}

take-prefix : (n : ℕ) (nodes : List Node) → (rest : List Node) × (nodes ≡ take n nodes ++ rest)
unfolding take
take-prefix zero nodes = (nodes, refl)
take-prefix (suc n) [] = ([], refl)
take-prefix (suc n) (node ∷ nodes) =
    let (rest, e) = take-prefix n nodes in (rest, ap (λ l. node ∷ l) e)

length-take : (n : ℕ) (nodes : List Node) → length (take n nodes) ≡ min n (length nodes)
unfolding take
length-take zero nodes = ground arith
length-take (suc n) [] = ground arith
length-take (suc n) (node ∷ nodes) = ground (arith, length-take n nodes)

-- For an endpoint with any number of matches but one, the candidates are the first matches, three at
-- most, and the remainder counts the other matches.
pub candidates_counted :
    (nodes : List Node)
    → length nodes ≢ 1
    → ((rest : List Node) × (nodes ≡ ambiguous_path_candidates nodes ++ rest))
      × (length (ambiguous_path_candidates nodes) ≤ 3)
      × (length (ambiguous_path_candidates nodes) + path_candidate_remainder nodes ≡ length nodes)
unfolding ambiguous_path_candidates path_candidate_remainder
candidates_counted nodes several =
    let (rest, e) = take-prefix (min (length nodes) max_seeds_per_term) nodes in
    elim (Bool-cases (nat_eq (length nodes) 1)) [
      | inl one ↦ absurd (several ((nat_eq_iff (length nodes) 1).0 one))
      | inr other ↦
          subst
            (λ b.
              ((rest : List Node) × (nodes
                  ≡ (if b then [] else take (min (length nodes) max_seeds_per_term) nodes) ++ rest))
              × (length (if b then [] else take (min (length nodes) max_seeds_per_term) nodes) ≤ 3)
              × (length (if b then [] else take (min (length nodes) max_seeds_per_term) nodes)
                    + (if b then 0 else length nodes - max_seeds_per_term)
                  ≡ length nodes))
            (sym other)
            (
              (rest, e),
              ground (arith, length-take (min (length nodes) max_seeds_per_term) nodes),
              ground (arith, length-take (min (length nodes) max_seeds_per_term) nodes),
            )
    ]
