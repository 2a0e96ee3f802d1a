-- ===== src/Indexer/EventPath/Unique.antt =====
-- What `uniquePaths` of indexer/queue.go returns.
use agent_wayfinder.Prelude.{
  String, List, [], ◌∷◌, ◌++◌, ◌≡◌, ◌↔◌, ◌⊎◌, inl, inr, refl, ap, eq_iff, All-fresh, arith, Has,
  IsDistinct, All, All-Has, contains, contains_iff, Bool-cases,
}
use agent_wayfinder.Indexer.EventPath.{unique_from, unique_paths}

Has-unique_from :
    (seen xs : List String) (p : String) → Has p (unique_from seen xs) ↔ (Has p xs × (¬ Has p seen))
unfolding unique_from
Has-unique_from seen [] p = ground arith
Has-unique_from seen (x ∷ xs) p = elim (Bool-cases (contains seen x)) [
  | inl known ↦
      rw known
        (ground (arith, contains_iff seen x, Has-unique_from seen xs p, ap (λ s. Has s seen)))
  | inr new ↦
      rw new (ground (arith, contains_iff seen x, Has-unique_from (x ∷ seen) xs p, eq_iff p x))
]

IsDistinct-unique_from : (seen xs : List String) → IsDistinct (unique_from seen xs)
unfolding unique_from
IsDistinct-unique_from seen [] = tt
IsDistinct-unique_from seen (x ∷ xs) = ground (
  arith,
  IsDistinct-unique_from seen xs,
  IsDistinct-unique_from (x ∷ seen) xs,
  Has-unique_from (x ∷ seen) xs x,
)

-- What the loop has seen behind `xs`.
abbrev onto : List String → List String → List String
onto [] seen = seen
onto (x ∷ xs) seen = onto xs (x ∷ seen)

Has-onto : (p : String) (xs seen : List String) → Has p (onto xs seen) ↔ (Has p xs ⊎ Has p seen)
Has-onto p [] seen = ground arith
Has-onto p (x ∷ xs) seen = ground (arith, Has-onto p xs (x ∷ seen))

unique_from-append :
    (seen xs ys : List String)
    → IsDistinct xs
    → All (λ x. ¬ Has x seen) xs
    → unique_from seen (xs ++ ys) ≡ xs ++ unique_from (onto xs seen) ys
unfolding unique_from
unique_from-append seen [] ys d f = refl
unique_from-append seen (x ∷ xs) ys d f = ground (
  arith,
  contains_iff seen x,
  unique_from-append (x ∷ seen) xs ys d.1 ((All-fresh x seen xs).1 (f.1, d.0)),
)

-- The result has each path once, and the same paths.
pub IsDistinct-unique_paths : (xs : List String) → IsDistinct (unique_paths xs)
unfolding unique_paths
IsDistinct-unique_paths xs = IsDistinct-unique_from [] xs

pub Has-unique_paths : (xs : List String) (p : String) → Has p (unique_paths xs) ↔ Has p xs
unfolding unique_paths
Has-unique_paths xs p = ground (arith, Has-unique_from [] xs p)

-- Distinct paths at the front stay in front, in their order, and of the paths behind them those
-- follow that are not among them.
pub unique_paths-append :
    (xs ys : List String)
    → IsDistinct xs
    → (rest : List String) × (unique_paths (xs ++ ys) ≡ xs ++ rest)
      × ((p : String) → Has p rest ↔ (Has p ys × (¬ Has p xs)))
unfolding unique_paths
unique_paths-append xs ys d = (
  unique_from (onto xs []) ys,
  unique_from-append [] xs ys d (All-Has (λ x. ¬ Has x []) xs (λ a m h. h)),
  λ p. ground (arith, Has-unique_from (onto xs []) ys p, Has-onto p xs []),
)
