-- ===== src/Extractor/Registry/Tables.antt =====
-- Tables to which entries with new, distinct keys are added.
use agent_wayfinder.Prelude.{
  String, eq_iff, List, [], ◌∷◌, ◌++◌, none, some, lookup, insert, lookup-insert, keys, Has,
  IsDistinct, All, ◌≡◌, ◌↔◌, refl, ◌∙◌, arith,
}

module _ {V : Type 0} where
  -- The entries can be added: their keys are new and distinct.
  abbrev pub AreNew : List (String × V) → List (String × V) → Type 0
  AreNew table listed =
      All (λ (k : String). lookup k table ≡ none) (keys listed) × IsDistinct (keys listed)

  abbrev pub insert_all : List (String × V) → List (String × V) → List (String × V)
  insert_all table [] = table
  insert_all table ((k, e) ∷ listed) = insert_all (insert k e table) listed

  pub new_keys_iff :
      (n : String) (e : V) (table : List (String × V)) (ks : List String)
      → All (λ (k : String). lookup k (insert n e table) ≡ none) ks
        ↔ (All (λ (k : String). lookup k table ≡ none) ks × (¬ Has n ks))
  new_keys_iff n e table [] = ground arith
  new_keys_iff n e table (k ∷ ks) =
      ground (arith, lookup-insert n k e table, eq_iff n k, new_keys_iff n e table ks)

  pub AreNew-insert :
      (n : String) (e : V) (table listed : List (String × V))
      → AreNew table ((n, e) ∷ listed)
        ↔ ((lookup n table ≡ none) × AreNew (insert n e table) listed)
  AreNew-insert n e table listed = ground (arith, new_keys_iff n e table (keys listed))

  pub AreNew-append :
      (xs ys table : List (String × V))
      → AreNew table (xs ++ ys) ↔ (AreNew table xs × AreNew (insert_all table xs) ys)
  AreNew-append [] ys table = ground arith
  AreNew-append ((n, e) ∷ xs) ys table = ground (
    arith,
    AreNew-insert n e table (xs ++ ys),
    AreNew-insert n e table xs,
    AreNew-append xs ys (insert n e table),
  )

  pub insert_all-append :
      (xs ys table : List (String × V))
      → insert_all table (xs ++ ys) ≡ insert_all (insert_all table xs) ys
  insert_all-append [] ys table = refl
  insert_all-append ((n, e) ∷ xs) ys table = insert_all-append xs ys (insert n e table)

  pub lookup-insert_all :
      (k : String) (table listed : List (String × V))
      → AreNew table listed
      → lookup k (insert_all table listed)
        ≡ elim (lookup k table) [ none ↦ lookup k listed | some e ↦ some e ]
  unfolding lookup
  lookup-insert_all k table [] new = ground arith
  lookup-insert_all k table ((n, e) ∷ listed) new =
      let (fresh, rest) = (AreNew-insert n e table listed).0 new in
      lookup-insert_all k (insert n e table) listed rest
      ∙ ground (arith, lookup-insert n k e table, eq_iff n k)

pub empty_has_none :
    (V : Type 0) (ks : List String) → All (λ (k : String). lookup {V = V} k [] ≡ none) ks
unfolding lookup
empty_has_none V [] = tt
empty_has_none V (k ∷ ks) = (refl, empty_has_none V ks)
