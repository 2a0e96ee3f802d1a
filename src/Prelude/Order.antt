-- ===== src/Prelude/Order.antt =====
-- Go's `<` on strings, and `sort.Strings`.
use Prim.Native.Nat.{ℕ, Ordering, compare as compare_ℕ}
use Prim.Native.Char.{code}
use Prim.Native.String
use Prim.Native.String.compare
use Prim.Native.String.{String}
use mathlib.Core.Path.{◌≡◌, refl, ap, sym}
use mathlib.Core.Logic.{◌↔◌, ◌⊎◌}
use mathlib.Core.Bool.{Bool, true, false}
use mathlib.Core.List.{List, [], ◌∷◌}
use native.Mathlib.Omega.{arith}
use text.Mathlib.TextEquality.{path_by_compare}
use agent_wayfinder.Prelude.Tests.{if◌then◌else◌}
use agent_wayfinder.Prelude.Lists.{Has, IsDistinct}

abbrev is_lt : Ordering → Bool
is_lt Ordering.lt = true
is_lt Ordering.eq = false
is_lt Ordering.gt = false

abbrev flip : Ordering → Ordering
flip Ordering.lt = Ordering.gt
flip Ordering.eq = Ordering.eq
flip Ordering.gt = Ordering.lt

unfoldable pub less : String → String → Bool
less s t = is_lt (String.compare s t)

flip-then : (a b : Ordering) → flip (String.then a b) ≡ String.then (flip a) (flip b)
flip-then Ordering.lt b = refl
flip-then Ordering.eq b = refl
flip-then Ordering.gt b = refl

flip-compare_ℕ : (m n : ℕ) → flip (compare_ℕ m n) ≡ compare_ℕ n m
flip-compare_ℕ m n = ground arith

flip-compare : (s t : String) → flip (String.compare s t) ≡ String.compare t s
flip-compare String.[] String.[] = rw (compare.nil-nil) refl
flip-compare String.[] (String.◌∷◌ d t) = rw (compare.nil-cons d t, compare.cons-nil d t) refl
flip-compare (String.◌∷◌ c s) String.[] = rw (compare.nil-cons c s, compare.cons-nil c s) refl
flip-compare (String.◌∷◌ c s) (String.◌∷◌ d t) =
    rw
      (
        compare.cons-cons c d s t,
        compare.cons-cons d c t s,
        flip-then (compare_ℕ (code c) (code d)) (String.compare s t),
        flip-compare_ℕ (code c) (code d),
        flip-compare s t,
      )
      refl

pub less_asym : (s t : String) → less s t ≡ true → less t s ≡ false
unfolding less
less_asym s t h = go (String.compare s t) (String.compare t s) (flip-compare s t) h
  where
    go : (a b : Ordering) → flip a ≡ b → is_lt a ≡ true → is_lt b ≡ false
    go Ordering.lt b e k = rw (sym e) refl
    go Ordering.eq b e k = cc
    go Ordering.gt b e k = cc

pub less_connected : (s t : String) → less s t ≡ false → less t s ≡ false → s ≡ t
unfolding less
less_connected s t h k = go (String.compare s t) (String.compare t s) (flip-compare s t) refl h k
  where
    go :
        (a b : Ordering)
        → flip a ≡ b
        → String.compare s t ≡ a
        → is_lt a ≡ false
        → is_lt b ≡ false
        → s ≡ t
    go Ordering.lt b e c x y = cc
    go Ordering.eq b e c x y = path_by_compare s t c
    go Ordering.gt b e c x y = absurd (cc (ap is_lt e))

unfoldable pub insert_text : String → List String → List String
unfolding less
insert_text x [] = x ∷ []
insert_text x (y ∷ ys) = let rest = insert_text x ys in if less y x then y ∷ rest else x ∷ y ∷ ys

-- `sort.Strings`
unfoldable pub sort_texts : List String → List String
unfolding insert_text
sort_texts [] = []
sort_texts (x ∷ xs) = insert_text x (sort_texts xs)

-- Each text comes before the next.
abbrev pub IsAscending : List String → Type 0
IsAscending [] = Unit
IsAscending (x ∷ []) = Unit
IsAscending (x ∷ y ∷ ys) = (less x y ≡ true) × IsAscending (y ∷ ys)

pub Has-insert_text :
    (k x : String) (xs : List String) → Has k (insert_text x xs) ↔ ((k ≡ x) ⊎ Has k xs)
unfolding insert_text
Has-insert_text k x [] = ground arith
Has-insert_text k x (y ∷ ys) = ground (arith, Has-insert_text k x ys)

pub Has-sort_texts : (k : String) (xs : List String) → Has k (sort_texts xs) ↔ Has k xs
unfolding sort_texts
Has-sort_texts k [] = ground arith
Has-sort_texts k (x ∷ xs) = ground (arith, Has-insert_text k x (sort_texts xs), Has-sort_texts k xs)

insert_text-IsAscending :
    (x : String) (xs : List String) → ¬ Has x xs → IsAscending xs → IsAscending (insert_text x xs)
unfolding insert_text
insert_text-IsAscending x [] new h = tt
insert_text-IsAscending x (y ∷ []) new h = ground (arith, less_asym y x, less_connected x y)
insert_text-IsAscending x (y ∷ z ∷ zs) new h =
    ground (arith, less_asym y x, less_connected x y, insert_text-IsAscending x (z ∷ zs))

pub sort_texts-IsAscending : (xs : List String) → IsDistinct xs → IsAscending (sort_texts xs)
unfolding sort_texts
sort_texts-IsAscending [] d = tt
sort_texts-IsAscending (x ∷ xs) d =
    insert_text-IsAscending x (sort_texts xs) (λ m. d.0 ((Has-sort_texts x xs).0 m))
      (sort_texts-IsAscending xs d.1)
