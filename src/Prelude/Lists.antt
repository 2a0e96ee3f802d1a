-- ===== src/Prelude/Lists.antt =====
-- Lists under native indices, and the two predicates by recursion that the invariants use.
use Prim.Native.Nat.{ℕ, suc, ◌+◌}
use Prim.Native.String.{String}
use mathlib.Core.Path.{◌≡◌, refl, ap, sym, subst}
use mathlib.Core.Logic.{◌↔◌, ◌≢◌, ◌⊎◌, inl, inr}
use mathlib.Core.Bool.{Bool, true, false, ◌||◌}
use mathlib.Core.Option.{Option, none, some}
use mathlib.Core.List.{List, [], ◌∷◌, ◌++◌}
use native.Mathlib.Omega.{arith}
use text.Mathlib.Text.{◌==◌}
use text.Mathlib.TextEquality.{eq_iff}
use agent_wayfinder.Prelude.Tests.{if◌then◌else◌}

module _ {ℓ} {A : Type ℓ} where
  abbrev pub length : List A → ℕ
  length [] = 0
  length (x ∷ xs) = suc (length xs)

  pub length-append : (xs ys : List A) → length (xs ++ ys) ≡ length xs + length ys
  length-append [] ys = omega arith
  length-append (x ∷ xs) ys = omega (arith, length-append xs ys)

-- `⊥` stands in `Type 0`, and so do the elements here.
module _ {A : Type 0} where
  -- `Has a xs`: `a` occurs in `xs`. It computes to a sum, which the tactics split.
  abbrev pub Has : A → List A → Type 0
  Has a [] = ⊥
  Has a (x ∷ xs) = (a ≡ x) ⊎ Has a xs

  abbrev pub IsDistinct : List A → Type 0
  IsDistinct [] = Unit
  IsDistinct (x ∷ xs) = (¬ Has x xs) × IsDistinct xs

  pub Has-append : (a : A) (xs ys : List A) → Has a (xs ++ ys) ↔ (Has a xs ⊎ Has a ys)
  Has-append a [] ys = ground arith
  Has-append a (x ∷ xs) ys = ground (arith, Has-append a xs ys)

module _ {ℓ κ} {A : Type ℓ} where
  -- `All Q as`: each element satisfies `Q`.
  abbrev pub All : (A → Type κ) → List A → Type κ
  All Q [] = Unit
  All Q (a ∷ rest) = Q a × All Q rest

pub All-Has {κ} :
    {A : Type 0} (P : A → Type κ) (xs : List A) → ((a : A) → Has a xs → P a) → All P xs
All-Has P [] h = tt
All-Has P (x ∷ xs) h = (h x (inl refl), All-Has P xs (λ a m. h a (inr m)))

-- A Go `map[string]struct{}`: the keys in the order of their insertion.
unfoldable pub contains : List String → String → Bool
contains [] k = false
contains (x ∷ xs) k = x == k || contains xs k

pub contains_iff : (xs : List String) (k : String) → (contains xs k ≡ true) ↔ Has k xs
unfolding contains
contains_iff [] k = ground arith
contains_iff (x ∷ xs) k = ground (arith, eq_iff x k, contains_iff xs k)

-- A Go `map[string]V`, as an association list: `lookup` is `m[k]` with its `found` flag, `insert` is
-- `m[k] = v`, and `delete` is `delete(m, k)`.
module _ {ℓ} {V : Type ℓ} where
  unfoldable pub delete : String → List (String × V) → List (String × V)
  delete key [] = []
  delete key (entry ∷ entries) =
      let rest = delete key entries in if entry.0 == key then rest else entry ∷ rest

  unfoldable pub insert : String → V → List (String × V) → List (String × V)
  insert key value [] = (key, value) ∷ []
  insert key value (entry ∷ entries) =
      if entry.0 == key then (key, value) ∷ entries else entry ∷ insert key value entries

  unfoldable pub lookup : String → List (String × V) → Option V
  lookup key [] = none
  lookup key (entry ∷ entries) = if entry.0 == key then some entry.1 else lookup key entries

  pub lookup-delete :
      (key other : String) (entries : List (String × V))
      → lookup other (delete key entries) ≡ (if key == other then none else lookup other entries)
  unfolding lookup delete
  lookup-delete key other [] = ground arith
  lookup-delete key other ((name, value) ∷ entries) =
      ground (
        arith,
        eq_iff name other,
        eq_iff name key,
        eq_iff key other,
        lookup-delete key other entries,
      )

  pub lookup-insert :
      (key other : String) (value : V) (entries : List (String × V))
      → lookup other (insert key value entries)
        ≡ (if key == other then some value else lookup other entries)
  unfolding lookup insert
  lookup-insert key other value [] = refl
  lookup-insert key other value ((name, old) ∷ entries) = ground (
    arith,
    eq_iff name other,
    eq_iff name key,
    eq_iff key other,
    lookup-insert key other value entries,
  )

abbrev pub is_found {ℓ} : {A : Type ℓ} → Option A → Bool
is_found none = false
is_found (some a) = true

abbrev pub is_empty {ℓ} : {A : Type ℓ} → List A → Bool
is_empty [] = true
is_empty (x ∷ xs) = false

module _ {V : Type 0} where
  abbrev pub keys : List (String × V) → List String
  keys [] = []
  keys ((k, v) ∷ m) = k ∷ keys m

  pub lookup_found_iff :
      (k : String) (m : List (String × V)) → (is_found (lookup k m) ≡ true) ↔ Has k (keys m)
  unfolding lookup
  lookup_found_iff k [] = ground arith
  lookup_found_iff k ((j, v) ∷ m) = ground (arith, eq_iff j k, lookup_found_iff k m)

  pub lookup-Has : (k : String) (v : V) (m : List (String × V)) → lookup k m ≡ some v → Has (k, v) m
  unfolding lookup
  lookup-Has k v [] h = cc
  lookup-Has k v ((j, w) ∷ m) h = ground (arith, eq_iff j k, lookup-Has k v m)

  pub Has-keys : (k : String) (v : V) (m : List (String × V)) → Has (k, v) m → Has k (keys m)
  Has-keys k v [] h = h
  Has-keys k v ((j, w) ∷ m) (inl e) = inl (ap (λ p. p.0) e)
  Has-keys k v ((j, w) ∷ m) (inr h) = inr (Has-keys k v m h)

  pub lookup_of_Has :
      (k : String) (v : V) (m : List (String × V))
      → IsDistinct (keys m)
      → Has (k, v) m
      → lookup k m ≡ some v
  unfolding lookup
  lookup_of_Has k v [] d h = absurd h
  lookup_of_Has k v ((j, w) ∷ m) d (inl e) =
      ground (arith, eq_iff j k, ap (λ (p : String × V). p.0) e, ap (λ (p : String × V). p.1) e)
  lookup_of_Has k v ((j, w) ∷ m) d (inr h) =
      ground (arith, eq_iff j k, Has-keys k v m h, lookup_of_Has k v m d.1 h)

-- Keys are new against `x ∷ seen` exactly if they are new against `seen` and none of them is `x`.
pub All-fresh :
    {A : Type 0} (x : A) (seen xs : List A)
    → All (λ k. ¬ Has k (x ∷ seen)) xs ↔ (All (λ k. ¬ Has k seen) xs × (¬ Has x xs))
All-fresh x seen [] = ground arith
All-fresh x seen (y ∷ xs) = ground (arith, All-fresh x seen xs)

-- `Any P xs`: some element satisfies `P`.
abbrev pub Any {ℓ} : {A : Type ℓ} → (A → Type 0) → List A → Type 0
Any P [] = ⊥
Any P (x ∷ xs) = P x ⊎ Any P xs

pub All-map {ℓ κ ι} :
    {A : Type ℓ} (P : A → Type κ) (Q : A → Type ι) (xs : List A)
    → ((a : A) → P a → Q a)
    → All P xs
    → All Q xs
All-map P Q [] f h = tt
All-map P Q (x ∷ xs) f h = (f x h.0, All-map P Q xs f h.1)

pub All_of_Has {κ} : {A : Type 0} (P : A → Type κ) (xs : List A) (a : A) → All P xs → Has a xs → P a
All_of_Has P [] a h m = absurd m
All_of_Has P (x ∷ xs) a h (inl e) = subst P (sym e) h.0
All_of_Has P (x ∷ xs) a h (inr m) = All_of_Has P xs a h.1 m

pub IsDistinct-append :
    (xs ys : List String)
    → IsDistinct xs
    → IsDistinct ys
    → ((x : String) → Has x xs → ¬ Has x ys)
    → IsDistinct (xs ++ ys)
IsDistinct-append [] ys dx dy apart = dy
IsDistinct-append (x ∷ xs) ys dx dy apart = (
  λ h. elim ((Has-append x xs ys).0 h) [ inl m ↦ dx.0 m | inr m ↦ apart x (inl refl) m ],
  IsDistinct-append xs ys dx.1 dy (λ y m. apart y (inr m)),
)

module _ {V : Type 0} where
  pub Has-keys-insert :
      (k j : String) (v : V) (m : List (String × V))
      → Has j (keys (insert k v m)) ↔ ((j ≡ k) ⊎ Has j (keys m))
  unfolding insert
  Has-keys-insert k j v [] = ground arith
  Has-keys-insert k j v ((i, w) ∷ m) = ground (arith, eq_iff i k, Has-keys-insert k j v m)

  pub insert-IsDistinct :
      (k : String) (v : V) (m : List (String × V))
      → IsDistinct (keys m)
      → IsDistinct (keys (insert k v m))
  unfolding insert
  insert-IsDistinct k v [] d = (λ h. h, tt)
  insert-IsDistinct k v ((i, w) ∷ m) d =
      ground (arith, eq_iff i k, Has-keys-insert k i v m, insert-IsDistinct k v m d.1)

module _ {V : Type 0} where
  pub Has-keys-delete :
      (k j : String) (m : List (String × V))
      → Has j (keys (delete k m)) ↔ (Has j (keys m) × (j ≢ k))
  unfolding delete
  Has-keys-delete k j [] = ground arith
  Has-keys-delete k j ((i, w) ∷ m) = ground (arith, eq_iff i k, Has-keys-delete k j m)

  pub delete-IsDistinct :
      (k : String) (m : List (String × V)) → IsDistinct (keys m) → IsDistinct (keys (delete k m))
  unfolding delete
  delete-IsDistinct k [] d = tt
  delete-IsDistinct k ((i, w) ∷ m) d =
      ground (arith, eq_iff i k, Has-keys-delete k i m, delete-IsDistinct k m d.1)

-- One more element, at the end.
pub Has-last : (k x : String) (xs : List String) → Has k (xs ++ x ∷ []) ↔ (Has k xs ⊎ (k ≡ x))
Has-last k x xs = ground (arith, Has-append k xs (x ∷ []))

pub last-IsDistinct :
    (x : String) (xs : List String) → ¬ Has x xs → IsDistinct xs → IsDistinct (xs ++ x ∷ [])
last-IsDistinct x xs new d =
    IsDistinct-append xs (x ∷ []) d ((λ m. m), tt)
      (λ y m k. elim k [ inl e ↦ new (subst (λ z. Has z xs) e m) | inr nothing ↦ nothing ])
