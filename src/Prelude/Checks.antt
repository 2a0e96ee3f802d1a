-- ===== src/Prelude/Checks.antt =====
-- Checks in sequence, each with an early return, and loops of them.
use mathlib.Core.Path.{◌≡◌, refl}
use mathlib.Core.Logic.{◌↔◌, ◌≢◌}
use mathlib.Core.Bool.{Bool, true, false}
use mathlib.Core.List.{List, [], ◌∷◌}
use native.Mathlib.Omega.{arith}
use Prim.Native.String.{String}
use text.Mathlib.Text.{◌==◌}
use text.Mathlib.TextEquality.{eq_iff}
use agent_wayfinder.Prelude.Results.{Result, ok, err, ◌>>◌}
use agent_wayfinder.Prelude.Lists.{All}

abbrev pub Check : Type 0 → Type 0
Check E = Result E (Unit {0})

-- `if b { return e }`
abbrev pub refuse_if : {E : Type 0} → Bool → E → Check E
refuse_if true e = err e
refuse_if false e = ok tt

-- `for _, x := range xs { … }`
abbrev pub check_all : {E A : Type 0} → (A → Check E) → List A → Check E
check_all check [] = ok tt
check_all check (x ∷ xs) = check x >> check_all check xs

pub refuse_if_iff : {E : Type 0} (b : Bool) (e : E) → (refuse_if b e ≡ ok tt) ↔ (b ≡ false)
refuse_if_iff true e = (λ h. cc, λ h. cc)
refuse_if_iff false e = (λ _. refl, λ _. refl)

pub >>_iff : {E : Type 0} (m k : Check E) → ((m >> k) ≡ ok tt) ↔ ((m ≡ ok tt) × (k ≡ ok tt))
>>_iff (ok tt) k = (λ h. (refl, h), λ h. h.1)
>>_iff (err e) k = (λ h. cc, λ h. cc h.0)

pub check_all_iff :
    {E A : Type 0} (check : A → Check E) (P : A → Type 0)
    → ((x : A) → (check x ≡ ok tt) ↔ P x)
    → (xs : List A) → (check_all check xs ≡ ok tt) ↔ All P xs
check_all_iff check P each [] = (λ _. tt, λ _. refl)
check_all_iff check P each (x ∷ xs) =
    let (both, join) = >>_iff (check x) (check_all check xs) in
    let (to, from) = check_all_iff check P each xs in
    (λ h. ((each x).0 (both h).0, to (both h).1), λ (p, ps). join ((each x).1 p, from ps))

-- An error that another one wraps.
abbrev pub wrap : {E F : Type 0} → (E → F) → Check E → Check F
wrap f (ok tt) = ok tt
wrap f (err e) = err (f e)

pub wrap_iff :
    {E F : Type 0} (f : E → F) (check : Check E) → (wrap f check ≡ ok tt) ↔ (check ≡ ok tt)
wrap_iff f (ok tt) = (λ _. refl, λ _. refl)
wrap_iff f (err e) = (λ h. cc, λ h. cc)

-- The check that refuses an empty text.
pub filled_iff :
    {E : Type 0} (e : E) (text : String) → (refuse_if (text == "") e ≡ ok tt) ↔ (text ≢ "")
filled_iff e text = ground (arith, eq_iff text "")

pub >>-eq-ok :
    {E A : Type 0} (m : Check E) (k : Result E A) {a : A} → m ≡ ok tt → k ≡ ok a → (m >> k) ≡ ok a
>>-eq-ok (ok tt) k h e = e
>>-eq-ok (err x) k h e = cc h
