-- ===== src/Extractor/PageIndex/Repeats.antt =====
-- A request that the page index of extractor/page_resolver_index.go has answered has this answer
-- from then on.
use agent_wayfinder.Prelude.{
  eq_iff, eq_refl, List, [], ◌∷◌, Bool, true, false, ◌≡◌, inl, inr, refl, sym, subst, Option, none,
  some, Option-cases, arith, ap, Bool-cases,
}
use agent_wayfinder.Prelude.Int.{eq_ℤ_iff}
use agent_wayfinder.Extractor.PageIndex.{
  PageResolverIndex, ResolverTargetRequest, ResolverPackagePageRequest, TargetResult, PackageResult,
  Call, target_call, package_call, same_target, same_package, remembered, answer_target,
  answer_package, resolver_target, resolver_package_page, run,
}

-- What is remembered of a key stays when an unknown key is put in front.
remembered-cons :
    {K R : Type 0} (same : K → K → Bool) (key other : K) (result answer : R) (table : List (K × R))
    → ((a b : K) → same a b ≡ true → a ≡ b)
    → remembered same key table ≡ some result
    → remembered same other table ≡ none
    → remembered same key ((other, answer) ∷ table) ≡ some result
unfolding remembered
remembered-cons same key other result answer table exact h new =
    elim (Bool-cases (same other key)) [
      | inl e ↦
          absurd
            (ground (arith, h, subst (λ k. remembered same k table ≡ none) (exact other key e) new))
      | inr e ↦ ground (arith, e, h)
    ]

same_target_exact : (a b : ResolverTargetRequest) → same_target a b ≡ true → a ≡ b
same_target_exact a b h = ground (
  arith,
  eq_iff a.project_id b.project_id,
  eq_iff a.language b.language,
  eq_iff a.source_path b.source_path,
)

same_package_exact : (a b : ResolverPackagePageRequest) → same_package a b ≡ true → a ≡ b
same_package_exact a b h = ground (
  arith,
  eq_iff a.project_id b.project_id,
  eq_iff a.language b.language,
  eq_iff a.package_path b.package_path,
  eq_iff a.after_source_path b.after_source_path,
  eq_ℤ_iff a.limit b.limit,
)

same_target_refl : (a : ResolverTargetRequest) → same_target a a ≡ true
same_target_refl a = ground (arith, eq_refl a.project_id, eq_refl a.language, eq_refl a.source_path)

same_package_refl : (a : ResolverPackagePageRequest) → same_package a a ≡ true
same_package_refl a = ground (
  arith,
  eq_refl a.project_id,
  eq_refl a.language,
  eq_refl a.package_path,
  eq_refl a.after_source_path,
  (eq_ℤ_iff a.limit a.limit).1 refl,
)

abbrev KnowsTarget : PageResolverIndex → ResolverTargetRequest → TargetResult → Type 0
KnowsTarget index request result = remembered same_target request index.targets ≡ some result

abbrev KnowsPackage : PageResolverIndex → ResolverPackagePageRequest → PackageResult → Type 0
KnowsPackage index request result = remembered same_package request index.packages ≡ some result

target-KnowsTarget :
    (index : PageResolverIndex) (other : ResolverTargetRequest) (answer : TargetResult)
    (request : ResolverTargetRequest) (result : TargetResult)
    → KnowsTarget index request result
    → KnowsTarget (resolver_target index other answer).0 request result
unfolding resolver_target answer_target
target-KnowsTarget index other answer request result h =
    elim (Option-cases (remembered same_target other index.targets)) [
      | inl e ↦
          subst (λ o. KnowsTarget (answer_target index other answer o).0 request result) (sym e)
            (remembered-cons same_target request other result answer index.targets same_target_exact
              h e)
      | inr (r, e) ↦
          subst (λ o. KnowsTarget (answer_target index other answer o).0 request result) (sym e) h
    ]

package-KnowsPackage :
    (index : PageResolverIndex) (other : ResolverPackagePageRequest) (answer : PackageResult)
    (request : ResolverPackagePageRequest) (result : PackageResult)
    → KnowsPackage index request result
    → KnowsPackage (resolver_package_page index other answer).0 request result
unfolding resolver_package_page answer_package
package-KnowsPackage index other answer request result h =
    elim (Option-cases (remembered same_package other index.packages)) [
      | inl e ↦
          subst (λ o. KnowsPackage (answer_package index other answer o).0 request result) (sym e)
            (remembered-cons same_package request other result answer index.packages
              same_package_exact h e)
      | inr (r, e) ↦
          subst (λ o. KnowsPackage (answer_package index other answer o).0 request result) (sym e) h
    ]

-- A call of the one method leaves what the other remembers.
package-targets :
    (index : PageResolverIndex) (other : ResolverPackagePageRequest) (answer : PackageResult)
    → (resolver_package_page index other answer).0.targets ≡ index.targets
unfolding resolver_package_page answer_package
package-targets index other answer = go (remembered same_package other index.packages)
  where
    go :
        (o : Option PackageResult) → (answer_package index other answer o).0.targets ≡ index.targets
    go none = refl
    go (some r) = refl

target-packages :
    (index : PageResolverIndex) (other : ResolverTargetRequest) (answer : TargetResult)
    → (resolver_target index other answer).0.packages ≡ index.packages
unfolding resolver_target answer_target
target-packages index other answer = go (remembered same_target other index.targets)
  where
    go :
        (o : Option TargetResult) → (answer_target index other answer o).0.packages ≡ index.packages
    go none = refl
    go (some r) = refl

run-KnowsTarget :
    (index : PageResolverIndex) (calls : List Call) (request : ResolverTargetRequest)
    (result : TargetResult)
    → KnowsTarget index request result
    → KnowsTarget (run index calls) request result
unfolding run
run-KnowsTarget index [] request result h = h
run-KnowsTarget index (target_call other answer ∷ calls) request result h =
    run-KnowsTarget (resolver_target index other answer).0 calls request result
      (target-KnowsTarget index other answer request result h)
run-KnowsTarget index (package_call other answer ∷ calls) request result h =
    run-KnowsTarget (resolver_package_page index other answer).0 calls request result (
      subst (λ t. remembered same_target request t ≡ some result)
        (sym (package-targets index other answer)) h)

run-KnowsPackage :
    (index : PageResolverIndex) (calls : List Call) (request : ResolverPackagePageRequest)
    (result : PackageResult)
    → KnowsPackage index request result
    → KnowsPackage (run index calls) request result
unfolding run
run-KnowsPackage index [] request result h = h
run-KnowsPackage index (package_call other answer ∷ calls) request result h =
    run-KnowsPackage (resolver_package_page index other answer).0 calls request result
      (package-KnowsPackage index other answer request result h)
run-KnowsPackage index (target_call other answer ∷ calls) request result h =
    run-KnowsPackage (resolver_target index other answer).0 calls request result (
      subst (λ t. remembered same_package request t ≡ some result)
        (sym (target-packages index other answer)) h)

called-KnowsTarget :
    (index : PageResolverIndex) (request : ResolverTargetRequest) (answer : TargetResult)
    → KnowsTarget
        (resolver_target index request answer).0
        request
        (resolver_target index request answer).1
unfolding resolver_target answer_target remembered
called-KnowsTarget index request answer =
    elim (Option-cases (remembered same_target request index.targets)) [
      | inl e ↦
          subst
            (λ o.
              KnowsTarget (answer_target index request answer o).0 request
                (answer_target index request answer o).1)
            (sym e) (ground (arith, same_target_refl request))
      | inr (r, e) ↦
          subst
            (λ o.
              KnowsTarget (answer_target index request answer o).0 request
                (answer_target index request answer o).1)
            (sym e) e
    ]

called-KnowsPackage :
    (index : PageResolverIndex) (request : ResolverPackagePageRequest) (answer : PackageResult)
    → KnowsPackage
        (resolver_package_page index request answer).0
        request
        (resolver_package_page index request answer).1
unfolding resolver_package_page answer_package remembered
called-KnowsPackage index request answer =
    elim (Option-cases (remembered same_package request index.packages)) [
      | inl e ↦
          subst
            (λ o.
              KnowsPackage (answer_package index request answer o).0 request
                (answer_package index request answer o).1)
            (sym e) (ground (arith, same_package_refl request))
      | inr (r, e) ↦
          subst
            (λ o.
              KnowsPackage (answer_package index request answer o).0 request
                (answer_package index request answer o).1)
            (sym e) e
    ]

-- After a call of `ResolverTarget` and any calls of either method, a call of `ResolverTarget` with
-- the same request has the same result, errors included, without asking the resolver index, and
-- changes nothing; and the same holds of `ResolverPackagePage`.
pub page_index_repeats :
    (index : PageResolverIndex) (calls : List Call) (request : ResolverTargetRequest)
    (first now : TargetResult) (page : ResolverPackagePageRequest)
    (first_page page_now : PackageResult)
    → (let s = resolver_target index request first in
        resolver_target (run s.0 calls) request now ≡ (run s.0 calls, s.1, false))
      × (let s = resolver_package_page index page first_page in
          resolver_package_page (run s.0 calls) page page_now ≡ (run s.0 calls, s.1, false))
unfolding resolver_target resolver_package_page answer_target answer_package
page_index_repeats index calls request first now page first_page page_now =
    let s = resolver_target index request first in
    let t = resolver_package_page index page first_page in
    (
      ap (answer_target (run s.0 calls) request now)
          (run-KnowsTarget s.0 calls request s.1 (called-KnowsTarget index request first)),
      ap (answer_package (run t.0 calls) page page_now)
          (run-KnowsPackage t.0 calls page t.1 (called-KnowsPackage index page first_page)),
    )
