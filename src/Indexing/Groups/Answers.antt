-- ===== src/Indexing/Groups/Answers.antt =====
-- What the resolvers of index/index.go answer to the groups, and the diagnostics of the sources.
use agent_wayfinder.Prelude.{
  String, List, [], ◌∷◌, map, some, lookup, Result, err, ◌++◌, Option-cases, ◌≡◌, inl, inr, refl,
  ap,
}
use agent_wayfinder.Indexing.{ExtractedSource, IndexError, unsupported_resolver, Resolution}
use agent_wayfinder.Indexing.Languages.{Languages, IndexLanguage}
use agent_wayfinder.Indexing.Groups.{resolve_with, source_diagnostics}
use agent_wayfinder.Extractor.{Contribution, Diagnostic}
use agent_wayfinder.Indexing.Pages.Joined.{Answers}
use agent_wayfinder.Indexing.Groups.Grouping.{contributions_in}

abbrev pub resolve_one :
    Languages → String → List ExtractedSource → String × String → Result IndexError Resolution
resolve_one languages root sources pair =
    resolve_with (lookup pair.1 languages) root pair.0 pair.1
      (contributions_in pair.0 pair.1 sources)

-- The resolver of a language.
abbrev pub HasResolver :
    Languages
    → String
    → (String → String → List Contribution → Result IndexError Resolution)
    → Type 0
HasResolver languages language resolve =
    (definition : IndexLanguage) × (lookup language languages ≡ some definition)
    × (definition.resolve_workspace ≡ some resolve)

-- The answer for a project and a language: that of the language's resolver to all its contributions of the
-- project, or an error where the language has none.
pub record IsAnswer (languages : Languages) (root : String) (sources : List ExtractedSource)
    (pair : String × String) (answer : Result IndexError Resolution) : Type 0 where
  pub resolved :
      (resolve : String → String → List Contribution → Result IndexError Resolution)
      → HasResolver languages pair.1 resolve
      → answer ≡ resolve root pair.0 (contributions_in pair.0 pair.1 sources)
  pub unsupported :
      (¬ (
        (resolve : String → String → List Contribution → Result IndexError Resolution) × HasResolver
          languages pair.1 resolve))
      → answer ≡ err (unsupported_resolver pair.1)

abbrev pub AreAnswers :
    Languages → String → List ExtractedSource → List (String × String) → Answers → Type 0
AreAnswers languages root sources [] [] = Unit
AreAnswers languages root sources [] (answer ∷ answers) = ⊥
AreAnswers languages root sources (pair ∷ pairs) [] = ⊥
AreAnswers languages root sources (pair ∷ pairs) (answer ∷ answers) =
    IsAnswer languages root sources pair answer × AreAnswers languages root sources pairs answers

resolve_one-IsAnswer :
    (languages : Languages) (root : String) (sources : List ExtractedSource)
    (pair : String × String)
    → IsAnswer languages root sources pair (resolve_one languages root sources pair)
resolve_one-IsAnswer languages root sources pair = record {
  resolved = λ resolve (definition, found, has). rw (found, has) refl;
  unsupported = λ nothing. elim (Option-cases (lookup pair.1 languages)) [
    | inl e ↦ rw e refl
    | inr (definition, e) ↦ elim (Option-cases definition.resolve_workspace) [
      | inl n ↦ rw (e, n) refl
      | inr (resolve, n) ↦ absurd (nothing (resolve, (definition, e, n)))
    ]
  ];
}

pub resolve_one-AreAnswers :
    (languages : Languages) (root : String) (sources : List ExtractedSource)
    (pairs : List (String × String))
    → AreAnswers languages root sources pairs (map (resolve_one languages root sources) pairs)
resolve_one-AreAnswers languages root sources [] = tt
resolve_one-AreAnswers languages root sources (pair ∷ pairs) = (
  resolve_one-IsAnswer languages root sources pair,
  resolve_one-AreAnswers languages root sources pairs,
)

-- The diagnostics of the sources, in their order.
abbrev pub diagnostics_in : List ExtractedSource → List Diagnostic
diagnostics_in [] = []
diagnostics_in (source ∷ sources) = source.contribution.diagnostics ++ diagnostics_in sources

pub source_diagnostics-diagnostics_in :
    (sources : List ExtractedSource) → source_diagnostics sources ≡ diagnostics_in sources
unfolding source_diagnostics
source_diagnostics-diagnostics_in [] = refl
source_diagnostics-diagnostics_in (source ∷ sources) =
    ap (λ (ds : List Diagnostic). source.contribution.diagnostics ++ ds)
      (source_diagnostics-diagnostics_in sources)
