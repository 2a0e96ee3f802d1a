-- ===== src/Extractor/LanguageVocabulary.antt =====
-- extractor/vocabulary.go: `NewLanguageVocabulary`.
pub mod Accepts
use Prim.Native.String
use agent_wayfinder.Prelude.{
  String, ◌==◌, List, [], ◌∷◌, ◌++◌, not, map, Result, ok, err, Check, refuse_if, check_all, wrap,
  ◌>>◌, starts_with,
}
use agent_wayfinder.Graph.{
  NodeKind, EndpointRule, RelationDefinition, VocabularyDefinition, ValidationError,
}
use agent_wayfinder.Graph.Vocabulary.{Vocabulary, new_vocabulary}

pub data LanguageError : Type 0 where
  unnamed : LanguageError
  unprefixed : NodeKind → LanguageError
  invalid : ValidationError → LanguageError

abbrev pub language_prefix : String → String
language_prefix name = String.◌++◌ name ":"

-- The endpoints from one kind to each of the others.
abbrev pub endpoints_from : NodeKind → List NodeKind → List EndpointRule
endpoints_from source kinds = map (λ kind. record { source = source; target = kind }) kinds

-- The nested loops over `declarationKinds`.
unfoldable pub endpoints_between : List NodeKind → List NodeKind → List EndpointRule
endpoints_between [] targets = []
endpoints_between (source ∷ sources) targets =
    endpoints_from source targets ++ endpoints_between sources targets

unfoldable pub declaration_endpoints : List NodeKind → List EndpointRule
unfolding endpoints_between
declaration_endpoints kinds = endpoints_from "file" kinds ++ endpoints_between kinds kinds

unfoldable pub language_definition : String → List NodeKind → VocabularyDefinition
language_definition name kinds = record {
  node_kinds = "project" ∷ "file" ∷ "symbol" ∷ kinds;
  relations =
      record { kind = "contains"; endpoints = record { source = "project"; target = "file" } ∷ [] }
      ∷ record { kind = "defines"; endpoints = declaration_endpoints kinds }
      ∷ record { kind = "references"; endpoints = declaration_endpoints kinds }
      ∷ record { kind = String.◌++◌ name ":calls"; endpoints = declaration_endpoints kinds }
      ∷ [];
}

abbrev pub invalid_result : Result ValidationError Vocabulary → Result LanguageError Vocabulary
invalid_result (ok vocabulary) = ok vocabulary
invalid_result (err e) = err (invalid e)

unfoldable pub new_language_vocabulary : String → List NodeKind → Result LanguageError Vocabulary
unfolding language_definition
new_language_vocabulary name kinds =
    refuse_if (name == "") unnamed
    >> (check_all
          (λ kind. refuse_if (not (starts_with kind (language_prefix name))) (unprefixed kind))
          kinds
        >> invalid_result (new_vocabulary (language_definition name kinds)))
