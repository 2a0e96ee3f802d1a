-- ===== src/Extractor/Registry.antt =====
-- extractors/registry/registry.go: the extractors by the extensions of the files that they read.
pub mod Tables
pub mod Accepts
use agent_wayfinder.Prelude.{
  String, List, [], ◌∷◌, ◌++◌, Option, none, some, lookup, insert, Result, ok, err, wrap, ◌>>◌,
  ◌>>=◌,
}
use agent_wayfinder.Graph.Vocabulary.{Vocabulary}
use agent_wayfinder.Extractor.{Metadata}
use agent_wayfinder.Extractor.Extensions.{
  Unicode, MetadataError, normalize_extension, extension_of, validate_metadata,
}

-- What the two methods of an extractor return; an error is its message.
pub record Extractor : Type 0 where
  pub metadata : Metadata
  pub vocabulary : Result String Vocabulary

pub record Registry : Type 0 where
  pub by_extension : List (String × Extractor)
  pub extractors : List Extractor

pub data RegistryError : Type 0 where
  nil_extractor : RegistryError
  invalid_metadata : MetadataError → RegistryError
  no_vocabulary : String → String → RegistryError
  registered_twice : String → String → String → RegistryError

abbrev pub empty_registry : Registry
empty_registry = record { by_extension = []; extractors = [] }

abbrev pub add_extension :
    Extractor
    → String
    → List (String × Extractor)
    → Option Extractor
    → Result RegistryError (List (String × Extractor))
add_extension registered normalized table (some current) =
    err (registered_twice normalized current.metadata.name registered.metadata.name)
add_extension registered normalized table none = ok (insert normalized registered table)

abbrev pub check_vocabulary : String → Result String Vocabulary → Result RegistryError (Unit {0})
check_vocabulary name (ok vocabulary) = ok tt
check_vocabulary name (err e) = err (no_vocabulary name e)

module _ (unicode : Unicode) where
  -- The loop over the extensions of an extractor.
  unfoldable pub register_extensions :
      Extractor
      → List (String × Extractor)
      → List String
      → Result RegistryError (List (String × Extractor))
  unfolding normalize_extension
  register_extensions registered table [] = ok table
  register_extensions registered table (extension ∷ extensions) =
      let normalized = normalize_extension unicode extension in
      add_extension registered normalized table (lookup normalized table) >>= λ next.
      register_extensions registered next extensions

  -- `New` from the registry that it has so far; a `none` is `nil`.
  unfoldable pub register_all : Registry → List (Option Extractor) → Result RegistryError Registry
  unfolding register_extensions validate_metadata
  register_all registry [] = ok registry
  register_all registry (none ∷ rest) = err nil_extractor
  register_all registry (some registered ∷ rest) =
      wrap invalid_metadata (validate_metadata unicode registered.metadata)
      >> (check_vocabulary registered.metadata.name registered.vocabulary
          >> (register_extensions registered registry.by_extension registered.metadata.extensions
              >>= λ table.
                  register_all
                    (record {
                      by_extension = table;
                      extractors = registry.extractors ++ registered ∷ [];
                    })
                    rest))

  unfoldable pub new_registry : List (Option Extractor) → Result RegistryError Registry
  unfolding register_all
  new_registry extractors = register_all empty_registry extractors

  unfoldable pub for_path : Registry → String → Option Extractor
  unfolding extension_of
  for_path registry path = lookup (extension_of unicode path) registry.by_extension
