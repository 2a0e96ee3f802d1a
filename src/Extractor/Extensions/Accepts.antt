-- ===== src/Extractor/Extensions/Accepts.antt =====
-- What `Metadata.Validate` of extractor/contracts.go accepts.
use agent_wayfinder.Prelude.{
  String, eq_iff, List, [], ◌∷◌, false, ◌≡◌, ◌≢◌, ◌↔◌, refl, map, Has, IsDistinct, All, All-fresh,
  contains_iff, is_empty, arith, ok,
}
use agent_wayfinder.Extractor.{Metadata}
use agent_wayfinder.Extractor.Extensions.{
  Unicode, normalize_extension, check_extensions, validate_metadata,
}

abbrev pub normalized_extensions : Unicode → List String → List String
normalized_extensions unicode extensions = map (normalize_extension unicode) extensions

pub record IsMetadata (unicode : Unicode) (metadata : Metadata) : Type 0 where
  pub name : metadata.name ≢ ""
  pub version : metadata.version ≢ ""
  pub some_extension : metadata.extensions ≢ []
  pub filled : All (λ e. e ≢ "") (normalized_extensions unicode metadata.extensions)
  pub distinct : IsDistinct (normalized_extensions unicode metadata.extensions)

check_extensions_iff :
    (unicode : Unicode) (name : String) (seen extensions : List String)
    → (check_extensions unicode name seen extensions ≡ ok tt) ↔ (
        All (λ e. e ≢ "") (normalized_extensions unicode extensions)
        × All (λ e. ¬ Has e seen) (normalized_extensions unicode extensions)
        × IsDistinct (normalized_extensions unicode extensions))
unfolding check_extensions
check_extensions_iff unicode name seen [] = ground arith
check_extensions_iff unicode name seen (extension ∷ extensions) =
    let n = normalize_extension unicode extension in
    ground (
      arith,
      eq_iff n "",
      contains_iff seen n,
      check_extensions_iff unicode name (n ∷ seen) extensions,
      All-fresh n seen (normalized_extensions unicode extensions),
    )

is_empty_iff : (xs : List String) → (is_empty xs ≡ false) ↔ (xs ≢ [])
is_empty_iff [] = ground arith
is_empty_iff (x ∷ xs) = (λ _ e. cc, λ _. refl)

fresh_of_nothing : (xs : List String) → All (λ e. ¬ Has e []) xs
fresh_of_nothing [] = tt
fresh_of_nothing (x ∷ xs) = (λ h. h, fresh_of_nothing xs)

-- `Metadata.Validate` accepts exactly the metadata with a name, a version, and at least one
-- extension, whose normalized extensions are nonempty and distinct.
pub validate_metadata_iff :
    (unicode : Unicode) (metadata : Metadata)
    → (validate_metadata unicode metadata ≡ ok tt) ↔ IsMetadata unicode metadata
unfolding validate_metadata
validate_metadata_iff unicode metadata = (
  λ h. ground (
    arith,
    eq_iff metadata.name "",
    eq_iff metadata.version "",
    is_empty_iff metadata.extensions,
    check_extensions_iff unicode metadata.name [] metadata.extensions,
  ),
  λ m. ground (
    arith,
    eq_iff metadata.name "",
    eq_iff metadata.version "",
    is_empty_iff metadata.extensions,
    check_extensions_iff unicode metadata.name [] metadata.extensions,
    fresh_of_nothing (normalized_extensions unicode metadata.extensions),
  ),
)
