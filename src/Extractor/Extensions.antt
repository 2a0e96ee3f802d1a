-- ===== src/Extractor/Extensions.antt =====
-- extractor/contracts.go: `Metadata.Validate` and `normalizeExtension`, and `Extension`.
pub mod Accepts
use Prim.Native.Char.{Char, code}
use Prim.Native.String
use agent_wayfinder.Prelude.{
  String, ◌==◌, List, [], ◌∷◌, Bool, true, false, if◌then◌else◌, contains, is_empty, nat_eq, Result,
  ok, err, Check, refuse_if, ◌>>◌,
}
use agent_wayfinder.Paths.{ext}
use agent_wayfinder.Extractor.{Metadata}

-- The tables of Go's package `unicode`.
pub record Unicode : Type 0 where
  pub is_space : Char → Bool
  pub to_lower : Char → Char

pub data MetadataError : Type 0 where
  empty_name : MetadataError
  empty_version no_extensions empty_extension : String → MetadataError
  duplicate_extension : String → String → MetadataError

module _ (unicode : Unicode) where
  -- `strings.TrimLeft` by `IsSpace`, and `strings.TrimRight`.
  unfoldable pub trim_left : String → String
  trim_left String.[] = ""
  trim_left (String.◌∷◌ c s) =
      let rest = trim_left s in if unicode.is_space c then rest else String.◌∷◌ c s

  unfoldable pub trim_right : String → String
  trim_right String.[] = ""
  trim_right (String.◌∷◌ c s) =
      let rest = trim_right s in
      if rest == "" then (if unicode.is_space c then "" else String.◌∷◌ c "") else String.◌∷◌ c rest

  unfoldable pub trim_space : String → String
  unfolding trim_left trim_right
  trim_space s = trim_right (trim_left s)

  unfoldable pub to_lower : String → String
  to_lower String.[] = ""
  to_lower (String.◌∷◌ c s) = String.◌∷◌ (unicode.to_lower c) (to_lower s)

  abbrev pub has_dot_prefix : String → Bool
  has_dot_prefix String.[] = false
  has_dot_prefix (String.◌∷◌ c s) = nat_eq (code c) 46

  unfoldable pub normalize_extension : String → String
  unfolding trim_space to_lower
  normalize_extension extension =
      let normalized = to_lower (trim_space extension) in
      if normalized == ""
      then ""
      else if has_dot_prefix normalized
      then normalized
      else String.◌++◌ "." normalized

  -- `Extension`
  unfoldable pub extension_of : String → String
  unfolding normalize_extension
  extension_of path = normalize_extension (ext path)

  -- The loop over the extensions.
  unfoldable pub check_extensions : String → List String → List String → Check MetadataError
  unfolding normalize_extension
  check_extensions name seen [] = ok tt
  check_extensions name seen (extension ∷ extensions) =
      let normalized = normalize_extension extension in
      refuse_if (normalized == "") (empty_extension name)
      >> (refuse_if (contains seen normalized) (duplicate_extension name normalized)
          >> check_extensions name (normalized ∷ seen) extensions)

  unfoldable pub validate_metadata : Metadata → Check MetadataError
  unfolding check_extensions
  validate_metadata metadata =
      refuse_if (metadata.name == "") empty_name
      >> (refuse_if (metadata.version == "") (empty_version metadata.name)
          >> (refuse_if (is_empty metadata.extensions) (no_extensions metadata.name)
              >> check_extensions metadata.name [] metadata.extensions))
