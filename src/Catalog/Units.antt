-- ===== src/Catalog/Units.antt =====
-- extractor/catalog.go: the deterministic synopsis of a unit; index/catalog.go: the input that a generator of
-- synopses reads of it. A character of a text stands for a byte here, and texts are valid UTF-8.
use Prim.Native.Char.{Char, code}
use Prim.Native.String
use agent_wayfinder.Prelude.{
  ℕ, zero, suc, String, ◌==◌, List, [], ◌∷◌, ◌++◌, Bool, true, false, not, ◌&&◌, leb, ltb, is_empty,
  if◌then◌else◌,
}
use agent_wayfinder.Prelude.Int.{ℤ, pos, pos_part, ltb_ℤ}
use agent_wayfinder.Extractor.{CatalogUnit}

infixr 5 ◌⧺◌
abbrev ◌⧺◌ : String → String → String
a ⧺ b = String.◌++◌ a b

-- `strings.Join(…, " ")`
unfoldable pub join_spaced : List String → String
join_spaced [] = ""
join_spaced (part ∷ []) = part
join_spaced (part ∷ next ∷ parts) = let rest = join_spaced (next ∷ parts) in part ⧺ " " ⧺ rest

-- A byte that goes on with a character of several bytes.
abbrev pub is_continuation : Char → Bool
is_continuation c = leb 128 (code c) && ltb (code c) 192

-- `string([]rune(value)[:n])`, or the value if it is shorter.
unfoldable pub first_runes : ℕ → String → String
first_runes n String.[] = ""
first_runes zero (String.◌∷◌ c s) =
    let rest = first_runes zero s in if is_continuation c then String.◌∷◌ c rest else ""
first_runes (suc n) (String.◌∷◌ c s) =
    String.◌∷◌ c
      (elim (is_continuation c) [ true ↦ first_runes (suc n) s | false ↦ first_runes n s ])

abbrev pub max_deterministic_synopsis_length : ℕ
max_deterministic_synopsis_length = 300

abbrev pub if_given : Bool → String → List String
if_given given part = if given then part ∷ [] else []

unfoldable pub deterministic_synopsis : CatalogUnit → String
unfolding join_spaced first_runes
deterministic_synopsis unit =
    let name = if unit.owner == "" then unit.name else unit.owner ⧺ "." ⧺ unit.name in
    first_runes max_deterministic_synopsis_length (
      join_spaced (
        (name ⧺ " (" ⧺ unit.kind ⧺ ").") ∷ []
        ++ if_given (not (is_empty unit.comments)) (join_spaced unit.comments)
        ++ ("Signature: " ⧺ unit.signature ⧺ ".") ∷ []
        ++ if_given (not (is_empty unit.identifier_tokens))
            ("Identifiers: " ⧺ join_spaced unit.identifier_tokens)))

pub record CatalogSynopsisInput : Type 0 where
  pub name : String
  pub kind : String
  pub owner : String
  pub signature : String
  pub declaration_source : String
  pub comments : List String
  pub identifier_tokens : List String

-- `source[:n]`, or the source if it is shorter.
unfoldable pub first_bytes : ℕ → String → String
first_bytes n String.[] = ""
first_bytes zero (String.◌∷◌ c s) = ""
first_bytes (suc n) (String.◌∷◌ c s) = String.◌∷◌ c (first_bytes n s)

unfoldable pub bounded_synopsis_input : ℤ → CatalogUnit → CatalogSynopsisInput
unfolding first_bytes
bounded_synopsis_input source_limit unit = record {
  name = unit.name;
  kind = unit.kind;
  owner = unit.owner;
  signature = unit.signature;
  declaration_source =
      if not (ltb_ℤ (pos 0) source_limit)
      then ""
      else first_bytes (pos_part source_limit) unit.declaration_source;
  comments = unit.comments;
  identifier_tokens = unit.identifier_tokens;
}
