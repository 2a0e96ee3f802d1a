-- ===== src/Query/Rank/Texts.antt =====
-- The functions of Go's package `strings` that query/rank.go calls.
use Prim.Native.Char.{Char, code}
use agent_wayfinder.Prelude.{
  String, ◌==◌, List, [], ◌∷◌, Bool, ◌||◌, nat_eq, if◌then◌else◌, Option, none, some, starts_with,
}

-- The tables of Go's package `unicode`: a letter is folded to the same one as those that differ from it
-- in case only.
pub record Letters : Type 0 where
  pub is_space : Char → Bool
  pub to_lower : Char → Char
  pub fold : Char → Char

unfoldable pub map_chars : (Char → Char) → String → String
map_chars f String.[] = ""
map_chars f (String.◌∷◌ c s) = String.◌∷◌ (f c) (map_chars f s)

-- `strings.ToLower` and `strings.EqualFold`
abbrev pub lower : Letters → String → String
lower letters s = map_chars letters.to_lower s

abbrev pub equal_fold : Letters → String → String → Bool
equal_fold letters s t = map_chars letters.fold s == map_chars letters.fold t

-- `strings.Contains`
unfoldable pub contains_text : String → String → Bool
contains_text String.[] t = t == ""
contains_text (String.◌∷◌ c s) t = starts_with (String.◌∷◌ c s) t || contains_text s t

abbrev pub cons_word : Char → List String → List String
cons_word c [] = String.◌∷◌ c "" ∷ []
cons_word c (w ∷ words) = String.◌∷◌ c w ∷ words

abbrev pub drop_empty : List String → List String
drop_empty [] = []
drop_empty (w ∷ words) = if w == "" then drop_empty words else w ∷ drop_empty words

-- The pieces between spaces, empty ones too.
unfoldable pub pieces : Letters → String → List String
pieces letters String.[] = "" ∷ []
pieces letters (String.◌∷◌ c s) =
    let rest = pieces letters s in if letters.is_space c then "" ∷ rest else cons_word c rest

-- `strings.Fields`
unfoldable pub fields : Letters → String → List String
unfolding pieces
fields letters s = drop_empty (pieces letters s)

-- What follows the last colon.
unfoldable pub after_colon : String → Option String
after_colon String.[] = none
after_colon (String.◌∷◌ c s) = elim (after_colon s) [
  | some rest ↦ some rest
  | none ↦ if nat_eq (code c) 58 then some s else none
]

unfoldable pub base_kind : String → String
unfolding after_colon
base_kind kind = elim (after_colon kind) [ none ↦ kind | some rest ↦ rest ]
