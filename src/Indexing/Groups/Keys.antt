-- ===== src/Indexing/Groups/Keys.antt =====
-- The keys of the groups in index/index.go.
use Prim.Native.Char.{code}
use Prim.Native.String
use Prim.Native.String.append
use agent_wayfinder.Prelude.{nat_eq, String, Bool, false, ◌||◌, ◌≡◌, ◌∙◌, ap, arith}
use agent_wayfinder.Indexing.Groups.{group_key, cut_key}

unfoldable pub has_nul : String → Bool
has_nul String.[] = false
has_nul (String.◌∷◌ c s) = nat_eq (code c) 0 || has_nul s

-- `Cut` gives back what a key was made of.
pub cut_key-group_key :
    (project_id language : String)
    → has_nul project_id ≡ false
    → cut_key (group_key project_id language) ≡ (project_id, language)
unfolding cut_key group_key has_nul
cut_key-group_key String.[] language h = ap cut_key (
    append.nil (String.◌++◌ "\0" language)
    ∙ append.cons "\0" "" language
    ∙ ap (String.◌∷◌ "\0") (append.nil language))
cut_key-group_key (String.◌∷◌ c s) language h =
    ap cut_key (append.cons c s (String.◌++◌ "\0" language))
    ∙ ground (arith, cut_key-group_key s language)
