-- ===== src/Query/Rank/Fit.antt =====
-- query/rank.go: how well a node fits a request for seeds.
use Prim.Native.String
use agent_wayfinder.Prelude.{
  ℕ, suc, String, ◌==◌, List, [], ◌∷◌, ◌++◌, Bool, ◌||◌, if◌then◌else◌, is_empty, length, contains,
}
use agent_wayfinder.Graph.{NodeKind, Node}
use agent_wayfinder.Query.Rank.{LexicalSearchRequest, Scores}
use agent_wayfinder.Query.Rank.Texts.{Letters, lower, contains_text, fields, base_kind}

module _ {S : Type 0} (scores : Scores S) where
  abbrev pub fit : Bool → S
  fit fits = if fits then scores.one else scores.nought

  abbrev pub is_container : String → Bool
  is_container kind = kind == "package" || kind == "module" || kind == "file" || kind == "project"

  unfoldable pub seed_role_fit : String → NodeKind → S
  unfolding base_kind
  seed_role_fit role node_kind =
      let kind = base_kind node_kind in
      if role == "caller" || role == "callee"
      then fit (kind == "function" || kind == "method")
      else if role == "dependent" || role == "dependency"
      then fit (is_container kind)
      else if role == "left" || role == "right"
      then fit (
          kind == "class"
          || kind == "interface"
          || kind == "type_alias"
          || kind == "type"
          || is_container kind)
      else scores.nought

  unfoldable pub seed_entity_role_fit : String → NodeKind → S
  unfolding base_kind
  seed_entity_role_fit role node_kind =
      let kind = base_kind node_kind in
      if role == "folder" || role == "file"
      then fit (kind == "file")
      else if role == "package"
      then fit (kind == "package")
      else if role == "class" || role == "service"
      then fit (kind == "class" || kind == "type")
      else scores.nought

  unfoldable pub seed_kind_fit : List NodeKind → NodeKind → S
  seed_kind_fit kinds kind = if is_empty kinds then scores.nought else fit (contains kinds kind)

  unfoldable pub seed_project_scope_fit : List String → S
  seed_project_scope_fit project_ids = if is_empty project_ids then scores.nought else scores.one

  unfoldable pub seed_label_exactness : LexicalSearchRequest → Node → S
  seed_label_exactness request node = fit (node.label == request.text)

  abbrev pub all_tokens : List (List String) → List String
  all_tokens [] = []
  all_tokens (group ∷ groups) = group ++ all_tokens groups

  unfoldable pub count_matched : Letters → String → List String → ℕ
  unfolding contains_text
  count_matched letters haystack [] = 0
  count_matched letters haystack (token ∷ tokens) =
      let rest = count_matched letters haystack tokens in
      if contains_text haystack (lower letters token) then suc rest else rest

  unfoldable pub seed_text_coverage : Letters → LexicalSearchRequest → String → S
  unfolding count_matched fields
  seed_text_coverage letters request value =
      let listed = all_tokens request.token_groups in
      let tokens =
        if is_empty listed then fields letters (lower letters request.text) else listed in
      if is_empty tokens
      then scores.nought
      else scores.div (scores.of_count (count_matched letters (lower letters value) tokens))
          (scores.of_count (length tokens))

  -- `strings.Join(…, " ")`
  abbrev pub spaced : String → String → String
  spaced a b = String.◌++◌ a (String.◌++◌ " " b)

  unfoldable pub seed_token_coverage : Letters → LexicalSearchRequest → Node → S
  unfolding seed_text_coverage
  seed_token_coverage letters request node =
      seed_text_coverage letters request
        (spaced node.id (spaced node.label (spaced node.qualified_name node.evidence.span.path)))
