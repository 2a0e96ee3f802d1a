-- ===== src/Indexing/Groups/Grouping.antt =====
-- How index/index.go groups the extracted sources.
use agent_wayfinder.Prelude.{
  String, ◌==◌, eq_iff, List, [], ◌∷◌, ◌++◌, false, ◌&&◌, if◌then◌else◌, Option, none, some, lookup,
  insert, lookup-insert, keys, Has, Has-keys-insert, insert-IsDistinct, IsDistinct, Any, All, ◌≡◌,
  ◌↔◌, ◌⊎◌, sym, ◌∙◌, ap, arith,
}
use agent_wayfinder.Extractor.{Contribution}
use agent_wayfinder.Indexing.{ExtractedSource}
use agent_wayfinder.Indexing.Groups.{
  ResolutionGroup, Groups, group_key, cut_key, group_sources, contributions_of_group,
}
use agent_wayfinder.Indexing.Groups.Keys.{has_nul, cut_key-group_key}
use mathlib.Core.List.{append_assoc, append-nil}

-- The sources' contributions of a project and a language, in their order.
abbrev pub contributions_in : String → String → List ExtractedSource → List Contribution
contributions_in project_id language [] = []
contributions_in project_id language (source ∷ sources) =
    if source.project_id == project_id && source.language == language
    then source.contribution ∷ contributions_in project_id language sources
    else contributions_in project_id language sources

-- The IDs of the projects hold no NUL, by which a key is cut.
abbrev pub ArePlain : List ExtractedSource → Type 0
ArePlain sources = All (λ (source : ExtractedSource). has_nul source.project_id ≡ false) sources

abbrev pub key_of : ExtractedSource → String
key_of source = group_key source.project_id source.language

pub group_key-same :
    (p q l m : String)
    → has_nul p ≡ false
    → has_nul q ≡ false
    → group_key p l ≡ group_key q m
    → (p ≡ q) × (l ≡ m)
group_key-same p q l m h k e =
    let pairs : (p, l) ≡ (q, m) =
      sym (cut_key-group_key p l h) ∙ ap cut_key e ∙ cut_key-group_key q m k in
    (ap (λ (pair : String × String). pair.0) pairs, ap (λ (pair : String × String). pair.1) pairs)

-- A group of this project and language.
abbrev pub IsGroup : String → String → Option ResolutionGroup → Type 0
IsGroup p l none = Unit
IsGroup p l (some group) = (group.project_id ≡ p) × (group.language ≡ l)

pub group_sources-contributions :
    (p l : String) (groups : Groups) (sources : List ExtractedSource)
    → has_nul p ≡ false
    → ArePlain sources
    → contributions_of_group (lookup (group_key p l) (group_sources groups sources))
      ≡ contributions_of_group (lookup (group_key p l) groups) ++ contributions_in p l sources
unfolding group_sources
group_sources-contributions p l groups [] plain all =
    sym (append-nil (contributions_of_group (lookup (group_key p l) groups)))
group_sources-contributions p l groups (s ∷ sources) plain all =
    let k = key_of s in
    let old = contributions_of_group (lookup k groups) in
    let next : ResolutionGroup = record {
      project_id = s.project_id;
      language = s.language;
      contributions = old ++ s.contribution ∷ [];
    } in
    group_sources-contributions p l (insert k next groups) sources plain all.1
    ∙ ground (
      arith,
      lookup-insert k (group_key p l) next groups,
      eq_iff k (group_key p l),
      eq_iff s.project_id p,
      eq_iff s.language l,
      group_key-same s.project_id p s.language l all.0 plain,
      append_assoc old (s.contribution ∷ []) (contributions_in p l sources),
    )

pub group_sources-IsGroup :
    (p l : String) (groups : Groups) (sources : List ExtractedSource)
    → has_nul p ≡ false
    → ArePlain sources
    → IsGroup p l (lookup (group_key p l) groups)
    → IsGroup p l (lookup (group_key p l) (group_sources groups sources))
unfolding group_sources
group_sources-IsGroup p l groups [] plain all h = h
group_sources-IsGroup p l groups (s ∷ sources) plain all h =
    let k = key_of s in
    let next : ResolutionGroup = record {
      project_id = s.project_id;
      language = s.language;
      contributions = contributions_of_group (lookup k groups) ++ s.contribution ∷ [];
    } in
    group_sources-IsGroup p l (insert k next groups) sources plain all.1 (
      ground (
        arith,
        lookup-insert k (group_key p l) next groups,
        eq_iff k (group_key p l),
        group_key-same s.project_id p s.language l all.0 plain,
      ))

pub Has-group_sources :
    (k : String) (groups : Groups) (sources : List ExtractedSource)
    → Has k (keys (group_sources groups sources))
      ↔ (Has k (keys groups) ⊎ Any (λ (s : ExtractedSource). k ≡ key_of s) sources)
unfolding group_sources
Has-group_sources k groups [] = ground arith
Has-group_sources k groups (s ∷ sources) =
    let next : ResolutionGroup = record {
      project_id = s.project_id;
      language = s.language;
      contributions = contributions_of_group (lookup (key_of s) groups) ++ s.contribution ∷ [];
    } in
    ground (
      arith,
      Has-keys-insert (key_of s) k next groups,
      Has-group_sources k (insert (key_of s) next groups) sources,
    )

pub group_sources-IsDistinct :
    (groups : Groups) (sources : List ExtractedSource)
    → IsDistinct (keys groups)
    → IsDistinct (keys (group_sources groups sources))
unfolding group_sources
group_sources-IsDistinct groups [] d = d
group_sources-IsDistinct groups (s ∷ sources) d =
    let next : ResolutionGroup = record {
      project_id = s.project_id;
      language = s.language;
      contributions = contributions_of_group (lookup (key_of s) groups) ++ s.contribution ∷ [];
    } in
    group_sources-IsDistinct (insert (key_of s) next groups) sources
      (insert-IsDistinct (key_of s) next groups d)
