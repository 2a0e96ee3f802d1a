-- ===== src/Indexing/Groups.antt =====
-- index/index.go: `resolveWorkspaceFacts` and `resolveIncrementalWorkspaceFacts`, which resolve the
-- sources of each project and language as a group. A map from the key of a group is an association list.
pub mod Keys
pub mod Grouping
pub mod Answers
pub mod Exact
use Prim.Native.Char.{Char, code}
use Prim.Native.String
use agent_wayfinder.Prelude.{
  ℕ, nat_eq, String, ◌==◌, List, [], ◌∷◌, ◌++◌, Bool, if◌then◌else◌, Option, none, some, lookup,
  insert, keys, Result, ok, err, ◌>>=◌,
}
use agent_wayfinder.Prelude.Order.{sort_texts}
use agent_wayfinder.Extractor.{Contribution, Diagnostic}
use agent_wayfinder.Extractor.Extensions.{Unicode}
use agent_wayfinder.Extractor.Registry.{Extractor, Registry, for_path}
use agent_wayfinder.Indexing.{
  Source, ExtractedSource, IndexError, unsupported_resolver, Resolution, ResolverStore,
}
use agent_wayfinder.Indexing.Pages.{join_resolution}
use agent_wayfinder.Indexing.Languages.{IndexLanguage, Languages}

unfoldable pub group_key : String → String → String
group_key project_id language = String.◌++◌ project_id (String.◌++◌ "\0" language)

-- `strings.Cut(key, "\x00")`, `found` left out.
unfoldable pub cut_key : String → String × String
cut_key String.[] = ("", "")
cut_key (String.◌∷◌ c s) =
    let rest = cut_key s in if nat_eq (code c) 0 then ("", s) else (String.◌∷◌ c rest.0, rest.1)

pub record ResolutionGroup : Type 0 where
  pub project_id : String
  pub language : String
  pub contributions : List Contribution

abbrev pub Groups : Type 0
Groups = List (String × ResolutionGroup)

abbrev pub contributions_of_group : Option ResolutionGroup → List Contribution
contributions_of_group none = []
contributions_of_group (some group) = group.contributions

-- The loop that fills `groups`.
unfoldable pub group_sources : Groups → List ExtractedSource → Groups
unfolding group_key
group_sources groups [] = groups
group_sources groups (source ∷ sources) =
    let key = group_key source.project_id source.language in
    group_sources
      (insert key
        (record {
          project_id = source.project_id;
          language = source.language;
          contributions = contributions_of_group (lookup key groups) ++ source.contribution ∷ [];
        })
        groups)
      sources

unfoldable pub source_diagnostics : List ExtractedSource → List Diagnostic
source_diagnostics [] = []
source_diagnostics (source ∷ sources) =
    source.contribution.diagnostics ++ source_diagnostics sources

abbrev pub add_group : Resolution → Result IndexError Resolution → Result IndexError Resolution
add_group all (ok group) = ok (join_resolution all group)
add_group all (err e) = err e

abbrev pub resolve_with :
    Option IndexLanguage
    → String
    → String
    → String
    → List Contribution
    → Result IndexError Resolution
resolve_with none root project_id language contributions = err (unsupported_resolver language)
resolve_with (some definition) root project_id language contributions =
    elim definition.resolve_workspace [
      | none ↦ err (unsupported_resolver language)
      | some resolve ↦ resolve root project_id contributions
    ]

abbrev pub resolve_group :
    Languages → String → Option ResolutionGroup → Result IndexError Resolution
resolve_group languages root none = resolve_with (lookup "" languages) root "" "" []
resolve_group languages root (some group) =
    resolve_with (lookup group.language languages) root group.project_id group.language
      group.contributions

-- The loop over the keys.
unfoldable pub resolve_keys :
    Languages → String → Groups → Resolution → List String → Result IndexError Resolution
resolve_keys languages root groups all [] = ok all
resolve_keys languages root groups all (key ∷ keys) =
    add_group all (resolve_group languages root (lookup key groups)) >>= λ next.
    resolve_keys languages root groups next keys

abbrev pub resolution_of : List Diagnostic → Resolution
resolution_of diagnostics = record {
  facts = record { nodes = []; edges = [] };
  diagnostics = diagnostics;
}

unfoldable pub resolve_workspace_facts :
    Languages → String → List ExtractedSource → Result IndexError Resolution
unfolding group_sources source_diagnostics resolve_keys sort_texts
resolve_workspace_facts languages root sources =
    let groups = group_sources [] sources in
    resolve_keys languages root groups (resolution_of (source_diagnostics sources))
      (sort_texts (keys groups))

-- The groups of `resolveIncrementalWorkspaceFacts`.
abbrev pub SourceGroups : Type 0
SourceGroups = List (String × List Source)

abbrev pub sources_of_group : Option (List Source) → List Source
sources_of_group none = []
sources_of_group (some sources) = sources

abbrev pub group_discovered : Source → SourceGroups → Option Extractor → SourceGroups
group_discovered source groups none = groups
group_discovered source groups (some language) =
    let key = group_key source.project_id language.metadata.name in
    insert key (sources_of_group (lookup key groups) ++ source ∷ []) groups

unfoldable pub group_all_discovered : Unicode → Registry → SourceGroups → List Source → SourceGroups
unfolding for_path group_key
group_all_discovered unicode registered groups [] = groups
group_all_discovered unicode registered groups (source ∷ sources) =
    group_all_discovered unicode registered
      (group_discovered source groups (for_path unicode registered source.path)) sources

unfoldable pub overrides_of :
    List (String × ExtractedSource) → List ExtractedSource → List (String × ExtractedSource)
overrides_of table [] = table
overrides_of table (source ∷ sources) =
    overrides_of (insert source.contribution.source_path source table) sources

-- What the resolver of a group takes.
pub record Incremental : Type 0 where
  pub languages : Languages
  pub root : String
  pub store : ResolverStore
  pub overrides : List (String × ExtractedSource)
  pub deleted : List String

abbrev pub resolve_incremental_with :
    Incremental → String → String → Option IndexLanguage → Option (Result IndexError Resolution)
resolve_incremental_with env project_id language none = some (err (unsupported_resolver language))
resolve_incremental_with env project_id language (some definition) =
    elim definition.resolve_incremental_projections [
      | none ↦ some (err (unsupported_resolver language))
      | some resolve ↦ resolve env.root env.store project_id env.overrides env.deleted
    ]

abbrev pub resolve_pair : Incremental → String × String → Option (Result IndexError Resolution)
resolve_pair env (project_id, language) =
    resolve_incremental_with env project_id language (lookup language env.languages)

-- A result, or none where a loop over pages runs out of fuel.
abbrev pub then_resolve :
    Option (Result IndexError Resolution)
    → (Resolution → Option (Result IndexError Resolution))
    → Option (Result IndexError Resolution)
then_resolve none next = none
then_resolve (some (err e)) next = some (err e)
then_resolve (some (ok group)) next = next group

unfoldable pub resolve_incremental_keys :
    Incremental → Resolution → List String → Option (Result IndexError Resolution)
unfolding cut_key
resolve_incremental_keys env all [] = some (ok all)
resolve_incremental_keys env all (key ∷ keys) =
    then_resolve (resolve_pair env (cut_key key))
      (λ group. resolve_incremental_keys env (join_resolution all group) keys)

unfoldable pub resolve_incremental_workspace_facts :
    Unicode
    → Registry
    → Languages
    → String
    → ResolverStore
    → List Source
    → List ExtractedSource
    → List String
    → Option (Result IndexError Resolution)
unfolding group_all_discovered overrides_of resolve_incremental_keys sort_texts
resolve_incremental_workspace_facts unicode registered languages root store discovered sources
      deleted =
    resolve_incremental_keys
      (record {
        languages = languages;
        root = root;
        store = store;
        overrides = overrides_of [] sources;
        deleted = deleted;
      })
      (resolution_of []) (sort_texts (keys (group_all_discovered unicode registered [] discovered)))
