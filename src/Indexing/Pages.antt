-- ===== src/Indexing/Pages.antt =====
-- index/index.go: `resolveTypeScriptProjectionPages`, `resolveJavaScriptProjectionPages` and
-- `resolveGoProjectionPages`, which walk the stored sources of a project page by page and resolve
-- those that were extracted anew.
pub mod Joined
pub mod Calls
pub mod Passed
pub mod Leftovers
pub mod Once
use agent_wayfinder.Prelude.{
  ℕ, zero, suc, String, ◌==◌, List, [], ◌∷◌, ◌++◌, Bool, true, false, not, ◌&&◌, ◌||◌,
  if◌then◌else◌, Option, none, some, lookup, contains, is_found, is_empty, Result, ok, err, ◌>>=◌,
}
use agent_wayfinder.Graph.{Facts}
use agent_wayfinder.Extractor.{Contribution, Diagnostic}
use agent_wayfinder.Extractor.FileView.{ResolverFileView}
use agent_wayfinder.Indexing.Overrides.{as_resolver_index}
use agent_wayfinder.Indexing.{
  ExtractedSource, ResolverProjection, IndexError, read_projection_page, Resolution,
  ResolverProjectionPageRequest, ResolverStore, ResolverIndex, PageResolvers,
}

abbrev pub resolver_projection_page_size : ℕ
resolver_projection_page_size = 128

-- The variables of a walk.
pub record Walk : Type 0 where
  pub after : String
  pub processed : List String
  pub resolution : Resolution

abbrev pub no_resolution : Resolution
no_resolution = record { facts = record { nodes = []; edges = [] }; diagnostics = [] }

-- `facts.Edges = append(…)` and `diagnostics = append(…)`
abbrev pub join_resolution : Resolution → Resolution → Resolution
join_resolution all page = record {
  facts = record { nodes = all.facts.nodes; edges = all.facts.edges ++ page.facts.edges };
  diagnostics = all.diagnostics ++ page.diagnostics;
}

abbrev pub add_resolution : Resolution → Result IndexError Resolution → Result IndexError Resolution
add_resolution all (ok page) = ok (join_resolution all page)
add_resolution all (err e) = err e

abbrev pub resolved : Walk → Result IndexError Resolution → Result IndexError Walk
resolved walk (ok page) = ok (record walk { resolution = join_resolution walk.resolution page })
resolved walk (err e) = err e

abbrev pub page_paths : List ResolverProjection → List String
page_paths [] = []
page_paths (projection ∷ page) = projection.source_path ∷ page_paths page

-- `after`, `processed` and the resolution by which the loop over the pages goes on.
abbrev pub last_path : String → List ResolverProjection → String
last_path after [] = after
last_path after (projection ∷ page) = last_path projection.source_path page

module _ (overrides : List (String × ExtractedSource)) (deleted : List String) (language : String)
    (project_id : String) (resolve : List Contribution → Result IndexError Resolution)
    (read : ResolverProjectionPageRequest → Result String (List ResolverProjection)) where
  abbrev pub override_of : String → Option ExtractedSource → List Contribution
  override_of path none = []
  override_of path (some source) = if contains deleted path then [] else source.contribution ∷ []

  -- `contributions`
  unfoldable pub page_contributions : List ResolverProjection → List Contribution
  page_contributions [] = []
  page_contributions (projection ∷ page) =
      override_of projection.source_path (lookup projection.source_path overrides)
      ++ page_contributions page

  unfoldable pub resolve_page : Walk → List ResolverProjection → Result IndexError Walk
  unfolding page_contributions
  resolve_page walk page =
      let contributions = page_contributions page in
      let next = record walk {
        after = last_path walk.after page;
        processed = walk.processed ++ page_paths page;
      } in
      if is_empty contributions then ok next else resolved next (resolve contributions)

  abbrev pub page_request : String → ResolverProjectionPageRequest
  page_request after = record {
    project_id = project_id;
    language = language;
    after_source_path = after;
    limit = resolver_projection_page_size;
  }

  abbrev pub continue_with :
      (Walk → Option (Result IndexError Walk))
      → Result IndexError Walk
      → Option (Result IndexError Walk)
  continue_with next (err e) = some (err e)
  continue_with next (ok walk) = next walk

  abbrev pub after_read :
      (Walk → Option (Result IndexError Walk))
      → Walk
      → Result String (List ResolverProjection)
      → Option (Result IndexError Walk)
  after_read next walk (err e) = some (err (read_projection_page language e))
  after_read next walk (ok []) = some (ok walk)
  after_read next walk (ok (projection ∷ page)) =
      continue_with next (resolve_page walk (projection ∷ page))

  -- The loop over the pages; `none` where the fuel does not reach.
  unfoldable pub walk_pages : ℕ → Walk → Option (Result IndexError Walk)
  unfolding resolve_page
  walk_pages zero walk = none
  walk_pages (suc fuel) walk = after_read (walk_pages fuel) walk (read (page_request walk.after))

  abbrev pub is_leftover : List String → String → ExtractedSource → Bool
  is_leftover processed path source =
      source.project_id == project_id
      && source.language == language
      && not (contains deleted path)
      && not (contains processed path)

  -- The loop over the overrides that no page names.
  unfoldable pub resolve_leftovers :
      List String → Resolution → List (String × ExtractedSource) → Result IndexError Resolution
  resolve_leftovers processed all [] = ok all
  resolve_leftovers processed all ((path, source) ∷ rest) =
      (if is_leftover processed path source
        then add_resolution all (resolve (source.contribution ∷ []))
        else ok all)
      >>= λ next. resolve_leftovers processed next rest

  abbrev pub after_walk : Option (Result IndexError Walk) → Option (Result IndexError Resolution)
  after_walk none = none
  after_walk (some (err e)) = some (err e)
  after_walk (some (ok walk)) = some (resolve_leftovers walk.processed walk.resolution overrides)

  abbrev pub start : Walk
  start = record { after = ""; processed = []; resolution = no_resolution }

  unfoldable pub resolve_projection_pages : ℕ → Option (Result IndexError Resolution)
  unfolding walk_pages resolve_leftovers
  resolve_projection_pages fuel = after_walk (walk_pages fuel start)

module _ (resolvers : PageResolvers) (store : ResolverStore) (fuel : ℕ) (project_id : String)
    (overrides : List (String × ExtractedSource)) (deleted : List String) where
  unfoldable pub resolver_index : ResolverIndex
  unfolding as_resolver_index
  resolver_index = as_resolver_index (record { store = store; overrides = overrides })

  unfoldable pub resolve_typescript_projection_pages : Option (Result IndexError Resolution)
  unfolding resolve_projection_pages resolver_index
  resolve_typescript_projection_pages =
      resolve_projection_pages overrides deleted "typescript" project_id
        (λ contributions. resolvers.typescript contributions project_id resolver_index)
        store.resolver_projection_page fuel

  unfoldable pub resolve_javascript_projection_pages : Option (Result IndexError Resolution)
  unfolding resolve_projection_pages resolver_index
  resolve_javascript_projection_pages =
      resolve_projection_pages overrides deleted "javascript" project_id
        (λ contributions. resolvers.javascript contributions project_id resolver_index)
        store.resolver_projection_page fuel

  unfoldable pub resolve_go_projection_pages :
      ResolverFileView → Option (Result IndexError Resolution)
  unfolding resolve_projection_pages resolver_index
  resolve_go_projection_pages view =
      resolve_projection_pages overrides deleted "go" project_id
        (λ contributions. resolvers.go contributions project_id resolver_index view)
        store.resolver_projection_page fuel
