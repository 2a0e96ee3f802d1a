-- ===== src/Indexing/Pages/Once.antt =====
-- The walks of index/index.go over a store's pages hand each contribution over once.
use agent_wayfinder.Prelude.{
  ℕ, ◌<◌, String, List, [], map, some, length, contains, contains_iff, keys, lookup-Has,
  lookup_of_Has, Has, IsDistinct, IsDistinct-append, Result, ◌≡◌, sym, ◌⊎◌, ◌↔◌, inl, inr,
  Bool-cases, subst,
}
use agent_wayfinder.Extractor.{Contribution}
use agent_wayfinder.Indexing.{
  ExtractedSource, ResolverProjection, IndexError, Resolution, ResolverProjectionPageRequest,
}
use agent_wayfinder.Indexing.Pages.{no_resolution, page_contributions, resolve_projection_pages}
use agent_wayfinder.Indexing.Pages.Joined.{IsJoined, join_all-IsJoined}
use agent_wayfinder.Indexing.Pages.Calls.{
  all_paths, HasPages, page_calls, leftover_calls, walk_calls, run_calls,
  resolve_projection_pages-run_calls,
}
use agent_wayfinder.Indexing.Pages.Passed.{
  passed, contribution_paths, IsKeyed, IsOverride, flatten, contribution_paths-append,
  passed-append, passed_calls, Has-page_contributions, page_contributions-Has, paths_of_page,
  page_contributions-IsDistinct, all_paths-flatten, passed-page_calls,
}
use agent_wayfinder.Indexing.Pages.Leftovers.{
  Has-leftover_calls, leftover_calls-Has, is_leftover_iff, paths_of_leftover,
  leftover_calls-IsDistinct,
}

module _ (overrides : List (String × ExtractedSource)) (deleted : List String) (language : String)
    (project_id : String) (resolve : List Contribution → Result IndexError Resolution)
    (read : ResolverProjectionPageRequest → Result String (List ResolverProjection)) where
  walk_calls-IsDistinct :
      (pages : List (List ResolverProjection))
      → IsKeyed overrides
      → IsDistinct (keys overrides)
      → IsDistinct (all_paths pages)
      → IsDistinct (
          contribution_paths
            (passed (walk_calls overrides deleted language project_id resolve read pages)))
  unfolding walk_calls
  walk_calls-IsDistinct pages keyed d paths =
      let page = flatten overrides deleted language project_id resolve read pages in
      let named = all_paths-flatten overrides deleted language project_id resolve read pages in
      let cs = page_contributions overrides deleted language project_id resolve read page in
      let calls =
        leftover_calls overrides deleted language project_id resolve read (all_paths pages)
          overrides in
      rw
        (
          passed_calls (page_calls overrides deleted language project_id resolve read pages) calls,
          passed-page_calls overrides deleted language project_id resolve read pages,
          contribution_paths-append cs (passed calls),
        )
        (IsDistinct-append (contribution_paths cs) (contribution_paths (passed calls))
          (page_contributions-IsDistinct overrides deleted language project_id resolve read page
            keyed (subst IsDistinct named paths))
          (leftover_calls-IsDistinct overrides deleted language project_id resolve read
            (all_paths pages) overrides keyed d)
          (λ p first second.
            let known = (contains_iff (all_paths pages) p).1 (
              subst (Has p) (sym named) (
                paths_of_page overrides deleted language project_id resolve read p page keyed
                  first)) in
            let fresh =
              (paths_of_leftover overrides deleted language project_id resolve read p
                (all_paths pages) overrides keyed second).1 in
            absurd (cc)))

  Has-walk_calls :
      (pages : List (List ResolverProjection)) (c : Contribution)
      → IsDistinct (keys overrides)
      → Has c (passed (walk_calls overrides deleted language project_id resolve read pages)) ↔ (
          (path : String) × (source : ExtractedSource) × IsOverride overrides deleted language
            project_id resolve read path source c
          × (Has path (all_paths pages)
              ⊎ (source.project_id ≡ project_id) × (source.language ≡ language)))
  unfolding walk_calls
  Has-walk_calls pages c d =
      let page = flatten overrides deleted language project_id resolve read pages in
      let named = all_paths-flatten overrides deleted language project_id resolve read pages in
      let firsts = page_calls overrides deleted language project_id resolve read pages in
      let calls =
        leftover_calls overrides deleted language project_id resolve read (all_paths pages)
          overrides in
      let same = passed-page_calls overrides deleted language project_id resolve read pages in
      (
        λ h. elim ((passed-append c firsts calls).0 h) [
          | inl m ↦
              let (path, source, o, on_page) =
                Has-page_contributions overrides deleted language project_id resolve read c page
                  (subst (Has c) same m) in
              (path, source, o, inl (subst (Has path) (sym named) on_page))
          | inr m ↦
              let (path, source, entry, taken, e) =
                Has-leftover_calls overrides deleted language project_id resolve read c
                  (all_paths pages) overrides m in
              let found = lookup_of_Has path source overrides d entry in
              let (project, spoken, kept, fresh) =
                (is_leftover_iff overrides deleted language project_id resolve read
                    (all_paths pages) path source).0
                  taken in
              (path, source, (found, kept, e), inr (project, spoken))
        ],
        λ (path, source, o, reason).
            let on_page : Has path (all_paths pages) → Has c (passed firsts) = λ m.
              subst (Has c) (sym same) (
                page_contributions-Has overrides deleted language project_id resolve read c path
                  source page o (subst (Has path) named m)) in
            (passed-append c firsts calls).1 (elim reason [
              | inl m ↦ inl (on_page m)
              | inr matching ↦ elim (Bool-cases (contains (all_paths pages) path)) [
                | inl known ↦ inl (on_page ((contains_iff (all_paths pages) path).0 known))
                | inr fresh ↦ inr (
                    subst (λ d. Has d (passed calls)) (sym o.2)
                      (leftover_calls-Has overrides deleted language project_id resolve read path
                        source (all_paths pages) overrides (lookup-Has path source overrides o.0)
                        ((is_leftover_iff overrides deleted language project_id resolve read
                            (all_paths pages) path source).1
                          (matching.0, matching.1, o.1, fresh))))
              ]
            ]),
      )

  -- Where the store answers with finitely many pages, whose paths are distinct, and the overrides have
  -- distinct keys, which are the paths of their contributions, the walk ends. It calls the resolver some
  -- times, and its result has no nodes, and the edges and diagnostics of all answers in the order of the
  -- calls; or it is the first answer that is an error. The calls hand over, each once, the contributions
  -- of the overrides that are not deleted and either are on a page or belong to the project and language.
  pub resolve_projection_pages_once :
      (fuel : ℕ) (pages : List (List ResolverProjection))
      → HasPages overrides deleted language project_id resolve read "" pages
      → length pages < fuel
      → IsKeyed overrides
      → IsDistinct (keys overrides)
      → IsDistinct (all_paths pages)
      → (calls : List (List Contribution)) × (result : Result IndexError Resolution)
        × (resolve_projection_pages overrides deleted language project_id resolve read fuel
            ≡ some result)
        × IsJoined [] [] [] (map resolve calls) result
        × IsDistinct (contribution_paths (passed calls))
        × ((c : Contribution)
            → Has c (passed calls) ↔ (
                (path : String) × (source : ExtractedSource) × IsOverride overrides deleted language
                  project_id resolve read path source c
                × (Has path (all_paths pages)
                    ⊎ (source.project_id ≡ project_id) × (source.language ≡ language))))
  resolve_projection_pages_once fuel pages h enough keyed d paths =
      let calls = walk_calls overrides deleted language project_id resolve read pages in
      (
        calls,
        run_calls overrides deleted language project_id resolve read no_resolution calls,
        resolve_projection_pages-run_calls overrides deleted language project_id resolve read fuel
            pages h enough,
        join_all-IsJoined no_resolution (map resolve calls),
        walk_calls-IsDistinct pages keyed d paths,
        λ c. Has-walk_calls pages c d,
      )
