-- ===== src/Indexing/Pages/Calls.antt =====
-- The walks of index/index.go over a store's pages: which contributions they hand to the resolver, in
-- which order, and what comes of it.
use agent_wayfinder.Prelude.{
  ℕ, zero, suc, ◌<◌, String, List, [], ◌∷◌, ◌++◌, Bool, if◌then◌else◌, some, is_empty, length, map,
  Result, ok, ◌≡◌, refl, subst, sym, ap, inl, inr, Bool-cases, Result-cases, arith,
}
use agent_wayfinder.Extractor.{Contribution}
use agent_wayfinder.Indexing.{
  ExtractedSource, ResolverProjection, IndexError, Resolution, ResolverProjectionPageRequest,
}
use agent_wayfinder.Indexing.Pages.{
  Walk, no_resolution, join_resolution, add_resolution, page_paths, last_path, page_contributions,
  resolve_page, page_request, walk_pages, is_leftover, resolve_leftovers, after_walk, start,
  resolve_projection_pages,
}
use agent_wayfinder.Indexing.Pages.Joined.{Answers, join_all}
use mathlib.Core.List.{append_assoc, append-nil}

unfoldable pub all_paths : List (List ResolverProjection) → List String
all_paths [] = []
all_paths (page ∷ pages) = page_paths page ++ all_paths pages

abbrev pub path_of_last : ResolverProjection → List ResolverProjection → String
path_of_last projection [] = projection.source_path
path_of_last projection (next ∷ page) = path_of_last next page

path_of_last-last_path :
    (projection : ResolverProjection) (page : List ResolverProjection)
    → path_of_last projection page ≡ last_path projection.source_path page
path_of_last-last_path projection [] = refl
path_of_last-last_path projection (next ∷ page) = path_of_last-last_path next page

module _ (overrides : List (String × ExtractedSource)) (deleted : List String) (language : String)
    (project_id : String) (resolve : List Contribution → Result IndexError Resolution)
    (read : ResolverProjectionPageRequest → Result String (List ResolverProjection)) where
  abbrev pub request_after : String → ResolverProjectionPageRequest
  request_after after = record {
    project_id = project_id;
    language = language;
    after_source_path = after;
    limit = 128;
  }

  -- The store answers to the requests for 128 sources after a path, the first of them after none and the
  -- next ones after the last path of the page before, with these pages, none of them empty.
  abbrev pub HasPages : String → List (List ResolverProjection) → Type 0
  HasPages after [] = read (request_after after) ≡ ok []
  HasPages after ([] ∷ pages) = ⊥
  HasPages after ((projection ∷ page) ∷ pages) =
      (read (request_after after) ≡ ok (projection ∷ page))
      × HasPages (path_of_last projection page) pages

  -- The same of the requests of the walk.
  abbrev ReadsPages : String → List (List ResolverProjection) → Type 0
  ReadsPages after [] =
      read (page_request overrides deleted language project_id resolve read after) ≡ ok []
  ReadsPages after ([] ∷ pages) = ⊥
  ReadsPages after ((projection ∷ page) ∷ pages) =
      (read (page_request overrides deleted language project_id resolve read after)
        ≡ ok (projection ∷ page))
      × ReadsPages (last_path projection.source_path page) pages

  HasPages-ReadsPages :
      (after : String) (pages : List (List ResolverProjection))
      → HasPages after pages
      → ReadsPages after pages
  HasPages-ReadsPages after [] h = h
  HasPages-ReadsPages after ([] ∷ pages) h = absurd h
  HasPages-ReadsPages after ((projection ∷ page) ∷ pages) h = (
    h.0,
    subst (λ (path : String). ReadsPages path pages) (path_of_last-last_path projection page)
        (HasPages-ReadsPages (path_of_last projection page) pages h.1),
  )

  abbrev pub contributions_of : List ResolverProjection → List Contribution
  contributions_of page = page_contributions overrides deleted language project_id resolve read page

  -- One call for each page with something to resolve.
  unfoldable pub page_calls : List (List ResolverProjection) → List (List Contribution)
  page_calls [] = []
  page_calls (page ∷ pages) =
      if is_empty (contributions_of page)
      then page_calls pages
      else contributions_of page ∷ page_calls pages

  abbrev pub leftover : List String → String → ExtractedSource → Bool
  leftover processed path source =
      is_leftover overrides deleted language project_id resolve read processed path source

  -- One call for each override that no page names.
  unfoldable pub leftover_calls :
      List String → List (String × ExtractedSource) → List (List Contribution)
  leftover_calls processed [] = []
  leftover_calls processed ((path, source) ∷ rest) =
      if leftover processed path source
      then (source.contribution ∷ []) ∷ leftover_calls processed rest
      else leftover_calls processed rest

  -- The answers of the resolver to the calls.
  abbrev pub answers_to : List (List Contribution) → Answers
  answers_to calls = map resolve calls

  abbrev pub run_calls : Resolution → List (List Contribution) → Result IndexError Resolution
  run_calls all calls = join_all all (answers_to calls)

  resolve_leftovers-run_calls :
      (processed : List String) (all : Resolution) (rest : List (String × ExtractedSource))
      → resolve_leftovers overrides deleted language project_id resolve read processed all rest
        ≡ run_calls all (leftover_calls processed rest)
  unfolding resolve_leftovers join_all leftover_calls
  resolve_leftovers-run_calls processed all [] = refl
  resolve_leftovers-run_calls processed all ((path, source) ∷ rest) =
      elim (Bool-cases (leftover processed path source)) [
        | inl e ↦
            rw e (elim (Result-cases (add_resolution all (resolve (source.contribution ∷ [])))) [
              | inl (next, r) ↦ rw r (resolve_leftovers-run_calls processed next rest)
              | inr (failure, r) ↦ rw r refl
            ])
        | inr e ↦ rw e (resolve_leftovers-run_calls processed all rest)
      ]

  calls_after : Walk → List (List ResolverProjection) → List (List Contribution)
  calls_after walk pages =
      page_calls pages ++ leftover_calls (walk.processed ++ all_paths pages) overrides

  walk_pages-run_calls :
      (fuel : ℕ) (walk : Walk) (pages : List (List ResolverProjection))
      → ReadsPages walk.after pages
      → length pages < fuel
      → after_walk overrides deleted language project_id resolve read
          (walk_pages overrides deleted language project_id resolve read fuel walk)
        ≡ some (run_calls walk.resolution (calls_after walk pages))
  unfolding walk_pages calls_after page_calls all_paths join_all resolve_page
  walk_pages-run_calls zero walk pages h enough = absurd (omega (arith, enough))
  walk_pages-run_calls (suc fuel) walk [] h enough =
      rw (h, append-nil walk.processed)
        (ap some (resolve_leftovers-run_calls walk.processed walk.resolution overrides))
  walk_pages-run_calls (suc fuel) walk ([] ∷ pages) h enough = absurd h
  walk_pages-run_calls (suc fuel) walk ((projection ∷ page) ∷ pages) h enough =
      let contributions = contributions_of (projection ∷ page) in
      let next : Resolution → Walk = λ resolution. record walk {
        after = last_path projection.source_path page;
        processed = walk.processed ++ page_paths (projection ∷ page);
        resolution = resolution;
      } in
      let step = λ (resolution : Resolution).
        walk_pages-run_calls fuel (next resolution) pages h.1 (omega (arith, enough)) in
      rw (h.0, sym (append_assoc walk.processed (page_paths (projection ∷ page)) (all_paths pages)))
        (elim (Bool-cases (is_empty contributions)) [
          | inl e ↦ rw e (step walk.resolution)
          | inr e ↦ rw e (elim (Result-cases (resolve contributions)) [
            | inl (resolution, r) ↦ rw r (step (join_resolution walk.resolution resolution))
            | inr (failure, r) ↦ rw r refl
          ])
        ])

  -- The calls of a whole walk.
  unfoldable pub walk_calls : List (List ResolverProjection) → List (List Contribution)
  unfolding page_calls leftover_calls
  walk_calls pages = page_calls pages ++ leftover_calls (all_paths pages) overrides

  pub resolve_projection_pages-run_calls :
      (fuel : ℕ) (pages : List (List ResolverProjection))
      → HasPages "" pages
      → length pages < fuel
      → resolve_projection_pages overrides deleted language project_id resolve read fuel
        ≡ some (run_calls no_resolution (walk_calls pages))
  unfolding resolve_projection_pages walk_calls calls_after
  resolve_projection_pages-run_calls fuel pages h enough =
      walk_pages-run_calls fuel (start overrides deleted language project_id resolve read) pages
        (HasPages-ReadsPages "" pages h) enough
