-- ===== src/Indexing/Pages/Passed.antt =====
-- What a walk of index/index.go over a store's pages hands over for the pages.
use agent_wayfinder.Prelude.{
  String, List, [], ◌∷◌, ◌++◌, false, if◌then◌else◌, Option, none, some, is_empty, contains, lookup,
  lookup-Has, Has, Has-append, IsDistinct, All, All_of_Has, Result, ◌≡◌, refl, sym, ◌∙◌, ap, ◌⊎◌,
  ◌↔◌, inl, inr, Bool-cases, Option-cases, subst, arith,
}
use agent_wayfinder.Extractor.{Contribution}
use agent_wayfinder.Indexing.{
  ExtractedSource, ResolverProjection, IndexError, Resolution, ResolverProjectionPageRequest,
}
use agent_wayfinder.Indexing.Pages.{page_paths, page_contributions, override_of}
use agent_wayfinder.Indexing.Pages.Calls.{all_paths, page_calls}
use mathlib.Core.List.{append_assoc}

-- What a list of calls hands over.
abbrev pub passed : List (List Contribution) → List Contribution
passed [] = []
passed (call ∷ calls) = call ++ passed calls

abbrev pub contribution_paths : List Contribution → List String
contribution_paths [] = []
contribution_paths (contribution ∷ rest) = contribution.source_path ∷ contribution_paths rest

-- Each override stands under the path of its contribution.
abbrev pub IsKeyed : List (String × ExtractedSource) → Type 0
IsKeyed overrides =
    All (λ (entry : String × ExtractedSource). entry.1.contribution.source_path ≡ entry.0) overrides

pub contribution_paths-append :
    (cs ds : List Contribution)
    → contribution_paths (cs ++ ds) ≡ contribution_paths cs ++ contribution_paths ds
contribution_paths-append [] ds = refl
contribution_paths-append (c ∷ cs) ds =
    ap (λ (paths : List String). c.source_path ∷ paths) (contribution_paths-append cs ds)

pub passed-append :
    (c : Contribution) (xs ys : List (List Contribution))
    → Has c (passed (xs ++ ys)) ↔ (Has c (passed xs) ⊎ Has c (passed ys))
passed-append c [] ys = ground arith
passed-append c (x ∷ xs) ys =
    ground
      (arith, passed-append c xs ys, Has-append c x (passed xs), Has-append c x (passed (xs ++ ys)))

pub passed_calls : (xs ys : List (List Contribution)) → passed (xs ++ ys) ≡ passed xs ++ passed ys
passed_calls [] ys = refl
passed_calls (x ∷ xs) ys =
    ap (λ (cs : List Contribution). x ++ cs) (passed_calls xs ys)
    ∙ sym (append_assoc x (passed xs) (passed ys))

pub without_empty :
    (call : List Contribution) (calls : List (List Contribution))
    → passed (if is_empty call then calls else call ∷ calls) ≡ call ++ passed calls
without_empty [] calls = refl
without_empty (c ∷ call) calls = refl

pub Has-contribution_paths :
    (p : String) (cs : List Contribution)
    → Has p (contribution_paths cs)
    → (c : Contribution) × Has c cs × (c.source_path ≡ p)
Has-contribution_paths p [] h = absurd h
Has-contribution_paths p (c ∷ cs) (inl e) = (c, inl refl, sym e)
Has-contribution_paths p (c ∷ cs) (inr h) =
    let (d, m, e) = Has-contribution_paths p cs h in (d, inr m, e)

module _ (overrides : List (String × ExtractedSource)) (deleted : List String) (language : String)
    (project_id : String) (resolve : List Contribution → Result IndexError Resolution)
    (read : ResolverProjectionPageRequest → Result String (List ResolverProjection)) where
  -- The contribution of an override that is not deleted.
  abbrev pub IsOverride : String → ExtractedSource → Contribution → Type 0
  IsOverride path source c =
      (lookup path overrides ≡ some source)
      × (contains deleted path ≡ false)
      × (c ≡ source.contribution)

  pub Has-override_of :
      (path : String) (o : Option ExtractedSource) (c : Contribution)
      → Has c (override_of overrides deleted language project_id resolve read path o)
      → (source : ExtractedSource) × (o ≡ some source)
        × (contains deleted path ≡ false)
        × (c ≡ source.contribution)
  Has-override_of path none c h = absurd h
  Has-override_of path (some source) c h =
      let (kept, same) : (contains deleted path ≡ false) × (c ≡ source.contribution) =
        ground arith in
      (source, refl, kept, same)

  -- An override that is named and not deleted is handed over, and nothing else is.
  pub Has-page_contributions :
      (c : Contribution) (page : List ResolverProjection)
      → Has c (page_contributions overrides deleted language project_id resolve read page)
      → (path : String) × (source : ExtractedSource) × IsOverride path source c
        × Has path (page_paths page)
  unfolding page_contributions
  Has-page_contributions c [] h = absurd h
  Has-page_contributions c (projection ∷ page) h =
      let path = projection.source_path in
      let found = lookup path overrides in
      let rest = page_contributions overrides deleted language project_id resolve read page in
      elim ((Has-append c
          (override_of overrides deleted language project_id resolve read path found) rest).0
        h) [
          | inl m ↦
              let (source, e, kept, same) = Has-override_of path found c m in
              (path, source, (e, kept, same), inl refl)
          | inr m ↦
              let (other, source, o, named) = Has-page_contributions c page m in
              (other, source, o, inr named)
        ]

  pub page_contributions-Has :
      (c : Contribution) (path : String) (source : ExtractedSource) (page : List ResolverProjection)
      → IsOverride path source c
      → Has path (page_paths page)
      → Has c (page_contributions overrides deleted language project_id resolve read page)
  unfolding page_contributions
  page_contributions-Has c path source [] o h = absurd h
  page_contributions-Has c path source (projection ∷ page) o h =
      let found = lookup projection.source_path overrides in
      ground (
        arith,
        page_contributions-Has c path source page o,
        Has-append c
            (override_of overrides deleted language project_id resolve read projection.source_path
              found)
            (page_contributions overrides deleted language project_id resolve read page),
      )

  pub path_of_override :
      (path : String) (source : ExtractedSource) (c : Contribution)
      → IsKeyed overrides
      → IsOverride path source c
      → c.source_path ≡ path
  path_of_override path source c keyed (found, kept, same) =
      ap (λ (d : Contribution). d.source_path) same
      ∙ All_of_Has
          (λ (entry : String × ExtractedSource). entry.1.contribution.source_path ≡ entry.0)
          overrides (path, source) keyed (lookup-Has path source overrides found)

  pub paths_of_page :
      (p : String) (page : List ResolverProjection)
      → IsKeyed overrides
      → Has p (
          contribution_paths
            (page_contributions overrides deleted language project_id resolve read page))
      → Has p (page_paths page)
  paths_of_page p page keyed h =
      let cs = page_contributions overrides deleted language project_id resolve read page in
      let (c, m, e) = Has-contribution_paths p cs h in
      let (path, source, o, named) = Has-page_contributions c page m in
      subst (λ q. Has q (page_paths page)) (sym (path_of_override path source c keyed o) ∙ e) named

  pub page_contributions-IsDistinct :
      (page : List ResolverProjection)
      → IsKeyed overrides
      → IsDistinct (page_paths page)
      → IsDistinct (
          contribution_paths
            (page_contributions overrides deleted language project_id resolve read page))
  unfolding page_contributions
  page_contributions-IsDistinct [] keyed d = tt
  page_contributions-IsDistinct (projection ∷ page) keyed d =
      let path = projection.source_path in
      let rest = page_contributions-IsDistinct page keyed d.1 in
      elim (Option-cases (lookup path overrides)) [
        | inl e ↦ rw e rest
        | inr (source, e) ↦ rw e (elim (Bool-cases (contains deleted path)) [
          | inl gone ↦ rw gone rest
          | inr kept ↦ rw kept (
            (λ h. d.0 (
                subst (λ q. Has q (page_paths page))
                  (path_of_override path source source.contribution keyed (e, kept, refl))
                  (paths_of_page source.contribution.source_path page keyed h))),
            rest,
          )
        ])
      ]

  -- The pages as one.
  abbrev pub flatten : List (List ResolverProjection) → List ResolverProjection
  flatten [] = []
  flatten (page ∷ pages) = page ++ flatten pages

  pub page_paths-append :
      (page rest : List ResolverProjection)
      → page_paths (page ++ rest) ≡ page_paths page ++ page_paths rest
  page_paths-append [] rest = refl
  page_paths-append (projection ∷ page) rest =
      ap (λ (paths : List String). projection.source_path ∷ paths) (page_paths-append page rest)

  pub page_contributions-append :
      (page rest : List ResolverProjection)
      → page_contributions overrides deleted language project_id resolve read (page ++ rest)
        ≡ page_contributions overrides deleted language project_id resolve read page
          ++ page_contributions overrides deleted language project_id resolve read rest
  unfolding page_contributions
  page_contributions-append [] rest = refl
  page_contributions-append (projection ∷ page) rest =
      let path = projection.source_path in
      let first =
        override_of overrides deleted language project_id resolve read path
          (lookup path overrides) in
      ap (λ (cs : List Contribution). first ++ cs) (page_contributions-append page rest)
      ∙ sym (
          append_assoc first
            (page_contributions overrides deleted language project_id resolve read page)
            (page_contributions overrides deleted language project_id resolve read rest))

  pub all_paths-flatten :
      (pages : List (List ResolverProjection)) → all_paths pages ≡ page_paths (flatten pages)
  unfolding all_paths
  all_paths-flatten [] = refl
  all_paths-flatten (page ∷ pages) =
      ap (λ (paths : List String). page_paths page ++ paths) (all_paths-flatten pages)
      ∙ sym (page_paths-append page (flatten pages))

  pub passed-page_calls :
      (pages : List (List ResolverProjection))
      → passed (page_calls overrides deleted language project_id resolve read pages)
        ≡ page_contributions overrides deleted language project_id resolve read (flatten pages)
  unfolding page_calls page_contributions
  passed-page_calls [] = refl
  passed-page_calls (page ∷ pages) =
      rw (page_contributions-append page (flatten pages), sym (passed-page_calls pages))
        (without_empty (page_contributions overrides deleted language project_id resolve read page)
          (page_calls overrides deleted language project_id resolve read pages))
