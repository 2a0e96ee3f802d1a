-- ===== src/Indexing/Pages/Leftovers.antt =====
-- What a walk of index/index.go over a store's pages hands over when the pages are done.
use agent_wayfinder.Prelude.{
  String, eq_iff, List, [], ◌∷◌, true, false, contains, keys, Has, Has-keys, IsDistinct, All_of_Has,
  Result, ◌≡◌, refl, sym, ◌∙◌, ap, ◌↔◌, inl, inr, subst, arith, if_elim,
}
use agent_wayfinder.Extractor.{Contribution}
use agent_wayfinder.Indexing.{
  ExtractedSource, ResolverProjection, IndexError, Resolution, ResolverProjectionPageRequest,
}
use agent_wayfinder.Indexing.Pages.{is_leftover}
use agent_wayfinder.Indexing.Pages.Calls.{leftover_calls}
use agent_wayfinder.Indexing.Pages.Passed.{
  passed, contribution_paths, IsKeyed, Has-contribution_paths,
}

module _ (overrides : List (String × ExtractedSource)) (deleted : List String) (language : String)
    (project_id : String) (resolve : List Contribution → Result IndexError Resolution)
    (read : ResolverProjectionPageRequest → Result String (List ResolverProjection)) where
  pub is_leftover_iff :
      (processed : List String) (path : String) (source : ExtractedSource)
      → (is_leftover overrides deleted language project_id resolve read processed path source
          ≡ true)
        ↔ ((source.project_id ≡ project_id)
            × (source.language ≡ language)
            × (contains deleted path ≡ false)
            × (contains processed path ≡ false))
  is_leftover_iff processed path source =
      ground (arith, eq_iff source.project_id project_id, eq_iff source.language language)

  -- The overrides that the loop after the pages takes.
  pub Has-leftover_calls :
      (c : Contribution) (processed : List String) (rest : List (String × ExtractedSource))
      → Has c (
          passed (leftover_calls overrides deleted language project_id resolve read processed rest))
      → (path : String) × (source : ExtractedSource) × Has (path, source) rest
        × (is_leftover overrides deleted language project_id resolve read processed path source
            ≡ true)
        × (c ≡ source.contribution)
  unfolding leftover_calls
  Has-leftover_calls c processed [] h = absurd h
  Has-leftover_calls c processed ((path, source) ∷ rest) h =
      if_elim
        (λ (calls : List (List Contribution)).
          Has c (passed calls)
          → (other : String) × (old : ExtractedSource) × Has (other, old) ((path, source) ∷ rest)
            × (is_leftover overrides deleted language project_id resolve read processed other old
                ≡ true)
            × (c ≡ old.contribution))
        (is_leftover overrides deleted language project_id resolve read processed path source)
        (λ t m. elim m [
          | inl e ↦ (path, source, inl refl, t, e)
          | inr k ↦ later (Has-leftover_calls c processed rest k)
        ])
        (λ t m. later (Has-leftover_calls c processed rest m)) h
    where
      later :
          ((other : String) × (old : ExtractedSource) × Has (other, old) rest
            × (is_leftover overrides deleted language project_id resolve read processed other old
                ≡ true)
            × (c ≡ old.contribution))
          → (other : String) × (old : ExtractedSource) × Has (other, old) ((path, source) ∷ rest)
            × (is_leftover overrides deleted language project_id resolve read processed other old
                ≡ true)
            × (c ≡ old.contribution)
      later (other, old, m, t, e) = (other, old, inr m, t, e)

  pub leftover_calls-Has :
      (path : String) (source : ExtractedSource) (processed : List String)
      (rest : List (String × ExtractedSource))
      → Has (path, source) rest
      → is_leftover overrides deleted language project_id resolve read processed path source ≡ true
      → Has source.contribution (
          passed (leftover_calls overrides deleted language project_id resolve read processed rest))
  unfolding leftover_calls
  leftover_calls-Has path source processed [] h taken = absurd h
  leftover_calls-Has path source processed ((other, old) ∷ rest) (inl e) taken =
      let same =
        ap
          (λ (entry : String × ExtractedSource).
            is_leftover overrides deleted language project_id resolve read processed entry.0
              entry.1)
          e in
      rw (sym same ∙ taken)
        (inl (ap (λ (entry : String × ExtractedSource). entry.1.contribution) e))
  leftover_calls-Has path source processed ((other, old) ∷ rest) (inr m) taken =
      let ih = leftover_calls-Has path source processed rest m taken in
      if_elim (λ (calls : List (List Contribution)). Has source.contribution (passed calls))
        (is_leftover overrides deleted language project_id resolve read processed other old)
        (λ _. inr ih) (λ _. ih)

  pub paths_of_leftover :
      (p : String) (processed : List String) (rest : List (String × ExtractedSource))
      → IsKeyed rest
      → Has p (
          contribution_paths (
            passed
              (leftover_calls overrides deleted language project_id resolve read processed rest)))
      → Has p (keys rest) × (contains processed p ≡ false)
  paths_of_leftover p processed rest keyed h =
      let calls =
        leftover_calls overrides deleted language project_id resolve read processed rest in
      let (c, m, e) = Has-contribution_paths p (passed calls) h in
      let (path, source, entry, taken, same) = Has-leftover_calls c processed rest m in
      let key : path ≡ p =
        sym (
          All_of_Has
            (λ (entry : String × ExtractedSource). entry.1.contribution.source_path ≡ entry.0) rest
            (path, source) keyed entry)
        ∙ ap (λ (d : Contribution). d.source_path) (sym same)
        ∙ e in
      (
        subst (λ q. Has q (keys rest)) key (Has-keys path source rest entry),
        subst (λ q. contains processed q ≡ false) key (ground arith),
      )

  pub leftover_calls-IsDistinct :
      (processed : List String) (rest : List (String × ExtractedSource))
      → IsKeyed rest
      → IsDistinct (keys rest)
      → IsDistinct (
          contribution_paths (
            passed
              (leftover_calls overrides deleted language project_id resolve read processed rest)))
  unfolding leftover_calls
  leftover_calls-IsDistinct processed [] keyed d = tt
  leftover_calls-IsDistinct processed ((path, source) ∷ rest) keyed d =
      let ih = leftover_calls-IsDistinct processed rest keyed.1 d.1 in
      if_elim (λ (calls : List (List Contribution)). IsDistinct (contribution_paths (passed calls)))
        (is_leftover overrides deleted language project_id resolve read processed path source)
        (λ _. (
          λ h. d.0 (
              subst (λ q. Has q (keys rest)) keyed.0
                (paths_of_leftover source.contribution.source_path processed rest keyed.1 h).0),
          ih,
        ))
        (λ _. ih)
