-- ===== src/Indexing/Extraction/Order.antt =====
-- The goroutines of `extractDiscoveredSources` in index/index.go do not show in its result.
use agent_wayfinder.Prelude.{
  ℕ, suc, nat_eq, String, List, [], ◌∷◌, ◌++◌, inl, inr, ◌>>=◌, Result-cases, map, Option, none,
  some, Result, ok, err, ◌≡◌, refl, sym, ap, arith, if_elim, subst,
}
use agent_wayfinder.Extractor.{Contribution}
use agent_wayfinder.Extractor.Registry.{Extractor, for_path}
use agent_wayfinder.Paths.{join_path}
use agent_wayfinder.Indexing.{Source, ExtractedSource, IndexError}
use agent_wayfinder.Indexing.Languages.{
  FileSource, FileRead, contents_read, not_exist, read_failed, Workers, extract,
}
use agent_wayfinder.Indexing.Languages.Keeps.{AreWorkers, extract-AreWorkers, nothing-AreWorkers}
use agent_wayfinder.Indexing.Extraction.{
  Environment, with_contribution, extract_read, extract_file, extract_discovered_source,
  set_workers, run_jobs, collect, extract_discovered_sources,
}

module _ (env : Environment) where
  -- The extraction by workers that are new.
  abbrev pub extract_alone : Source → Result IndexError ExtractedSource
  extract_alone source = (extract_discovered_source env source (some [])).0

  with_contribution-same :
      (source : Source) (language : String) (a b : Result IndexError Contribution × Workers)
      → a.0 ≡ b.0
      → (with_contribution source language a).0 ≡ (with_contribution source language b).0
  with_contribution-same source language (ok c, v) (ok d, w) e = ground arith
  with_contribution-same source language (ok c, v) (err d, w) e = cc
  with_contribution-same source language (err c, v) (ok d, w) e = cc
  with_contribution-same source language (err c, v) (err d, w) e = ground arith

  with_contribution-workers :
      (source : Source) (language : String) (a : Result IndexError Contribution × Workers)
      → (with_contribution source language a).1 ≡ a.1
  with_contribution-workers source language (ok c, v) = refl
  with_contribution-workers source language (err c, v) = refl

  extract_read-alone :
      (source : Source) (contents : String) (workers : Workers) (o : Option Extractor)
      → AreWorkers env.languages workers
      → ((extract_read env source contents workers o).0
          ≡ (extract_read env source contents (some []) o).0)
        × AreWorkers env.languages (extract_read env source contents workers o).1
  extract_read-alone source contents workers none h = (refl, h)
  extract_read-alone source contents workers (some language) h =
      let name = language.metadata.name in
      let file : FileSource = record {
        project_id = source.project_id;
        source_path = source.path;
        contents = contents;
      } in
      let (same, kept) = extract-AreWorkers env.languages name file workers h in
      (
        with_contribution-same source name (extract env.languages name file workers)
            (extract env.languages name file (some [])) same,
        subst (AreWorkers env.languages)
            (sym (with_contribution-workers source name (extract env.languages name file workers)))
            kept,
      )

  extract_file-alone :
      (source : Source) (workers : Workers) (contents : FileRead)
      → AreWorkers env.languages workers
      → ((extract_file env source workers contents).0
          ≡ (extract_file env source (some []) contents).0)
        × AreWorkers env.languages (extract_file env source workers contents).1
  extract_file-alone source workers (contents_read contents) h =
      extract_read-alone source contents workers (for_path env.unicode env.registered source.path) h
  extract_file-alone source workers not_exist h = (refl, h)
  extract_file-alone source workers (read_failed e) h = (refl, h)

  run_jobs_alone :
      (takes : ℕ → ℕ) (job : ℕ) (pool : ℕ → Workers) (sources : List Source)
      → ((g : ℕ) → AreWorkers env.languages (pool g))
      → run_jobs env takes job pool sources ≡ map extract_alone sources
  unfolding run_jobs extract_discovered_source
  run_jobs_alone takes job pool [] h = refl
  run_jobs_alone takes job pool (source ∷ sources) h =
      let contents = env.read_file (join_path env.root source.path) in
      let (same, kept) = extract_file-alone source (pool (takes job)) contents (h (takes job)) in
      let next = (extract_file env source (pool (takes job)) contents).1 in
      let rest =
        run_jobs_alone takes (suc job) (set_workers env pool (takes job) next) sources
          (λ g. if_elim (AreWorkers env.languages) (nat_eq g (takes job)) (λ _. kept) (λ _. h g)) in
      λ i. same i ∷ rest i

  -- Each source by itself gives the one in its place.
  abbrev pub AreExtracted : List Source → List ExtractedSource → Type 0
  AreExtracted [] [] = Unit
  AreExtracted [] (result ∷ results) = ⊥
  AreExtracted (source ∷ sources) [] = ⊥
  AreExtracted (source ∷ sources) (result ∷ results) =
      (extract_alone source ≡ ok result) × AreExtracted sources results

  -- All results in the order of the sources, or the error of the first source that fails.
  abbrev pub IsExtraction : List Source → Result IndexError (List ExtractedSource) → Type 0
  IsExtraction sources (ok results) = AreExtracted sources results
  IsExtraction sources (err e) =
      (before : List Source) × (failing : Source) × (after : List Source) × (results : List
        ExtractedSource)
      × (sources ≡ before ++ failing ∷ after)
      × AreExtracted before results
      × (extract_alone failing ≡ err e)

  IsExtraction-next :
      (source : Source) (result : ExtractedSource) (sources : List Source)
      (r : Result IndexError (List ExtractedSource))
      → extract_alone source ≡ ok result
      → IsExtraction sources r
      → IsExtraction (source ∷ sources) (r >>= λ results. ok (result ∷ results))
  IsExtraction-next source result sources (ok results) h rest = (h, rest)
  IsExtraction-next source result sources (err e) h
        (before, failing, after, results, split, firsts, last) =
      (
        source ∷ before,
        failing,
        after,
        result ∷ results,
        ap (λ (l : List Source). source ∷ l) split,
        (h, firsts),
        last,
      )

  collect-IsExtraction :
      (sources : List Source) → IsExtraction sources (collect env (map extract_alone sources))
  unfolding collect
  collect-IsExtraction [] = tt
  collect-IsExtraction (source ∷ sources) = elim (Result-cases (extract_alone source)) [
    | inl (result, h) ↦
        rw h (IsExtraction-next source result sources _ h (collect-IsExtraction sources))
    | inr (e, h) ↦ rw h ([], source, sources, [], refl, tt, h)
  ]

  pub extract_discovered_sources-collect :
      (takes : ℕ → ℕ) (sources : List Source)
      → extract_discovered_sources env takes sources ≡ collect env (map extract_alone sources)
  unfolding extract_discovered_sources
  extract_discovered_sources-collect takes sources =
      ap (collect env)
        (run_jobs_alone takes 0 (λ _. some []) sources (λ _. nothing-AreWorkers env.languages))

  -- `extractDiscoveredSources` returns what each source gives by itself, in the order of the sources,
  -- or the error of the first source that fails, whichever goroutine takes which source.
  pub extract_discovered_sources_alone :
      (takes : ℕ → ℕ) (sources : List Source)
      → IsExtraction sources (extract_discovered_sources env takes sources)
  extract_discovered_sources_alone takes sources =
      subst (IsExtraction sources) (sym (extract_discovered_sources-collect takes sources))
        (collect-IsExtraction sources)
