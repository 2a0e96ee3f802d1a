-- ===== src/Indexing/Extraction.antt =====
-- index/index.go: `extractDiscoveredSources`. Its goroutines take the jobs in order, and each has its own
-- extraction workers; which goroutine takes which job is an argument. They write to different places of
-- `results`, which is read when all are done.
pub mod Order
use agent_wayfinder.Prelude.{
  ℕ, suc, nat_eq, String, List, [], ◌∷◌, if◌then◌else◌, Option, none, some, Result, ok, err, ◌>>=◌,
}
use agent_wayfinder.Extractor.{Contribution}
use agent_wayfinder.Extractor.Extensions.{Unicode}
use agent_wayfinder.Extractor.Registry.{Extractor, Registry, for_path}
use agent_wayfinder.Paths.{join_path}
use agent_wayfinder.Indexing.{Source, ExtractedSource, IndexError, read_source, no_extractor}
use agent_wayfinder.Indexing.Languages.{
  FileRead, contents_read, not_exist, read_failed, FileSource, Languages, Workers, extract,
}

abbrev pub Extraction : Type 0
Extraction = Result IndexError ExtractedSource × Workers

abbrev pub with_contribution :
    Source → String → Result IndexError Contribution × Workers → Extraction
with_contribution source language (ok contribution, workers) = (
  ok (record { project_id = source.project_id; language = language; contribution = contribution }),
  workers,
)
with_contribution source language (err e, workers) = (err e, workers)

-- What the goroutines share.
pub record Environment : Type 0 where
  pub unicode : Unicode
  pub languages : Languages
  pub registered : Registry
  pub read_file : String → FileRead
  pub root : String

module _ (env : Environment) where
  abbrev pub extract_read : Source → String → Workers → Option Extractor → Extraction
  extract_read source contents workers none = (err (no_extractor source.path), workers)
  extract_read source contents workers (some language) =
      with_contribution source language.metadata.name (
        extract env.languages language.metadata.name
          (record {
            project_id = source.project_id;
            source_path = source.path;
            contents = contents;
          })
          workers)

  abbrev pub extract_file : Source → Workers → FileRead → Extraction
  extract_file source workers (contents_read contents) =
      extract_read source contents workers (for_path env.unicode env.registered source.path)
  extract_file source workers not_exist = (err (read_source source.path "not exist"), workers)
  extract_file source workers (read_failed e) = (err (read_source source.path e), workers)

  unfoldable pub extract_discovered_source : Source → Workers → Extraction
  unfolding for_path extract
  extract_discovered_source source workers =
      extract_file source workers (env.read_file (join_path env.root source.path))

  -- The extraction workers of a goroutine after a job.
  abbrev pub set_workers : (ℕ → Workers) → ℕ → Workers → ℕ → Workers
  set_workers pool goroutine workers other = if nat_eq other goroutine then workers else pool other

  -- `results`, where `takes i` is the goroutine that takes job `i`.
  unfoldable pub run_jobs :
      (ℕ → ℕ) → ℕ → (ℕ → Workers) → List Source → List (Result IndexError ExtractedSource)
  unfolding extract_discovered_source
  run_jobs takes job pool [] = []
  run_jobs takes job pool (source ∷ sources) =
      let (result, workers) = extract_discovered_source source (pool (takes job)) in
      result ∷ run_jobs takes (suc job) (set_workers pool (takes job) workers) sources

  -- The loop over `results`.
  unfoldable pub collect :
      List (Result IndexError ExtractedSource) → Result IndexError (List ExtractedSource)
  collect [] = ok []
  collect (result ∷ results) = do source ← result; rest ← collect results; ok (source ∷ rest)

  unfoldable pub extract_discovered_sources :
      (ℕ → ℕ) → List Source → Result IndexError (List ExtractedSource)
  unfolding run_jobs collect
  extract_discovered_sources takes sources = collect (run_jobs takes 0 (λ _. some []) sources)
