-- ===== src/Indexing/Changes/Exact.antt =====
-- What `extractChangedSources` of index/index.go returns.
use agent_wayfinder.Prelude.{String, List, [], ◌∷◌, ◌++◌, map, Option, none, some, lookup, ◌≡◌}
use agent_wayfinder.Extractor.{Contribution}
use agent_wayfinder.Extractor.Registry.{Extractor, for_path}
use agent_wayfinder.Indexing.{Source, ExtractedSource}
use agent_wayfinder.Indexing.Extraction.{Environment}
use agent_wayfinder.Indexing.Changes.{Changed, deletion_source}

module _ (env : Environment) (sources_by_path : List (String × Source)) where
  abbrev pub source_at : Option Source → List Source
  source_at none = []
  source_at (some source) = source ∷ []

  -- The sources that the workspace has.
  abbrev pub found_in : List String → List Source
  found_in [] = []
  found_in (path ∷ paths) = source_at (lookup path sources_by_path) ++ found_in paths

  abbrev pub gone_at : String → Option Source → Option Extractor → List String
  gone_at path (some source) o = []
  gone_at path none none = []
  gone_at path none (some language) = path ∷ []

  -- The paths of supported files that the workspace does not have.
  abbrev pub gone_in : List String → List String
  gone_in [] = []
  gone_in (path ∷ paths) =
      gone_at path (lookup path sources_by_path) (for_path env.unicode env.registered path)
      ++ gone_in paths

  -- The source of a path with nothing in it.
  pub record IsDeletion (gone : String) (source : ExtractedSource) : Type 0 where
    pub path : source.contribution.source_path ≡ gone
    pub facts : source.contribution.facts ≡ record { nodes = []; edges = [] }
    pub project : source.project_id ≡ ""

  abbrev pub AreDeletions : List String → List ExtractedSource → Type 0
  AreDeletions [] [] = Unit
  AreDeletions [] (s ∷ sources) = ⊥
  AreDeletions (p ∷ paths) [] = ⊥
  AreDeletions (p ∷ paths) (s ∷ sources) = IsDeletion p s × AreDeletions paths sources

  -- What a round of the loop adds.
  record Adds (before after : Changed) (found : List Source) (gone : List String) : Type 0 where
    made : List Contribution
    sources : after.sources ≡ before.sources ++ found
    deleted : after.deleted ≡ before.deleted ++ gone
    deletions : after.deletions ≡ before.deletions ++ made
    are : AreDeletions gone (map (deletion_source env) made)
