-- ===== src/Indexing/Projection.antt =====
-- index/index.go: `projectionContribution`.
use agent_wayfinder.Prelude.{[], Result, ◌>>=◌}
use agent_wayfinder.Extractor.{ContributionInput, Contribution}
use agent_wayfinder.Extractor.Contributions.{new_contribution}
use agent_wayfinder.Extractor.Extensions.{Unicode}
use agent_wayfinder.Indexing.{ResolverProjection, IndexError}
use agent_wayfinder.Indexing.Languages.{Languages, vocabulary_for_language}
use agent_wayfinder.Indexing.Merge.{created_contribution}

abbrev pub input_of_projection : ResolverProjection → ContributionInput
input_of_projection projection = record {
  project_id = projection.project_id;
  source_path = projection.source_path;
  metadata = projection.metadata;
  facts = record { nodes = projection.nodes; edges = projection.edges };
  catalog_units = [];
  unresolved_references = projection.unresolved_references;
  symbol_references = projection.symbol_references;
  exported_surfaces = projection.exported_surfaces;
  dependencies = projection.dependencies;
  diagnostics = projection.diagnostics;
}

unfoldable pub projection_contribution :
    Unicode → Languages → ResolverProjection → Result IndexError Contribution
unfolding vocabulary_for_language new_contribution
projection_contribution unicode languages projection = do
  vocabulary ← vocabulary_for_language languages projection.metadata.name
  created_contribution (new_contribution unicode vocabulary (input_of_projection projection))
