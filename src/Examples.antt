-- ===== src/Examples.antt =====
-- Tests of the definitions, and each theorem with a hypothesis at a concrete input.
mod GraphExamples
mod IndexerExamples
mod QueryExamples
mod ExtractorExamples
mod FileViewExamples
mod IndexingExamples
mod ChangesExamples
mod RankExamples
mod BatchExamples
mod CatalogExamples
