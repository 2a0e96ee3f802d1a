-- ===== src/Lib.antt =====
-- A verification library for agent-wayfinder, which indexes the code of a workspace into a graph
-- and answers questions about it.
--
-- Parts and files. `Graph` (graph/facts.go) has the facts that extractors contribute: nodes,
-- edges and their evidence, the vocabulary of kinds and relations that they use
-- (`Graph.Vocabulary`: `NewVocabulary`), and the validation that every contribution passes before
-- it is stored (`Graph.Validation`: `Vocabulary.Validate`, `validateEvidence`). `Indexer`
-- (indexer/queue.go, indexer/lifecycle.go) is the background process that collects changed paths
-- for each workspace and publishes them in batches: `Indexer.Options` is `NewManager` with its
-- options, `Indexer.EventPath` is `normalizeEventPath` and `uniquePaths`, `Indexer.Queue` is
-- `Enqueue`, `publish` and `reconcileWorkspace`, `Indexer.Lifecycle` is `Start`, `Status`,
-- `Touch` and `Stop`. `Indexer.System` puts them together: a state of the manager with the
-- `publish` calls that run, and a list of actions for the interleaving of callers, timers and
-- callbacks. `Paths` models the functions of Go's path packages that the program calls, on a
-- system whose separator is a slash. `Prelude` has the shared notation and lemmas, and `Examples`
-- the tests. `Extractor` (extractor/contracts.go, extractor/vocabulary.go,
-- extractor/page_resolver_index.go) is what an extractor hands over: `Extractor.Extensions` is
-- `Metadata.Validate` with the normal form of a file extension, `Extractor.Contributions` is
-- `NewContribution`, which checks an input by the vocabulary and its parts against its nodes, and
-- `WithDependencies`; `Extractor.LanguageVocabulary` is `NewLanguageVocabulary`, which builds a
-- language's vocabulary with `NewVocabulary`; `Extractor.FileView` is the files that a resolver
-- may read, with `normalizeResolverPath`; and `Extractor.PageIndex` is the resolver index of a
-- page of sources, which remembers answers. `Query` (query/path.go) answers which path leads from
-- one node to another: `Query.Path` is `shortestPath` in a set of facts, and `Query.Find` is
-- `FindPathSnapshot`, which looks the two nodes up, asks the store for a traversal and searches
-- in it. `Extractor.Registry` (extractors/registry/registry.go) finds the extractor of a file by
-- its extension. `Indexing` (index/index.go, index/extraction_workers.go) is the pipeline from
-- the sources of a workspace to the facts that are published: `Indexing.Languages` is the table
-- of languages with the workers that extract, `Indexing.Extraction` is
-- `extractDiscoveredSources`, `Indexing.Changes` is `normalizeChangedPath` and
-- `extractChangedSources`, `Indexing.Groups` is `resolveWorkspaceFacts` and
-- `resolveIncrementalWorkspaceFacts`, `Indexing.Pages` is the walks over the pages of stored
-- sources, `Indexing.Dependencies` is `withResolvedDependencies`, `Indexing.Merge` is
-- `mergeSources`, `Indexing.Projection` is `projectionContribution`, `Indexing.Overrides` is the
-- resolver index of a snapshot, and `Indexing.Requests` and `Indexing.Batch` are `PublishBatch`,
-- which puts these together. `Query.Rank` (query/rank.go) ranks the seeds of a question:
-- `Rank.Fit` has the components of a score, `Rank.Fuse` is `fuseRankedSeeds`, `Rank.Diversify` is
-- `diversifyRankedSeeds`, and `Rank.Seeds` has the functions that read a snapshot. `Catalog`
-- (index/catalog.go, extractor/catalog.go) writes an entry for each declaration: `Catalog.Units`
-- has the deterministic synopsis and the input of a generator, `Catalog.Synopses` is
-- `addSelectedSynopsis`, `Catalog.Requests` and `Catalog.Embeddings` are `addCatalogEmbeddings`,
-- and `Catalog.Write` is `WriteCatalog`.
--
-- How the code is read. A Go method that mutates its receiver is a function to the new value;
-- `(value, error)` is `Result`; a `map` is an association list, read by `lookup`; a
-- `map[string]struct{}` is a list read by `contains`. An error message is modelled by its code
-- and the values that it formats, in order. An `int` that may be negative is an integer `ℤ`; a
-- duration is an `int64` of nanoseconds and doubles with wrap-around; an instant is a natural
-- number. The manager's mutex makes each stretch of code between `Lock` and `Unlock` one step:
-- `publish` and `reconcileWorkspace` give the lock up around their callbacks and are two steps
-- each, and `Stop` is one step for each round of its loop. What the environment answers (the file
-- lock, the publisher, the reconciler, the clock) is an argument of the step, so the theorems
-- hold for every answer. The node lookup and the traverser of the store are parameters, and so is
-- their answer to every request. So are the tables of Go's package `unicode`, and what the
-- resolver index would answer to each call. The score of a node match is left out, since a path
-- question does not read it, and the bytes of a file are a text. The extractors and resolvers of
-- the languages, the files, and the pages of the resolver store are parameters of the pipeline; a
-- schedule says which goroutine extracts which source, and the measurements and the progress that
-- it reports are left out. A score of a seed is of any type, with its operations; so are the
-- tables of letters and spaces of the package unicode. The generators of synopses and embeddings,
-- the writer of the catalog and the hash of an input are parameters, and an argument says in
-- which order the results of the goroutines arrive. In the catalog a character of a text stands
-- for a byte, and texts are valid UTF-8. `PublishBatch` takes the answers of the store, the
-- sources of the workspace, and what the first indexing would answer as parameters.
--
-- Bounds and fuel. The search for a path runs on fuel: one more than the number of nodes for the
-- loop over the frontier, and the number of nodes that were seen for the loop back, and the
-- search is proved to end within it. A walk over the pages of a store runs on fuel, and more than
-- the number of pages is proved to be enough. All other recursion is structural.
--
-- Not modelled: the SQLite store, the language extractors and their resolvers, the discovery of
-- the sources of a workspace, the pipeline of the first indexing, the reading of catalog units
-- off a file, the planner of questions, the command line, processes and network clients,
-- benchmarks and test kits; the component list of the manifest gives the reason for each.
pub mod Prelude
pub mod Paths
pub mod Graph
pub mod Indexer
pub mod Extractor
pub mod Query
pub mod Indexing
pub mod Catalog
mod Examples
