-- ===== src/Query.antt =====
-- query/path.go: the path between two nodes of the published graph. `Path` is the search in a set of
-- facts, and `Find` the question that is put to it. query/rank.go: `Rank` has the seeds of a question.
pub mod Path
pub mod Find
pub mod Rank
