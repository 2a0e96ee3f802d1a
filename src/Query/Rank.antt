-- ===== src/Query/Rank.antt =====
-- query/rank.go: the requests for seeds, and the types of their answers. A score is a `float64` in the
-- source and of any type here, with the operations that are used.
pub mod Texts
pub mod Fit
pub mod Fuse
pub mod Diversify
pub mod Seeds
pub mod Keeps
use agent_wayfinder.Prelude.{ℕ, String, List, Bool}
use agent_wayfinder.Prelude.Int.{ℤ}
use agent_wayfinder.Graph.{NodeKind, Node}

-- `storage.LexicalSearchRequest`
pub record LexicalSearchRequest : Type 0 where
  pub text : String
  pub phrases : List String
  pub token_groups : List (List String)
  pub kinds : List NodeKind
  pub project_ids : List String
  pub source_path : String
  pub limit : ℤ

pub record SeedRequest : Type 0 where
  pub role : String
  pub entity_role : String
  pub retrieval : LexicalSearchRequest

-- The operations on scores.
pub record Scores (S : Type 0) : Type 0 where
  pub nought : S
  pub one : S
  pub add : S → S → S
  pub div : S → S → S
  pub greatest : S → S → S
  pub of_count : ℕ → S
  pub is_below : S → S → Bool
  pub is_same : S → S → Bool

pub record SeedScoreComponents (S : Type 0) : Type 0 where
  pub exact : S
  pub lexical : S
  pub entity_role : S
  pub node_kind : S
  pub project_scope : S
  pub path_affinity : S
  pub token_coverage : S
  pub reciprocal_rank : S

pub record SeedRanking (S : Type 0) : Type 0 where
  pub node_id : String
  pub score : S
  pub components : SeedScoreComponents S

pub record SeedSet (S : Type 0) : Type 0 where
  pub role : String
  pub term : String
  pub nodes : List Node
  pub rankings : List (SeedRanking S)

pub record RankedSeed (S : Type 0) : Type 0 where
  pub node : Node
  pub score : S
  pub components : SeedScoreComponents S

-- `storage.LexicalMatch`, whose matched fields are not read.
pub record LexicalMatch (S : Type 0) : Type 0 where
  pub node : Node
  pub score : S
