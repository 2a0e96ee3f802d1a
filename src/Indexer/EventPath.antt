-- ===== src/Indexer/EventPath.antt =====
-- indexer/queue.go: `normalizeEventPath`, `isParentPath` and `uniquePaths`.
pub mod Unique
pub mod Inside
use Prim.Native.String.{len}
use text.Mathlib.Text.{starts_with}
use agent_wayfinder.Prelude.{
  String, List, [], ◌∷◌, Bool, not, ◌&&◌, ◌||◌, ◌==◌, ltb, if◌then◌else◌, contains, Result, ok, err,
}
use agent_wayfinder.Paths.{is_abs, clean, join_path, rel}

pub data PathError : Type 0 where
  event_path_required : PathError
  resolve_event_path : PathError
  outside_workspace : String → PathError

unfoldable pub is_parent_path : String → Bool
is_parent_path path = ltb (len "../") (len path) && starts_with path "../"

unfoldable pub check_relative : String → Result (Unit {0}) String → Result PathError String
unfolding is_parent_path
check_relative path (err e) = err resolve_event_path
check_relative path (ok relative) =
    if relative == "." || relative == ".." || is_abs relative || is_parent_path relative
    then err (outside_workspace path)
    else ok relative

-- `filepath.ToSlash` changes nothing where the separator is a slash.
unfoldable pub normalize_event_path : String → String → Result PathError String
unfolding check_relative
normalize_event_path workspace path =
    if path == ""
    then err event_path_required
    else let cleaned = clean (if not (is_abs path) then join_path workspace path else path) in
      check_relative cleaned (rel workspace cleaned)

unfoldable pub unique_from : List String → List String → List String
unique_from seen [] = []
unique_from seen (p ∷ paths) =
    let known = contains seen p in
    let rest = unique_from (if known then seen else p ∷ seen) paths in
    if known then rest else p ∷ rest

unfoldable pub unique_paths : List String → List String
unfolding unique_from
unique_paths paths = unique_from [] paths
