-- ===== src/Indexing/Changes/Inside.antt =====
-- A path that `normalizeChangedPath` of index/index.go returns lies below the workspace.
use agent_wayfinder.Prelude.{
  String, ◌==◌, List, ◌++◌, true, false, ◌≡◌, ap, subst, All, arith, Result, ok, err,
}
use agent_wayfinder.Paths.{clean_segments, join, is_abs, rel}
use agent_wayfinder.Paths.Names.{IsName}
use agent_wayfinder.Indexer.EventPath.{is_parent_path}
use agent_wayfinder.Indexer.EventPath.Inside.{
  full_path, full_path-is_abs, is_refused, unless-ok, accept, rel_below,
}
use agent_wayfinder.Indexing.{changed_path_required, outside_workspace}
use agent_wayfinder.Indexing.Changes.{is_outside, check_changed, normalize_changed_path}

-- The test here refuses all that the test of the indexer refuses.
outside_refused : (relative : String) → is_outside relative ≡ false → is_refused relative ≡ false
unfolding is_parent_path
outside_refused relative h = ground (arith, h)

check_changed-eq-ok :
    (path : String) (r : Result (Unit {0}) String) (p : String)
    → check_changed path r ≡ ok p
    → (r ≡ ok p) × (is_refused p ≡ false)
check_changed-eq-ok path (err e) p h = cc h
check_changed-eq-ok path (ok relative) p h =
    let (passed, same) = accept (is_outside relative) (outside_workspace path) relative p h in
    (ap (λ t. ok t) same, outside_refused p (subst (λ t. is_outside t ≡ false) same passed))

-- For an absolute root, a path that `normalizeChangedPath` returns is made of names, and the segments
-- of the path that was meant are those of the root followed by these names.
pub normalize_changed_path-IsName :
    (root path p : String)
    → is_abs root ≡ true
    → normalize_changed_path root path ≡ ok p
    → (names : List String) × (clean_segments (full_path root path) ≡ clean_segments root ++ names)
      × All IsName names
      × (p ≡ join names)
unfolding normalize_changed_path
normalize_changed_path-IsName root path p rooted h =
    let full = full_path root path in
    let (related, accepted) =
      check_changed-eq-ok path (rel root full) p
        (unless-ok (path == "") changed_path_required (check_changed path (rel root full)) p h) in
    rel_below root full p rooted (full_path-is_abs root path rooted) related accepted
