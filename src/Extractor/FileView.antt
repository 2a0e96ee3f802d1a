-- ===== src/Extractor/FileView.antt =====
-- extractor/contracts.go: `normalizeResolverPath` and `ResolverFileView`, the files that a resolver
-- may read. A Go map of files is the list of its entries, in the order of the iteration.
pub mod Inside
pub mod Files
use Prim.Native.String
use agent_wayfinder.Prelude.{
  String, ◌==◌, List, [], ◌∷◌, ◌||◌, if◌then◌else◌, Option, none, some, Result, ok, err, lookup,
  insert, starts_with, ◌>>=◌,
}
use agent_wayfinder.Paths.{clean, is_abs}
use agent_wayfinder.Extractor.Extensions.{Unicode, trim_space}

-- `[]byte`
abbrev pub Contents : Type 0
Contents = String

pub record ResolverFileView : Type 0 where
  pub project_root : String
  pub files : List (String × Contents)

-- The error of `normalizeResolverPath`, which has one message, and those of the view.
pub data OutsideProject : Type 0 where
  outside_project : OutsideProject

pub data ViewError : Type 0 where
  bad_root : ViewError
  bad_file : String → ViewError

module _ (unicode : Unicode) where
  unfoldable pub normalize_resolver_path : String → Result OutsideProject String
  normalize_resolver_path value =
      let trimmed = trim_space unicode value in
      let normalized = clean trimmed in
      if trimmed == ""
      then err outside_project
      else if is_abs normalized || normalized == ".." || starts_with normalized "../"
      then err outside_project
      else ok normalized

  abbrev pub or_error : {E F A : Type 0} → F → Result E A → Result F A
  or_error f (ok a) = ok a
  or_error f (err e) = err f

  -- The loop over the files, which fills `view.files`.
  unfoldable pub add_files :
      List (String × Contents)
      → List (String × Contents)
      → Result ViewError (List (String × Contents))
  add_files table [] = ok table
  add_files table ((path, contents) ∷ files) = do
    normalized ← or_error (bad_file path) (normalize_resolver_path path)
    add_files (insert normalized contents table) files

  unfoldable pub new_resolver_file_view :
      String → List (String × Contents) → Result ViewError ResolverFileView
  unfolding add_files
  new_resolver_file_view root files = do
    project_root ← or_error bad_root (normalize_resolver_path root)
    table ← add_files [] files
    ok (record { project_root = project_root; files = table })

  -- `File`: the contents with `found`, as an option.
  abbrev pub found_in : ResolverFileView → Result OutsideProject String → Option Contents
  found_in view (err e) = none
  found_in view (ok normalized) = lookup normalized view.files

  unfoldable pub file : ResolverFileView → String → Option Contents
  file view path = found_in view (normalize_resolver_path path)
