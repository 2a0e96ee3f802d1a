-- ===== src/Examples/FileViewExamples.antt =====
-- Tests of the resolver's file view and of clean paths.
use Prim.Native.Char.{code}
use agent_wayfinder.Prelude.{
  String, List, [], ◌∷◌, false, ◌≡◌, ◌⊎◌, refl, All, none, ok, err, nat_eq, insert,
}
use agent_wayfinder.Prelude.{◌++◌, true}
use agent_wayfinder.Indexer.EventPath.{normalize_event_path, is_parent_path}
use agent_wayfinder.Indexer.EventPath.Inside.{full_path, normalize_event_path-IsName}
use agent_wayfinder.Paths.{
  join_path, rel, strip_common, clean, clean_segments, clean_stack, push_segment, split, join,
  is_abs,
}
use agent_wayfinder.Paths.Names.{IsName}
use agent_wayfinder.Extractor.Extensions.{Unicode, trim_space, trim_left, trim_right}
use agent_wayfinder.Extractor.FileView.{
  Contents, ResolverFileView, normalize_resolver_path, outside_project, new_resolver_file_view,
  add_files, file,
}
use agent_wayfinder.Extractor.FileView.Inside.{normalize_resolver_path-IsName}
use agent_wayfinder.Extractor.FileView.Files.{last_contents, file-last_contents}

abbrev spaces : Unicode
spaces = record { is_space = λ c. nat_eq (code c) 32; to_lower = λ c. c }

normalized_path : normalize_resolver_path spaces " src/./x/../a.go" ≡ ok "src/a.go"
unfolding normalize_resolver_path trim_space trim_left trim_right clean clean_segments clean_stack
    push_segment split join is_abs
normalized_path = refl

test_outside : normalize_resolver_path spaces "src/../../a.go" ≡ err outside_project
unfolding normalize_resolver_path trim_space trim_left trim_right clean clean_segments clean_stack
    push_segment split join is_abs
test_outside = refl

normalize_resolver_path-IsName_example :
    ("src/a.go" ≡ clean (trim_space spaces " src/./x/../a.go"))
    × (is_abs (trim_space spaces " src/./x/../a.go") ≡ false)
    × All IsName (clean_segments (trim_space spaces " src/./x/../a.go"))
normalize_resolver_path-IsName_example =
    normalize_resolver_path-IsName spaces " src/./x/../a.go" "src/a.go" normalized_path

abbrev files : List (String × Contents)
files = ("a.go", "package a") ∷ ("./b.go", "package b") ∷ []

abbrev view : ResolverFileView
view = record { project_root = "."; files = ("a.go", "package a") ∷ ("b.go", "package b") ∷ [] }

view_of_files : new_resolver_file_view spaces "." files ≡ ok view
unfolding new_resolver_file_view add_files normalize_resolver_path trim_space trim_left trim_right
    clean clean_segments clean_stack push_segment split join is_abs insert
view_of_files = refl

file-last_contents_example :
    ((normalized : String) × (normalize_resolver_path spaces "x/../b.go" ≡ ok normalized)
      × (file spaces view "x/../b.go" ≡ last_contents spaces normalized none files))
    ⊎ (normalize_resolver_path spaces "x/../b.go" ≡ err outside_project)
      × (file spaces view "x/../b.go" ≡ none)
file-last_contents_example = file-last_contents spaces "." files view "x/../b.go" view_of_files

event_path : normalize_event_path "/repo" "src/../main.go" ≡ ok "main.go"
unfolding normalize_event_path is_parent_path clean clean_segments clean_stack push_segment
    join_path rel split join is_abs strip_common
event_path = refl

repo_rooted : is_abs "/repo" ≡ true
unfolding is_abs
repo_rooted = refl

normalize_event_path-IsName_example :
    (names : List String) × (clean_segments (full_path "/repo" "src/../main.go")
      ≡ clean_segments "/repo" ++ names)
    × All IsName names
    × ("main.go" ≡ join names)
normalize_event_path-IsName_example =
    normalize_event_path-IsName "/repo" "src/../main.go" "main.go" repo_rooted event_path
