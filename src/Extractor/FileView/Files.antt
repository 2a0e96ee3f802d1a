-- ===== src/Extractor/FileView/Files.antt =====
-- What `File` of extractor/contracts.go answers for the files of a view.
use agent_wayfinder.Prelude.{
  String, ◌==◌, List, [], ◌∷◌, ◌≡◌, ◌⊎◌, inl, inr, refl, sym, ◌∙◌, ap, subst, Option, none, some,
  ok, err, Result, if◌then◌else◌, lookup, insert, lookup-insert, >>=-eq-ok, Result-cases,
}
use agent_wayfinder.Extractor.Extensions.{Unicode}
use agent_wayfinder.Extractor.FileView.{
  Contents, ResolverFileView, ViewError, OutsideProject, normalize_resolver_path, or_error,
  add_files, new_resolver_file_view, file, found_in, bad_file, bad_root, outside_project,
}

or_error-eq-ok :
    {E F A : Type 0} (unicode : Unicode) (f : F) (r : Result E A) (a : A)
    → or_error unicode f r ≡ ok a
    → r ≡ ok a
or_error-eq-ok unicode f (ok b) a h = cc h
or_error-eq-ok unicode f (err e) a h = cc h

-- What an entry with this normal form leaves: its contents, if the form is the one looked for.
unfoldable pub chosen :
    String → Contents → Option Contents → Result OutsideProject String → Option Contents
chosen normalized contents before (err e) = before
chosen normalized contents before (ok other) = if other == normalized then some contents else before

-- The contents of the last entry whose path has this normal form.
unfoldable pub last_contents :
    Unicode → String → Option Contents → List (String × Contents) → Option Contents
unfolding chosen
last_contents unicode normalized before [] = before
last_contents unicode normalized before ((path, contents) ∷ files) =
    last_contents unicode normalized
      (chosen normalized contents before (normalize_resolver_path unicode path)) files

accepted : {A : Type 0} {a b : A} → (let r : Result ViewError A = ok a in r) ≡ ok b → a ≡ b
accepted e = cc e

only_error : (e : OutsideProject) → e ≡ outside_project
only_error outside_project = refl

add_files-lookup :
    (unicode : Unicode) (normalized : String) (table result files : List (String × Contents))
    → add_files unicode table files ≡ ok result
    → lookup normalized result ≡ last_contents unicode normalized (lookup normalized table) files
unfolding add_files last_contents
add_files-lookup unicode normalized table result [] h = ap (lookup normalized) (sym (accepted h))
add_files-lookup unicode normalized table result ((path, contents) ∷ files) h =
    let (other, wrapped, rest) =
      >>=-eq-ok (or_error unicode (bad_file path) (normalize_resolver_path unicode path)) _ h in
    let e = or_error-eq-ok unicode (bad_file path) _ other wrapped in
    subst (λ o. lookup normalized result ≡ last_contents unicode normalized o files)
      (lookup-insert other normalized contents table
        ∙ ap (chosen normalized contents (lookup normalized table)) (sym e))
      (add_files-lookup unicode normalized (insert other contents table) result files rest)

-- `File` of a view that `NewResolverFileView` returns answers a path that stays inside the project with
-- the contents of the last file, in the order of the map's iteration, whose path has the same normal
-- form; and any other path with nothing.
pub file-last_contents :
    (unicode : Unicode) (root : String) (files : List (String × Contents)) (view : ResolverFileView)
    (path : String)
    → new_resolver_file_view unicode root files ≡ ok view
    → ((normalized : String) × (normalize_resolver_path unicode path ≡ ok normalized)
        × (file unicode view path ≡ last_contents unicode normalized none files))
      ⊎ (normalize_resolver_path unicode path ≡ err outside_project)
        × (file unicode view path ≡ none)
unfolding new_resolver_file_view file lookup
file-last_contents unicode root files view path h =
    let (project_root, _, h1) =
      >>=-eq-ok (or_error unicode bad_root (normalize_resolver_path unicode root)) _ h in
    let (table, t, h2) = >>=-eq-ok (add_files unicode [] files) _ h1 in
    elim (Result-cases (normalize_resolver_path unicode path)) [
      | inl (normalized, e) ↦ inl (
        normalized,
        e,
        ap (found_in unicode view) e
            ∙ ap (λ (v : ResolverFileView). lookup normalized v.files) (sym (accepted h2))
            ∙ add_files-lookup unicode normalized [] table files t,
      )
      | inr (failure, e) ↦
          inr (e ∙ ap (λ x. err x) (only_error failure), ap (found_in unicode view) e)
    ]
