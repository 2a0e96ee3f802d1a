-- ===== src/Indexing/Languages.antt =====
-- index/extraction_workers.go: what each language registers, and the workers that extract its sources.
-- `NewWorker` of a language is its result, a worker or the message of an error.
pub mod Keeps
use Prim.Native.Char.{Char, code}
use Prim.Native.String
use agent_wayfinder.Paths.{join_path}
use agent_wayfinder.Extractor.Extensions.{Unicode}
use agent_wayfinder.Prelude.{
  ℕ, nat_eq, if◌then◌else◌, String, ◌==◌, List, [], ◌∷◌, Bool, Option, none, some, lookup, insert,
  Result, ok, err, ◌>>=◌,
}
use agent_wayfinder.Graph.Vocabulary.{Vocabulary}
use agent_wayfinder.Extractor.{Contribution}
use agent_wayfinder.Extractor.FileView.{ResolverFileView, ViewError, new_resolver_file_view}
use agent_wayfinder.Indexing.{
  ExtractedSource, IndexError, failed, unsupported_extractor, create_worker, bad_file_view,
  read_go_module, Resolution, ResolverStore, PageResolvers, ResolverIndex,
}
use agent_wayfinder.Indexing.Pages.{
  resolve_typescript_projection_pages, resolve_javascript_projection_pages,
  resolve_go_projection_pages,
}

-- `extractor.Source`
pub record FileSource : Type 0 where
  pub project_id : String
  pub source_path : String
  pub contents : String

-- `extractionWorker`: `Extract`, and the error of `Close`.
pub record Worker : Type 0 where
  pub extract : FileSource → Result String Contribution
  pub close : Option String

-- A field that is `none` is `nil`.
pub record IndexLanguage : Type 0 where
  pub new_worker : Option (Result String Worker)
  pub extract : Option (FileSource → Result String Contribution)
  pub vocabulary : Option (Result String Vocabulary)
  pub resolve_workspace :
      Option (String → String → List Contribution → Result IndexError Resolution)
  pub resolve_projection_page :
      Option (String → String → List Contribution → ResolverIndex → Result IndexError Resolution)
  pub resolve_incremental_projections : Option (
      String
      → ResolverStore
      → String
      → List (String × ExtractedSource)
      → List String
      → Option (Result IndexError Resolution))

abbrev pub Languages : Type 0
Languages = List (String × IndexLanguage)

-- What the package of a language exports.
pub record LanguagePackage : Type 0 where
  pub new_worker : Result String Worker
  pub extract : FileSource → Result String Contribution
  pub vocabulary : Result String Vocabulary

-- `os.ReadFile`
pub data FileRead : Type 0 where
  contents_read : String → FileRead
  not_exist : FileRead
  read_failed : String → FileRead

pub record Packages : Type 0 where
  pub go : LanguagePackage
  pub javascript : LanguagePackage
  pub typescript : LanguagePackage
  pub resolve_go_with_file_view :
      List Contribution → ResolverFileView → Result IndexError Resolution
  pub resolve_javascript : List Contribution → Result IndexError Resolution
  pub resolve_typescript : List Contribution → Result IndexError Resolution
  pub pages : PageResolvers
  pub read_file : String → FileRead

-- What is left of a text that starts with another.
unfoldable pub strip_prefix : String → String → Option String
strip_prefix s String.[] = some s
strip_prefix String.[] (String.◌∷◌ d prefix) = none
strip_prefix (String.◌∷◌ c s) (String.◌∷◌ d prefix) =
    let rest = strip_prefix s prefix in if nat_eq (code c) (code d) then rest else none

-- `strings.TrimPrefix`
unfoldable pub trim_prefix : String → String → String
unfolding strip_prefix
trim_prefix s prefix = elim (strip_prefix s prefix) [ none ↦ s | some rest ↦ rest ]

abbrev pub view_or_error : Result ViewError ResolverFileView → Result IndexError ResolverFileView
view_or_error (ok view) = ok view
view_or_error (err e) = err (bad_file_view e)

abbrev pub view_of_read : Unicode → String → String → FileRead → Result IndexError ResolverFileView
view_of_read unicode project_id root (contents_read contents) =
    view_or_error (new_resolver_file_view unicode root (("go.mod", contents) ∷ []))
view_of_read unicode project_id root not_exist =
    view_or_error (new_resolver_file_view unicode root [])
view_of_read unicode project_id root (read_failed e) = err (read_go_module project_id e)

-- `filepath.FromSlash` changes nothing where the separator is a slash.
unfoldable pub go_resolver_file_view :
    Unicode → (String → FileRead) → String → String → Result IndexError ResolverFileView
unfolding trim_prefix
go_resolver_file_view unicode read root project_id =
    let project_root = trim_prefix project_id "project:" in
    view_of_read unicode project_id project_root
      (read (join_path (join_path root project_root) "go.mod"))

abbrev pub after_view :
    Result IndexError ResolverFileView
    → (ResolverFileView → Option (Result IndexError Resolution))
    → Option (Result IndexError Resolution)
after_view (ok view) next = next view
after_view (err e) next = some (err e)

-- `fuel` bounds the loops over the pages of the store.
unfoldable pub index_languages : Unicode → Packages → ℕ → Languages
unfolding go_resolver_file_view resolve_typescript_projection_pages
    resolve_javascript_projection_pages resolve_go_projection_pages
index_languages unicode packages fuel =
    (
      "go",
      record {
        new_worker = some packages.go.new_worker;
        extract = some packages.go.extract;
        vocabulary = some packages.go.vocabulary;
        resolve_workspace = some (λ root project_id contributions.
            go_resolver_file_view unicode packages.read_file root project_id >>= λ view.
            packages.resolve_go_with_file_view contributions view);
        resolve_projection_page = some (λ root project_id contributions index.
            go_resolver_file_view unicode packages.read_file root project_id >>= λ view.
            packages.pages.go contributions project_id index view);
        resolve_incremental_projections = some (λ root store project_id overrides deleted.
            after_view (go_resolver_file_view unicode packages.read_file root project_id) (λ view.
              resolve_go_projection_pages packages.pages store fuel project_id overrides deleted
                view));
      },
    )
    ∷ (
      "javascript",
      record {
        new_worker = some packages.javascript.new_worker;
        extract = some packages.javascript.extract;
        vocabulary = some packages.javascript.vocabulary;
        resolve_workspace =
            some (λ root project_id contributions. packages.resolve_javascript contributions);
        resolve_projection_page = some (λ root project_id contributions index.
            packages.pages.javascript contributions project_id index);
        resolve_incremental_projections = some (λ root store project_id overrides deleted.
            resolve_javascript_projection_pages packages.pages store fuel project_id overrides
              deleted);
      },
    )
    ∷ (
      "typescript",
      record {
        new_worker = some packages.typescript.new_worker;
        extract = some packages.typescript.extract;
        vocabulary = some packages.typescript.vocabulary;
        resolve_workspace =
            some (λ root project_id contributions. packages.resolve_typescript contributions);
        resolve_projection_page = some (λ root project_id contributions index.
            packages.pages.typescript contributions project_id index);
        resolve_incremental_projections = some (λ root store project_id overrides deleted.
            resolve_typescript_projection_pages packages.pages store fuel project_id overrides
              deleted);
      },
    )
    ∷ []

abbrev pub vocabulary_of : String → Option IndexLanguage → Result IndexError Vocabulary
vocabulary_of language none = err (unsupported_extractor language)
vocabulary_of language (some definition) = elim definition.vocabulary [
  | none ↦ err (unsupported_extractor language)
  | some answer ↦ elim answer [ ok vocabulary ↦ ok vocabulary | err e ↦ err (failed e) ]
]

unfoldable pub vocabulary_for_language : Languages → String → Result IndexError Vocabulary
vocabulary_for_language languages language = vocabulary_of language (lookup language languages)

-- `extractionWorkers.workers`; `none` is a nil pointer or map.
abbrev pub Workers : Type 0
Workers = Option (List (String × Worker))

-- A worker with `found`, as an option, or an error; and the workers after the call.
abbrev pub WorkerFor : Type 0
WorkerFor = Result IndexError (Option Worker) × Workers

abbrev pub created : String → List (String × Worker) → Option (Result String Worker) → WorkerFor
created language workers none = (ok none, some workers)
created language workers (some (ok worker)) =
    (ok (some worker), some (insert language worker workers))
created language workers (some (err e)) = (err (create_worker language e), some workers)

abbrev pub new_worker_of : Option IndexLanguage → Option (Result String Worker)
new_worker_of none = none
new_worker_of (some definition) = definition.new_worker

abbrev pub known_or_created :
    Languages → String → List (String × Worker) → Option Worker → WorkerFor
known_or_created languages language workers (some worker) = (ok (some worker), some workers)
known_or_created languages language workers none =
    created language workers (new_worker_of (lookup language languages))

unfoldable pub for_language : Languages → Workers → String → WorkerFor
for_language languages none language = (ok none, none)
for_language languages (some workers) language =
    known_or_created languages language workers (lookup language workers)

-- The loop of `Close`: every worker is closed, and the first error is kept.
unfoldable pub close_all : Option String → List (String × Worker) → Option String
close_all close_error [] = close_error
close_all close_error ((language, worker) ∷ workers) =
    close_all (elim close_error [ none ↦ worker.close | some e ↦ some e ]) workers

-- The error and the workers after `Close`.
unfoldable pub close : Workers → Option String × Workers
unfolding close_all
close none = (none, none)
close (some workers) = (close_all none workers, some [])

abbrev pub extracted : Result String Contribution → Result IndexError Contribution
extracted (ok contribution) = ok contribution
extracted (err e) = err (failed e)

abbrev pub extract_directly :
    String → FileSource → Option IndexLanguage → Result IndexError Contribution
extract_directly language source none = err (unsupported_extractor language)
extract_directly language source (some definition) = elim definition.extract [
  | none ↦ err (unsupported_extractor language)
  | some run ↦ extracted (run source)
]

abbrev pub extract_by :
    Languages → String → FileSource → WorkerFor → Result IndexError Contribution × Workers
extract_by languages language source (err e, workers) = (err e, workers)
extract_by languages language source (ok (some worker), workers) =
    (extracted (worker.extract source), workers)
extract_by languages language source (ok none, workers) =
    (extract_directly language source (lookup language languages), workers)

-- `extract`, for an extractor of that name.
unfoldable pub extract :
    Languages → String → FileSource → Workers → Result IndexError Contribution × Workers
unfolding for_language
extract languages language source workers =
    extract_by languages language source (for_language languages workers language)
