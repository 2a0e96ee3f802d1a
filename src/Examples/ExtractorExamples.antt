-- ===== src/Examples/ExtractorExamples.antt =====
-- Tests of the contributions of extractors.
use Prim.Native.Char.{code}
use agent_wayfinder.Prelude.{
  String, none, true, List, [], ◌∷◌, false, ◌≡◌, ◌≢◌, ◌↔◌, refl, some, ok, All, IsDistinct,
  contains, lookup, nat_eq,
}
use agent_wayfinder.Prelude.Int.{pos}
use agent_wayfinder.Graph.Vocabulary.{Vocabulary}
use agent_wayfinder.Graph.Validation.{
  validate, validate_nodes, validate_edges, validate_edge, validate_evidence, is_incomplete,
  starts_after_end, has_unsupported_confidence, endpoint_allowed,
}
use agent_wayfinder.Extractor.{
  Metadata, ContributionInput, Dependency, module_reference_import, diagnostic_info,
}
use agent_wayfinder.Extractor.Extensions.{
  Unicode, validate_metadata, check_extensions, normalize_extension, trim_space, trim_left,
  trim_right, to_lower,
}
use agent_wayfinder.Extractor.Extensions.Accepts.{IsMetadata, validate_metadata_iff}
use agent_wayfinder.Extractor.Contributions.{new_contribution, with_dependencies, contribution_of}
use agent_wayfinder.Extractor.Contributions.Accepts.{
  IsContribution, IsCopy, IsDependencyOf, new_contribution_iff, with_dependencies_iff,
  with_dependencies-IsContribution,
}
use agent_wayfinder.Extractor.LanguageVocabulary.{new_language_vocabulary}
use agent_wayfinder.Extractor.LanguageVocabulary.Accepts.{
  IsPrefixed, new_language_vocabulary_accepts,
}
use agent_wayfinder.Extractor.PageIndex.{
  Call, ResolverTargetRequest, ResolverPackagePageRequest, TargetResult, PackageResult,
  package_call, target_call, resolver_target, resolver_package_page, run, new_page_resolver_index,
}
use agent_wayfinder.Extractor.PageIndex.Repeats.{page_index_repeats}
use agent_wayfinder.Examples.GraphExamples.{vocabulary, facts, evidence}

-- The space, and no letter in upper case.
abbrev pub unicode : Unicode
unicode = record { is_space = λ c. nat_eq (code c) 32; to_lower = λ c. c }

abbrev pub go_metadata : Metadata
go_metadata = record { name = "go"; version = "1"; extensions = " go" ∷ ".mod" ∷ [] }

test_extension : normalize_extension unicode " go " ≡ ".go"
unfolding normalize_extension trim_space trim_left trim_right to_lower
test_extension = refl

validate_metadata_iff_example :
    (validate_metadata unicode go_metadata ≡ ok tt) ↔ IsMetadata unicode go_metadata
validate_metadata_iff_example = validate_metadata_iff unicode go_metadata

abbrev pub input : ContributionInput
input = record {
  project_id = "p";
  source_path = "main.go";
  metadata = go_metadata;
  facts = facts;
  catalog_units =
      record {
        node_id = "g";
        name = "main";
        kind = "go:function";
        owner = "";
        signature = "func main()";
        declaration_source = "func main() {}";
        comments = [];
        identifier_tokens = "main" ∷ [];
      }
      ∷ [];
  unresolved_references =
      record {
        source_id = "f";
        target = "fmt";
        kind = module_reference_import;
        ambiguous = false;
        bindings = [];
      }
      ∷ [];
  symbol_references =
      record {
        source_id = "g";
        target = "Println";
        receiver_type = "";
        relation = "go:calls";
        evidence = evidence;
      }
      ∷ [];
  exported_surfaces = record { node_id = "g"; name = "main" } ∷ [];
  dependencies = [];
  diagnostics = record { severity = diagnostic_info; message = "no tests" } ∷ [];
}

pub input_accepted : new_contribution unicode vocabulary input ≡ ok (contribution_of input)
unfolding new_contribution validate_metadata check_extensions normalize_extension trim_space
    trim_left trim_right to_lower validate validate_nodes validate_edges validate_edge
    validate_evidence is_incomplete starts_after_end has_unsupported_confidence endpoint_allowed
    contains lookup
input_accepted = refl

new_contribution_iff_example :
    (new_contribution unicode vocabulary input ≡ ok (contribution_of input)) ↔ (
      IsContribution unicode vocabulary (contribution_of input)
      × IsCopy input (contribution_of input))
new_contribution_iff_example = new_contribution_iff unicode vocabulary input (contribution_of input)

abbrev resolved : List Dependency
resolved = record { source_path = "main.go"; target_path = "util.go" } ∷ []

with_dependencies_iff_example :
    (with_dependencies (contribution_of input) resolved
      ≡ ok (record (contribution_of input) { dependencies = resolved }))
    ↔ (All (IsDependencyOf "main.go") resolved
        × (record (contribution_of input) { dependencies = resolved }
            ≡ record (contribution_of input) { dependencies = resolved }))
with_dependencies_iff_example =
    with_dependencies_iff (contribution_of input) resolved
      (record (contribution_of input) { dependencies = resolved })

resolved_accepted :
    with_dependencies (contribution_of input) resolved
    ≡ ok (record (contribution_of input) { dependencies = resolved })
unfolding with_dependencies
resolved_accepted = refl

with_dependencies-IsContribution_example :
    IsContribution unicode vocabulary (record (contribution_of input) { dependencies = resolved })
with_dependencies-IsContribution_example =
    with_dependencies-IsContribution unicode vocabulary (contribution_of input) resolved
      (record (contribution_of input) { dependencies = resolved })
      ((new_contribution_iff unicode vocabulary input (contribution_of input)).0 input_accepted).0
      resolved_accepted

abbrev go : String
go = "go"

abbrev go_kinds : List String
go_kinds = "go:function" ∷ "go:type" ∷ []

new_language_vocabulary_accepts_example :
    ((v : Vocabulary) × (new_language_vocabulary go go_kinds ≡ ok v))
    ↔ ((go ≢ "") × All (IsPrefixed go) go_kinds × (go_kinds ≢ []) × IsDistinct go_kinds)
new_language_vocabulary_accepts_example = new_language_vocabulary_accepts go go_kinds

abbrev page : ResolverPackagePageRequest
page = record {
  project_id = "p";
  language = "go";
  package_path = "util";
  after_source_path = "";
  limit = pos 10;
}

abbrev failed : PackageResult
failed = record { targets = []; error = some "busy" }

abbrev util : ResolverTargetRequest
util = record { project_id = "p"; language = "go"; source_path = "util.go" }

abbrev missing : TargetResult
missing = record {
  target = record {
    project_id = "p";
    source_path = "util.go";
    metadata = go_metadata;
    nodes = [];
    unresolved_references = [];
    symbol_references = [];
    exported_surfaces = [];
    diagnostics = [];
  };
  found = false;
  error = none;
}

abbrev later : List Call
later = package_call page failed ∷ target_call util (record missing { found = true }) ∷ []

page_index_repeats_example :
    (let s = resolver_target new_page_resolver_index util missing in
      resolver_target (run s.0 later) util (record missing { found = true })
      ≡ (run s.0 later, s.1, false))
    × (let s = resolver_package_page new_page_resolver_index page failed in
        resolver_package_page (run s.0 later) page (record failed { error = none })
        ≡ (run s.0 later, s.1, false))
page_index_repeats_example =
    page_index_repeats new_page_resolver_index later util missing (record missing { found = true })
      page failed (record failed { error = none })
