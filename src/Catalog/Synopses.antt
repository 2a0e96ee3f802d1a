-- ===== src/Catalog/Synopses.antt =====
-- index/catalog.go: `addSelectedSynopsis` and `addCatalogSynopses`, which has the synopses generated that
-- the entries lack. Goroutines generate them at the same time, and `arrive` puts the indexes of the entries
-- in the order in which the results arrive.
pub mod Order
use Prim.Native.String
use agent_wayfinder.Prelude.{
  ℕ, zero, suc, String, ◌==◌, List, [], ◌∷◌, Bool, false, not, if◌then◌else◌, Option, none, some,
  map, is_empty, Result, ok, err,
}
use agent_wayfinder.Prelude.Int.{ℤ}
use agent_wayfinder.Extractor.{CatalogUnit}
use agent_wayfinder.Catalog.{CatalogEntry, CatalogWriteResult, nothing_unavailable}
use agent_wayfinder.Catalog.Units.{CatalogSynopsisInput, bounded_synopsis_input}

-- `release` is there if the generator is a `CatalogSynopsisModelReleaser` too; it answers with an error.
pub record SynopsisGenerator : Type 0 where
  pub generate : CatalogSynopsisInput → Result String String
  pub release : Option (Option String)

abbrev pub catalog_synopsis_provider_copilot : String
catalog_synopsis_provider_copilot = "copilot"

abbrev pub catalog_synopsis_provider_ollama : String
catalog_synopsis_provider_ollama = "ollama"

abbrev pub catalog_synopsis_provider_claude : String
catalog_synopsis_provider_claude = "claude"

-- What `selectedSynopsisDestination` returns.
pub record SynopsisDestination : Type 0 where
  pub provider : String
  pub complete : CatalogEntry → Bool
  pub store : String → CatalogEntry → CatalogEntry
  pub unavailable : String → CatalogWriteResult

abbrev pub copilot_unavailable : String → CatalogWriteResult
copilot_unavailable message = record nothing_unavailable { copilot_unavailable_reason = message }

abbrev pub to_copilot : SynopsisDestination
to_copilot = record {
  provider = "Copilot";
  complete = λ entry. not (entry.copilot_synopsis == "");
  store = λ synopsis entry. record entry { copilot_synopsis = synopsis };
  unavailable = copilot_unavailable;
}

abbrev pub to_ollama : SynopsisDestination
to_ollama = record {
  provider = "Ollama";
  complete = λ entry. not (entry.ollama_synopsis == "");
  store = λ synopsis entry. record entry { ollama_synopsis = synopsis };
  unavailable = λ message. record nothing_unavailable { ollama_unavailable_reason = message };
}

abbrev pub to_claude : SynopsisDestination
to_claude = record {
  provider = "Claude";
  complete = λ entry. not (entry.claude_synopsis == "");
  store = λ synopsis entry. record entry { claude_synopsis = synopsis };
  unavailable = λ message. record nothing_unavailable { claude_unavailable_reason = message };
}

abbrev pub to_nothing : SynopsisDestination
to_nothing = record {
  provider = "Catalog";
  complete = λ entry. false;
  store = λ synopsis entry. entry;
  unavailable = copilot_unavailable;
}

unfoldable pub selected_synopsis_destination : String → SynopsisDestination
selected_synopsis_destination provider =
    if provider == catalog_synopsis_provider_copilot
    then to_copilot
    else if provider == catalog_synopsis_provider_ollama
    then to_ollama
    else if provider == catalog_synopsis_provider_claude
    then to_claude
    else to_nothing

-- The answer for an index; there is an input for each entry.
unfoldable pub answer_at :
    (CatalogSynopsisInput → Result String String)
    → List CatalogSynopsisInput
    → ℕ
    → Result String String
answer_at generate [] index = err ""
answer_at generate (input ∷ inputs) zero = generate input
answer_at generate (input ∷ inputs) (suc index) = answer_at generate inputs index

-- The indexes of the entries that are not complete.
unfoldable pub pending_from : (CatalogEntry → Bool) → ℕ → List CatalogEntry → List ℕ
pending_from complete index [] = []
pending_from complete index (entry ∷ entries) =
    let rest = pending_from complete (suc index) entries in
    if complete entry then rest else index ∷ rest

-- A write to `entries[index]`.
unfoldable pub update_at : (CatalogEntry → CatalogEntry) → ℕ → List CatalogEntry → List CatalogEntry
update_at change index [] = []
update_at change zero (entry ∷ entries) = change entry ∷ entries
update_at change (suc index) (entry ∷ entries) = entry ∷ update_at change index entries

module _ (destination : SynopsisDestination) (answer : ℕ → Result String String) where
  abbrev pub collect_answer :
      ℕ → Result String String → List CatalogEntry × String → List CatalogEntry × String
  collect_answer index (err e) (entries, message) =
      (entries, String.◌++◌ destination.provider " synopsis generation is unavailable")
  collect_answer index (ok synopsis) (entries, message) =
      (update_at (destination.store synopsis) index entries, message)

  -- The loop over the results, as they arrive.
  unfoldable pub collect_answers : List ℕ → List CatalogEntry × String → List CatalogEntry × String
  unfolding update_at
  collect_answers [] output = output
  collect_answers (index ∷ indexes) output =
      collect_answers indexes (collect_answer index (answer index) output)

unfoldable pub add_catalog_synopses :
    (List ℕ → List ℕ)
    → List CatalogEntry
    → List CatalogSynopsisInput
    → SynopsisGenerator
    → SynopsisDestination
    → List CatalogEntry × String
unfolding pending_from collect_answers answer_at
add_catalog_synopses arrive entries inputs generator destination =
    let pending = pending_from destination.complete 0 entries in
    if is_empty pending
    then (entries, "")
    else collect_answers destination (answer_at generator.generate inputs) (arrive pending)
        (entries, "")

unfoldable pub add_selected_synopsis :
    (List ℕ → List ℕ)
    → List CatalogEntry
    → List CatalogUnit
    → Option SynopsisGenerator
    → String
    → ℤ
    → List CatalogEntry × CatalogWriteResult
unfolding selected_synopsis_destination add_catalog_synopses bounded_synopsis_input
add_selected_synopsis arrive entries units none provider source_limit =
    (entries, nothing_unavailable)
add_selected_synopsis arrive entries units (some generator) provider source_limit =
    let destination = selected_synopsis_destination provider in
    let inputs = map (λ (unit : CatalogUnit). bounded_synopsis_input source_limit unit) units in
    let (added, message) = add_catalog_synopses arrive entries inputs generator destination in
    (added, destination.unavailable message)
