-- ===== src/Catalog/Write/Exact.antt =====
-- The entries that `writeCatalogUnits` of index/catalog.go writes.
use agent_wayfinder.Prelude.{
  ℕ, String, List, [], ◌∷◌, is_empty, false, Option, none, some, map, lookup, ◌≡◌, refl, ◌∙◌, ap,
}
use agent_wayfinder.Extractor.{CatalogUnit}
use agent_wayfinder.Catalog.{
  CatalogEntry, CatalogEmbedding, CatalogWriteResult, EmbeddingGenerator, CatalogWriter,
}
use agent_wayfinder.Catalog.Units.{CatalogSynopsisInput, bounded_synopsis_input}
use agent_wayfinder.Catalog.Synopses.{
  SynopsisGenerator, selected_synopsis_destination, add_selected_synopsis,
}
use agent_wayfinder.Catalog.Synopses.Order.{
  IsOrder, selected_synopsis_destination-IsSettled, add_catalog_synopses-filled,
}
use agent_wayfinder.Catalog.Write.Completed.{completed, filled-IsCompleted}
use agent_wayfinder.Catalog.Write.Entries.{reused-IsStart, AreWritten}
use agent_wayfinder.Catalog.Write.{
  CatalogWriteOptions, CatalogError, write_failed, after_catalog, Arrivals, entries_by_node_id,
  reused, reuse_catalog_entries, entry_of_unit, write_entries, write_catalog_units,
}

map-map :
    {A B C : Type 0} (f : A → B) (g : B → C) (xs : List A)
    → map g (map f xs) ≡ map (λ x. g (f x)) xs
map-map f g [] = refl
map-map f g (x ∷ xs) = ap (λ l. g (f x) ∷ l) (map-map f g xs)

abbrev pub failure : Option String → Option CatalogError
failure none = none
failure (some e) = some (write_failed e)

module _ {F : Type 0} where
  -- The entry of a unit before synopses are generated: the last stored one of its node, if it is of the
  -- same input.
  abbrev pub entry_before :
      (CatalogSynopsisInput → String)
      → CatalogWriteOptions F
      → List CatalogEntry
      → CatalogUnit
      → CatalogEntry
  entry_before fingerprint options existing unit =
      reused (entry_of_unit fingerprint options.synopsis_source_limit unit)
        (lookup unit.node_id (entries_by_node_id existing []))

  abbrev pub entry_by :
      Option SynopsisGenerator
      → (CatalogSynopsisInput → String)
      → CatalogWriteOptions F
      → List CatalogEntry
      → CatalogUnit
      → CatalogEntry
  entry_by generator fingerprint options existing unit =
      completed generator options.synopsis_provider
        (bounded_synopsis_input options.synopsis_source_limit unit)
        (entry_before fingerprint options existing unit)

  -- The entry that is written for a unit.
  abbrev pub entry_written :
      (CatalogSynopsisInput → String)
      → CatalogWriteOptions F
      → List CatalogEntry
      → CatalogUnit
      → CatalogEntry
  entry_written fingerprint options existing unit =
      entry_by options.synopsis_generator fingerprint options existing unit

  reuse_catalog_entries-map :
      (fingerprint : CatalogSynopsisInput → String) (options : CatalogWriteOptions F)
      (existing : List CatalogEntry) (units : List CatalogUnit)
      → reuse_catalog_entries
          (map
            (λ (u : CatalogUnit). entry_of_unit fingerprint options.synopsis_source_limit u)
            units)
          existing
        ≡ map (λ (u : CatalogUnit). entry_before fingerprint options existing u) units
  unfolding reuse_catalog_entries entry_of_unit
  reuse_catalog_entries-map fingerprint options existing units =
      map-map (λ (u : CatalogUnit). entry_of_unit fingerprint options.synopsis_source_limit u)
        (λ (entry : CatalogEntry).
          reused entry (lookup entry.node_id (entries_by_node_id existing [])))
        units

  add_selected_synopsis-written :
      (arrive : List ℕ → List ℕ) (generator : Option SynopsisGenerator)
      (fingerprint : CatalogSynopsisInput → String) (options : CatalogWriteOptions F)
      (existing : List CatalogEntry) (units : List CatalogUnit)
      → IsOrder arrive
      → (add_selected_synopsis arrive
          (map (λ (u : CatalogUnit). entry_before fingerprint options existing u) units)
          units
          generator
          options.synopsis_provider
          options.synopsis_source_limit).0
        ≡ map (λ (u : CatalogUnit). entry_by generator fingerprint options existing u) units
  unfolding add_selected_synopsis
  add_selected_synopsis-written arrive none fingerprint options existing units order = refl
  add_selected_synopsis-written arrive (some generator) fingerprint options existing units order =
      add_catalog_synopses-filled (selected_synopsis_destination options.synopsis_provider)
        generator (λ (u : CatalogUnit). entry_before fingerprint options existing u)
        (λ (u : CatalogUnit). bounded_synopsis_input options.synopsis_source_limit u) arrive units
        order (selected_synopsis_destination-IsSettled options.synopsis_provider)

  after_catalog-writes :
      (arrivals : Arrivals) (writer : CatalogWriter F) (entries : List CatalogEntry)
      (existing : List (CatalogEmbedding F)) (generator : Option (EmbeddingGenerator F))
      (result : CatalogWriteResult) (answer : Option String)
      → let run = after_catalog arrivals writer entries existing generator result answer in
        (run.entries ≡ some entries) × (run.error ≡ failure answer)
  after_catalog-writes arrivals writer entries existing generator result none = (refl, refl)
  after_catalog-writes arrivals writer entries existing generator result (some e) = (refl, refl)

  entry_written-AreWritten :
      (fingerprint : CatalogSynopsisInput → String) (options : CatalogWriteOptions F)
      (existing : List CatalogEntry) (units : List CatalogUnit)
      → AreWritten fingerprint options existing units
          (map (λ (u : CatalogUnit). entry_written fingerprint options existing u) units)
  entry_written-AreWritten fingerprint options existing [] = tt
  entry_written-AreWritten fingerprint options existing (unit ∷ units) = (
    (
      entry_before fingerprint options existing unit,
      reused-IsStart fingerprint options.synopsis_source_limit existing unit,
      filled-IsCompleted options.synopsis_generator options.synopsis_provider
          (bounded_synopsis_input options.synopsis_source_limit unit)
          (entry_before fingerprint options existing unit),
    ),
    entry_written-AreWritten fingerprint options existing units,
  )

  write_catalog_units-entry_written :
      (arrivals : Arrivals) (fingerprint : CatalogSynopsisInput → String) (writer : CatalogWriter F)
      (units : List CatalogUnit) (existing_entries : List CatalogEntry)
      (existing : List (CatalogEmbedding F)) (options : CatalogWriteOptions F)
      → IsOrder arrivals.synopses
      → is_empty units ≡ false
      → let written =
          map (λ (u : CatalogUnit). entry_written fingerprint options existing_entries u) units in
        let run =
          write_catalog_units arrivals fingerprint none writer units existing_entries existing
            options in
        (run.entries ≡ some written) × (run.error ≡ failure (writer.write_catalog written))
  unfolding write_catalog_units write_entries
  write_catalog_units-entry_written arrivals fingerprint writer [] existing_entries existing options
        order h =
      cc
  write_catalog_units-entry_written arrivals fingerprint writer (unit ∷ units) existing_entries
        existing options order h =
      let all_units = unit ∷ units in
      let start =
        reuse_catalog_entries
          (map (λ (u : CatalogUnit). entry_of_unit fingerprint options.synopsis_source_limit u)
            all_units)
          existing_entries in
      let selected = λ (entries : List CatalogEntry).
        add_selected_synopsis arrivals.synopses entries all_units options.synopsis_generator
          options.synopsis_provider options.synopsis_source_limit in
      let same : (selected start).0
          ≡ map (λ (u : CatalogUnit). entry_written fingerprint options existing_entries u)
              all_units =
        ap (λ (entries : List CatalogEntry). (selected entries).0)
          (reuse_catalog_entries-map fingerprint options existing_entries all_units)
        ∙ add_selected_synopsis-written arrivals.synopses options.synopsis_generator fingerprint
            options existing_entries all_units order in
      let (handed, failed) =
        after_catalog-writes arrivals writer (selected start).0 existing options.embedding_generator
          (selected start).1 (writer.write_catalog (selected start).0) in
      (
        handed ∙ ap (λ (entries : List CatalogEntry). some entries) same,
        failed ∙ ap (λ (entries : List CatalogEntry). failure (writer.write_catalog entries)) same,
      )

  -- Where the context is not cancelled, `writeCatalogUnits` of some units hands over one entry for each
  -- unit, in their order, and fails exactly if the writer does. A unit's entry is the last stored one of
  -- its node, if that has the same name, fingerprint of the input and deterministic synopsis, or a new one
  -- with these and no synopsis of a model; if it lacks the provider's synopsis, it gets the one that is
  -- generated for the unit, unless that fails. The order in which the synopses arrive does not matter.
  pub write_catalog_units-written :
      (arrivals : Arrivals) (fingerprint : CatalogSynopsisInput → String) (writer : CatalogWriter F)
      (units : List CatalogUnit) (existing_entries : List CatalogEntry)
      (existing : List (CatalogEmbedding F)) (options : CatalogWriteOptions F)
      → IsOrder arrivals.synopses
      → is_empty units ≡ false
      → let run =
          write_catalog_units arrivals fingerprint none writer units existing_entries existing
            options in
        (written : List CatalogEntry) × AreWritten fingerprint options existing_entries units
          written
        × (run.entries ≡ some written)
        × (run.error ≡ failure (writer.write_catalog written))
  write_catalog_units-written arrivals fingerprint writer units existing_entries existing options
        order h =
      let (handed, failed) =
        write_catalog_units-entry_written arrivals fingerprint writer units existing_entries
          existing options order h in
      (
        map (λ (u : CatalogUnit). entry_written fingerprint options existing_entries u) units,
        entry_written-AreWritten fingerprint options existing_entries units,
        handed,
        failed,
      )
