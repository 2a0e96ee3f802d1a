-- ===== src/Catalog/Write/Entries.antt =====
-- The entry of a unit that `writeCatalogUnits` of index/catalog.go writes: how it begins, and how it is
-- completed.
use agent_wayfinder.Prelude.{
  String, ◌==◌, eq_iff, List, [], ◌∷◌, ◌++◌, Bool-cases, some, All, lookup, insert, lookup-insert,
  if_true, if_false, ◌≡◌, ◌≢◌, ◌⊎◌, inl, inr, refl, ap, ◌∙◌, arith,
}
use agent_wayfinder.Prelude.Int.{ℤ}
use agent_wayfinder.Extractor.{CatalogUnit}
use agent_wayfinder.Catalog.{CatalogEntry}
use agent_wayfinder.Catalog.Units.{
  CatalogSynopsisInput, bounded_synopsis_input, deterministic_synopsis,
}
use agent_wayfinder.Catalog.Write.{
  CatalogWriteOptions, entries_by_node_id, is_same_entry, reused, entry_of_unit,
}
use agent_wayfinder.Catalog.Write.Completed.{IsCompleted}

abbrev pub AreOthers : String → List CatalogEntry → Type 0
AreOthers node entries = All (λ (entry : CatalogEntry). entry.node_id ≢ node) entries

-- The last of the entries of a node.
abbrev pub IsLast : String → List CatalogEntry → CatalogEntry → Type 0
IsLast node entries stored =
    (before : List CatalogEntry) × (after : List CatalogEntry) × (entries
      ≡ before ++ stored ∷ after)
    × (stored.node_id ≡ node)
    × AreOthers node after

entries_by_node_id-IsLast :
    (node : String) (entries : List CatalogEntry) (table : List (String × CatalogEntry))
    → ((stored : CatalogEntry) × IsLast node entries stored
        × (lookup node (entries_by_node_id entries table) ≡ some stored))
      ⊎ AreOthers node entries
        × (lookup node (entries_by_node_id entries table) ≡ lookup node table)
unfolding entries_by_node_id
entries_by_node_id-IsLast node [] table = inr (tt, refl)
entries_by_node_id-IsLast node (entry ∷ entries) table =
    elim (entries_by_node_id-IsLast node entries (insert entry.node_id entry table)) [
      | inl (stored, (before, after, split, same, others), found) ↦ inl (
        stored,
        (entry ∷ before, after, ap (λ (l : List CatalogEntry). entry ∷ l) split, same, others),
        found,
      )
      | inr (others, found) ↦
          let step = found ∙ lookup-insert entry.node_id node entry table in
          elim (Bool-cases (entry.node_id == node)) [
            | inl t ↦ inl (
              entry,
              ([], entries, refl, (eq_iff entry.node_id node).0 t, others),
              step ∙ if_true (entry.node_id == node) _ _ t,
            )
            | inr f ↦ inr (
              ((λ e. cc (f, (eq_iff entry.node_id node).1 e)), others),
              step ∙ if_false (entry.node_id == node) _ _ f,
            )
          ]
    ]

module _ (fingerprint : CatalogSynopsisInput → String) (limit : ℤ) where
  -- A stored entry is of the unit as it is now.
  abbrev pub IsCurrent : CatalogUnit → CatalogEntry → Type 0
  IsCurrent unit stored =
      (stored.name ≡ unit.name)
      × (stored.input_fingerprint ≡ fingerprint (bounded_synopsis_input limit unit))
      × (stored.deterministic_synopsis ≡ deterministic_synopsis unit)

  -- An entry of the unit that no model has described yet.
  abbrev pub new_entry : CatalogUnit → CatalogEntry
  new_entry unit = record {
    node_id = unit.node_id;
    name = unit.name;
    input_fingerprint = fingerprint (bounded_synopsis_input limit unit);
    deterministic_synopsis = deterministic_synopsis unit;
    copilot_synopsis = "";
    ollama_synopsis = "";
    claude_synopsis = "";
  }

  -- The last stored entry of the unit's node, if it is current, or else a new one.
  abbrev pub IsStart : List CatalogEntry → CatalogUnit → CatalogEntry → Type 0
  IsStart existing unit start =
      IsLast unit.node_id existing start × IsCurrent unit start
      ⊎ (start ≡ new_entry unit)
        × (AreOthers unit.node_id existing
            ⊎ ((stored : CatalogEntry) × IsLast unit.node_id existing stored
                × (¬ IsCurrent unit stored)))

  pub reused-IsStart :
      (existing : List CatalogEntry) (unit : CatalogUnit)
      → IsStart existing unit (
          reused
            (entry_of_unit fingerprint limit unit)
            (lookup unit.node_id (entries_by_node_id existing [])))
  unfolding entry_of_unit lookup
  reused-IsStart existing unit = elim (entries_by_node_id-IsLast unit.node_id existing []) [
    | inl (stored, last, found) ↦
        elim (Bool-cases (is_same_entry stored (entry_of_unit fingerprint limit unit))) [
          | inl t ↦
              rw (found, t)
                (inl (
                  last,
                  (ground (
                    arith,
                    eq_iff stored.name unit.name,
                    eq_iff stored.input_fingerprint
                        (fingerprint (bounded_synopsis_input limit unit)),
                    eq_iff stored.deterministic_synopsis (deterministic_synopsis unit),
                  )),
                ))
          | inr f ↦
              rw (found, f)
                (inr (
                  refl,
                  inr (
                    stored,
                    last,
                    λ current. ground (
                      arith,
                      eq_iff stored.name unit.name,
                      eq_iff stored.input_fingerprint
                          (fingerprint (bounded_synopsis_input limit unit)),
                      eq_iff stored.deterministic_synopsis (deterministic_synopsis unit),
                    ),
                  ),
                ))
        ]
    | inr (others, found) ↦ rw found (inr (refl, inl others))
  ]

module _ {F : Type 0} (fingerprint : CatalogSynopsisInput → String)
    (options : CatalogWriteOptions F) (existing : List CatalogEntry) where
  -- An entry that begins and is completed so.
  abbrev pub IsWritten : CatalogUnit → CatalogEntry → Type 0
  IsWritten unit entry =
      (start : CatalogEntry) × IsStart fingerprint options.synopsis_source_limit existing unit start
      × IsCompleted options.synopsis_generator options.synopsis_provider
          (bounded_synopsis_input options.synopsis_source_limit unit) start entry

  -- One entry for each unit, in their order.
  abbrev pub AreWritten : List CatalogUnit → List CatalogEntry → Type 0
  AreWritten [] [] = Unit
  AreWritten [] (entry ∷ entries) = ⊥
  AreWritten (unit ∷ units) [] = ⊥
  AreWritten (unit ∷ units) (entry ∷ entries) = IsWritten unit entry × AreWritten units entries
