-- ===== src/Extractor/Registry/Accepts.antt =====
-- Which extractors `New` of extractors/registry/registry.go registers, and which of them reads a file.
use agent_wayfinder.Prelude.{
  String, List, [], ◌∷◌, ◌++◌, Option, none, some, lookup, insert, keys, Has, IsDistinct, All,
  Result, ok, err, wrap, wrap_iff, ◌≡◌, ◌↔◌, inl, inr, refl, sym, ◌∙◌, ap, arith, >>=-eq-ok,
  Option-cases, subst, lookup-Has, lookup_of_Has,
}
use agent_wayfinder.Graph.Vocabulary.{Vocabulary}
use agent_wayfinder.Extractor.Extensions.{
  Unicode, normalize_extension, extension_of, validate_metadata,
}
use agent_wayfinder.Extractor.Extensions.Accepts.{IsMetadata, validate_metadata_iff}
use agent_wayfinder.Extractor.Registry.{
  Extractor, Registry, add_extension, register_extensions, check_vocabulary, invalid_metadata,
  register_all, empty_registry, new_registry, for_path,
}
use agent_wayfinder.Extractor.Registry.Tables.{
  AreNew, insert_all, AreNew-insert, AreNew-append, insert_all-append, lookup-insert_all,
  empty_has_none,
}
use mathlib.Core.List.{append_assoc, append-nil}

module _ (unicode : Unicode) where
  -- An extractor under each of its extensions.
  abbrev pub extension_entries : Extractor → List String → List (String × Extractor)
  extension_entries registered [] = []
  extension_entries registered (extension ∷ rest) =
      (normalize_extension unicode extension, registered) ∷ extension_entries registered rest

  abbrev pub entries : List (Option Extractor) → List (String × Extractor)
  entries [] = []
  entries (none ∷ rest) = entries rest
  entries (some registered ∷ rest) =
      extension_entries registered registered.metadata.extensions ++ entries rest

  -- An extractor that can be registered.
  abbrev pub IsExtractor : Option Extractor → Type 0
  IsExtractor none = ⊥
  IsExtractor (some registered) =
      IsMetadata unicode registered.metadata
      × ((vocabulary : Vocabulary) × (registered.vocabulary ≡ ok vocabulary))

  add_extension_iff :
      (registered : Extractor) (n : String) (table next : List (String × Extractor))
      → (o : Option Extractor)
      → (add_extension registered n table o ≡ ok next)
        ↔ ((o ≡ none) × (next ≡ insert n registered table))
  add_extension_iff registered n table next none = ground arith
  add_extension_iff registered n table next (some e) = ground arith

  register_extensions_iff :
      (registered : Extractor) (table next : List (String × Extractor)) (extensions : List String)
      → (register_extensions unicode registered table extensions ≡ ok next) ↔ (
          AreNew table (extension_entries registered extensions)
          × (next ≡ insert_all table (extension_entries registered extensions)))
  unfolding register_extensions
  register_extensions_iff registered table next [] = ground arith
  register_extensions_iff registered table next (extension ∷ rest) =
      let n = normalize_extension unicode extension in
      let listed = extension_entries registered rest in
      elim (Option-cases (lookup n table)) [
        | inl e ↦ rw e (
            ground (
              arith,
              AreNew-insert n registered table listed,
              register_extensions_iff registered (insert n registered table) next rest,
            ))
        | inr (current, e) ↦ rw e (ground arith)
      ]

  abbrev pub present : List (Option Extractor) → List Extractor
  present [] = []
  present (none ∷ rest) = present rest
  present (some registered ∷ rest) = registered ∷ present rest

  check_vocabulary_iff :
      (name : String) (answer : Result String Vocabulary)
      → (check_vocabulary name answer ≡ ok tt)
        ↔ ((vocabulary : Vocabulary) × (answer ≡ ok vocabulary))
  check_vocabulary_iff name (ok vocabulary) = (λ _. (vocabulary, refl), λ _. refl)
  check_vocabulary_iff name (err e) = (λ h. cc, λ (vocabulary, h). cc)

  checks_iff :
      (registered : Extractor)
      → ((wrap invalid_metadata (validate_metadata unicode registered.metadata) ≡ ok tt)
          × (check_vocabulary registered.metadata.name registered.vocabulary ≡ ok tt))
        ↔ IsExtractor (some registered)
  checks_iff registered =
      let (metadata, from_metadata) = validate_metadata_iff unicode registered.metadata in
      let (unwrap, rewrap) =
        wrap_iff invalid_metadata (validate_metadata unicode registered.metadata) in
      let (vocabulary, from_vocabulary) =
        check_vocabulary_iff registered.metadata.name registered.vocabulary in
      (
        λ (m, v). (metadata (unwrap m), vocabulary v),
        λ (m, v). (rewrap (from_metadata m), from_vocabulary v),
      )

  -- The registry after the loop over the extractors.
  abbrev pub with_extractors : Registry → List (Option Extractor) → Registry
  with_extractors registry extractors = record {
    by_extension = insert_all registry.by_extension (entries extractors);
    extractors = registry.extractors ++ present extractors;
  }

  after_first :
      (registry : Registry) (registered : Extractor) (rest : List (Option Extractor))
      (table : List (String × Extractor))
      → table
        ≡ insert_all registry.by_extension
            (extension_entries registered registered.metadata.extensions)
      → with_extractors
          (record { by_extension = table; extractors = registry.extractors ++ registered ∷ [] })
          rest
        ≡ with_extractors registry (some registered ∷ rest)
  after_first registry registered rest table e =
      let listed = extension_entries registered registered.metadata.extensions in
      rw
        (
          e,
          insert_all-append listed (entries rest) registry.by_extension,
          append_assoc registry.extractors (registered ∷ []) (present rest),
        )
        refl

  register_all_to :
      (registry result : Registry) (extractors : List (Option Extractor))
      → register_all unicode registry extractors ≡ ok result
      → All IsExtractor extractors
        × AreNew registry.by_extension (entries extractors)
        × (result ≡ with_extractors registry extractors)
  unfolding register_all
  register_all_to registry result [] h = (tt, (tt, tt), rw (append-nil registry.extractors) (cc))
  register_all_to registry result (none ∷ rest) h = cc
  register_all_to registry result (some registered ∷ rest) h =
      let extensions = registered.metadata.extensions in
      let (_, valid, h1) =
        >>=-eq-ok (wrap invalid_metadata (validate_metadata unicode registered.metadata)) _ h in
      let (_, named, h2) =
        >>=-eq-ok (check_vocabulary registered.metadata.name registered.vocabulary) _ h1 in
      let (table, added, h3) =
        >>=-eq-ok (register_extensions unicode registered registry.by_extension extensions) _ h2 in
      let (new, e) =
        (register_extensions_iff registered registry.by_extension table extensions).0 added in
      let next : Registry = record {
        by_extension = table;
        extractors = registry.extractors ++ registered ∷ [];
      } in
      let (all, new_rest, same) = register_all_to next result rest h3 in
      let listed = extension_entries registered extensions in
      (
        ((checks_iff registered).0 (valid, named), all),
        (AreNew-append listed (entries rest) registry.by_extension).1
            (new, subst (λ t. AreNew t (entries rest)) e new_rest),
        same ∙ after_first registry registered rest table e,
      )

  register_all_from :
      (registry : Registry) (extractors : List (Option Extractor))
      → All IsExtractor extractors
      → AreNew registry.by_extension (entries extractors)
      → register_all unicode registry extractors ≡ ok (with_extractors registry extractors)
  unfolding register_all
  register_all_from registry [] all new = rw (append-nil registry.extractors) refl
  register_all_from registry (none ∷ rest) all new = absurd all.0
  register_all_from registry (some registered ∷ rest) all new =
      let extensions = registered.metadata.extensions in
      let listed = extension_entries registered extensions in
      let table = insert_all registry.by_extension listed in
      let (new_first, new_rest) =
        (AreNew-append listed (entries rest) registry.by_extension).0 new in
      let next : Registry = record {
        by_extension = table;
        extractors = registry.extractors ++ registered ∷ [];
      } in
      let (valid, named) = (checks_iff registered).1 all.0 in
      let added =
        (register_extensions_iff registered registry.by_extension table extensions).1
          (new_first, refl) in
      rw (valid, named, added)
        (register_all_from next rest all.1 new_rest
          ∙ ap ok (after_first registry registered rest table refl))

  -- `New` returns a registry exactly if each extractor is there, has valid metadata and a vocabulary,
  -- and no two normalized extensions of all of them are the same.
  pub new_registry_iff :
      (extractors : List (Option Extractor))
      → ((registry : Registry) × (new_registry unicode extractors ≡ ok registry))
        ↔ (All IsExtractor extractors × IsDistinct (keys (entries extractors)))
  unfolding new_registry
  new_registry_iff extractors = (
    λ (registry, h).
        let (all, new, _) = register_all_to empty_registry registry extractors h in (all, new.1),
    λ (all, distinct). (
      with_extractors empty_registry extractors,
      register_all_from empty_registry extractors all
          (empty_has_none Extractor (keys (entries extractors)), distinct),
    ),
  )

  -- `ForPath` of a registry that `New` returns finds an extractor exactly if one of its normalized
  -- extensions is the extension of the path; so at most one extractor reads a file.
  pub for_path_iff :
      (extractors : List (Option Extractor)) (registry : Registry) (path : String)
      (registered : Extractor)
      → new_registry unicode extractors ≡ ok registry
      → (for_path unicode registry path ≡ some registered)
        ↔ Has (extension_of unicode path, registered) (entries extractors)
  unfolding new_registry for_path lookup
  for_path_iff extractors registry path registered h =
      let (all, new, same) = register_all_to empty_registry registry extractors h in
      let k = extension_of unicode path in
      let table : lookup k registry.by_extension ≡ lookup k (entries extractors) =
        rw same (lookup-insert_all k [] (entries extractors) new) in
      (
        λ found. lookup-Has k registered (entries extractors) (sym table ∙ found),
        λ listed. table ∙ lookup_of_Has k registered (entries extractors) new.1 listed,
      )
