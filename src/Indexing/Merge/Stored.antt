-- ===== src/Indexing/Merge/Stored.antt =====
-- The loop of `mergeSources` in index/index.go over the stored sources.
use agent_wayfinder.Prelude.{
  String, ◌==◌, eq_iff, List, [], ◌∷◌, if◌then◌else◌, Option, none, some, lookup, lookup-insert,
  insert, contains, Result, ok, err, >>=-eq-ok, ok_same, ◌≡◌, inl, inr, sym, ◌∙◌, ap, arith,
  Bool-cases, Result-cases, subst, if_true, if_false,
}
use agent_wayfinder.Extractor.{Contribution}
use agent_wayfinder.Extractor.Registry.{Extractor, for_path}
use agent_wayfinder.Extractor.Contributions.{
  ContributionError, new_contribution, check_contribution, contribution_of,
}
use agent_wayfinder.Indexing.{Source, ExtractedSource, IndexError}
use agent_wayfinder.Indexing.Languages.{vocabulary_for_language}
use agent_wayfinder.Indexing.Merge.{
  SourceContribution, Sources, Workspace, restore_by, restore, put, put_found, merge_stored,
  input_of_stored, created_contribution,
}
use agent_wayfinder.Indexing.Merge.Tables.{kept, stored_at, or_else, IsTable, insert-IsTable}

module _ (workspace : Workspace) where
  created_contribution-path :
      (input : SourceContribution) (r : Result ContributionError Contribution) (c : Contribution)
      → ((d : Contribution) → r ≡ ok d → d.source_path ≡ input.source_path)
      → created_contribution r ≡ ok c
      → c.source_path ≡ input.source_path
  created_contribution-path input (ok d) c h e = h c (ground arith)
  created_contribution-path input (err x) c h e = cc

  restore_by-path :
      (source : SourceContribution) (from : Source) (o : Option Extractor) (x : ExtractedSource)
      → restore_by workspace source from o ≡ ok x
      → x.contribution.source_path ≡ source.source_path
  unfolding new_contribution
  restore_by-path source from none x h = cc
  restore_by-path source from (some language) x h =
      let (vocabulary, _, h1) =
        >>=-eq-ok (vocabulary_for_language workspace.languages language.metadata.name) _ h in
      let made = new_contribution workspace.unicode vocabulary (input_of_stored source) in
      let (c, created, h2) = >>=-eq-ok (created_contribution made) _ h1 in
      let path =
        created_contribution-path source made c
          (λ d e.
            let (_, _, same) =
              >>=-eq-ok (check_contribution workspace.unicode vocabulary (input_of_stored source)) _
                e in
            ap (λ (c : Contribution). c.source_path)
              (sym (ok_same (contribution_of (input_of_stored source)) d same)))
          created in
      ap (λ (s : ExtractedSource). s.contribution.source_path)
        (sym (
          ok_same
            (record {
              project_id = from.project_id;
              language = source.metadata.name;
              contribution = c;
            })
            x h2))
      ∙ path

  pub restore-path :
      (source : SourceContribution) (from : Source) (x : ExtractedSource)
      → restore workspace source from ≡ ok x
      → x.contribution.source_path ≡ source.source_path
  unfolding restore
  restore-path source from x h =
      restore_by-path source from
        (for_path workspace.unicode workspace.registered source.source_path) x h

  -- One round of the loop.
  abbrev step : Sources → SourceContribution → Result IndexError Sources
  step merged source =
      if contains workspace.deleted source.source_path
      then ok merged
      else put_found workspace source merged (lookup source.source_path workspace.sources_by_path)

  put_found-IsTable :
      (source : SourceContribution) (merged next : Sources) (o : Option Source)
      → put_found workspace source merged o ≡ ok next
      → IsTable workspace merged
      → IsTable workspace next
  put_found-IsTable source merged next none e h =
      subst (IsTable workspace) (ok_same merged next e) h
  put_found-IsTable source merged next (some from) e h =
      elim (Result-cases (restore workspace source from)) [
        | inl (x, r) ↦
            subst (IsTable workspace)
              (ok_same (insert source.source_path x merged) next
                (sym (ap (put workspace source.source_path merged) r) ∙ e))
              (insert-IsTable workspace source.source_path x merged (restore-path source from x r)
                h)
        | inr (f, r) ↦ absurd (cc (ap (put workspace source.source_path merged) r, e))
      ]

  lookup-put_found :
      (path : String) (source : SourceContribution) (merged next : Sources) (o : Option Source)
      → put_found workspace source merged o ≡ ok next
      → lookup path next
        ≡ or_else workspace
            (if source.source_path == path then kept workspace source o else none)
            (lookup path merged)
  lookup-put_found path source merged next none e =
      ap (lookup path) (sym (ok_same merged next e)) ∙ ground arith
  lookup-put_found path source merged next (some from) e =
      elim (Result-cases (restore workspace source from)) [
        | inl (x, r) ↦
            ap (lookup path) (
              sym (
                ok_same (insert source.source_path x merged) next
                  (sym (ap (put workspace source.source_path merged) r) ∙ e)))
            ∙ ground (arith, lookup-insert source.source_path path x merged, r)
        | inr (f, r) ↦ absurd (cc (ap (put workspace source.source_path merged) r, e))
      ]

  step-IsTable :
      (source : SourceContribution) (merged next : Sources)
      → step merged source ≡ ok next
      → IsTable workspace merged
      → IsTable workspace next
  step-IsTable source merged next e h =
      let deleted = contains workspace.deleted source.source_path in
      let other =
        put_found workspace source merged (lookup source.source_path workspace.sources_by_path) in
      elim (Bool-cases deleted) [
        | inl t ↦
            subst (IsTable workspace)
              (ok_same merged next (sym (if_true deleted (ok merged) other t) ∙ e)) h
        | inr f ↦
            put_found-IsTable source merged next
              (lookup source.source_path workspace.sources_by_path)
              (sym (if_false deleted (ok merged) other f) ∙ e) h
      ]

  lookup-step :
      (path : String) (source : SourceContribution) (merged next : Sources)
      → step merged source ≡ ok next
      → lookup path next ≡ (
          if contains workspace.deleted source.source_path
          then lookup path merged
          else or_else workspace
              (if source.source_path == path
                then kept workspace source (lookup source.source_path workspace.sources_by_path)
                else none)
              (lookup path merged))
  lookup-step path source merged next e =
      let deleted = contains workspace.deleted source.source_path in
      let other =
        put_found workspace source merged (lookup source.source_path workspace.sources_by_path) in
      elim (Bool-cases deleted) [
        | inl t ↦
            ap (lookup path)
              (sym (ok_same merged next (sym (if_true deleted (ok merged) other t) ∙ e)))
            ∙ sym (if_true deleted _ _ t)
        | inr f ↦
            lookup-put_found path source merged next
              (lookup source.source_path workspace.sources_by_path)
              (sym (if_false deleted (ok merged) other f) ∙ e)
            ∙ sym (if_false deleted _ _ f)
      ]

  pub merge_stored-IsTable :
      (merged result : Sources) (stored : List SourceContribution)
      → merge_stored workspace merged stored ≡ ok result
      → IsTable workspace merged
      → IsTable workspace result
  unfolding merge_stored
  merge_stored-IsTable merged result [] e h = subst (IsTable workspace) (ok_same merged result e) h
  merge_stored-IsTable merged result (source ∷ sources) e h =
      let (next, first, rest) = >>=-eq-ok (step merged source) _ e in
      merge_stored-IsTable next result sources rest (step-IsTable source merged next first h)

  pub lookup-merge_stored :
      (path : String) (merged result : Sources) (stored : List SourceContribution)
      → merge_stored workspace merged stored ≡ ok result
      → lookup path result ≡ (
          if contains workspace.deleted path
          then lookup path merged
          else or_else workspace (stored_at workspace path stored) (lookup path merged))
  unfolding merge_stored
  lookup-merge_stored path merged result [] e =
      ap (lookup path) (sym (ok_same merged result e)) ∙ ground arith
  lookup-merge_stored path merged result (source ∷ sources) e =
      let (next, first, rest) = >>=-eq-ok (step merged source) _ e in
      lookup-merge_stored path next result sources rest
      ∙ ground (arith, lookup-step path source merged next first, eq_iff source.source_path path)
