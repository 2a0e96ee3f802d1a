-- ===== src/Indexing/Groups/Exact.antt =====
-- What `resolveWorkspaceFacts` and `resolveIncrementalWorkspaceFacts` of index/index.go resolve.
use agent_wayfinder.Prelude.{
  String, List, [], ◌∷◌, true, false, map, Option, none, some, lookup, keys, Has, Any, All,
  All_of_Has, All-Has, Result-cases, ◌≡◌, ◌↔◌, inl, inr, refl, sym, ◌∙◌, ap, arith, subst,
  lookup_found_iff, is_found,
}
use agent_wayfinder.Prelude.Order.{sort_texts, Has-sort_texts, sort_texts-IsAscending, IsAscending}
use agent_wayfinder.Indexing.{ExtractedSource, Resolution}
use agent_wayfinder.Indexing.Languages.{Languages}
use agent_wayfinder.Indexing.Groups.{
  ResolutionGroup, cut_key, group_sources, contributions_of_group, resolve_with, resolve_group,
  resolve_keys, resolution_of, source_diagnostics, resolve_workspace_facts,
}
use agent_wayfinder.Indexing.Pages.{join_resolution}
use agent_wayfinder.Indexing.Pages.Joined.{Answers, IsJoined, join_all, join_all-IsJoined}
use agent_wayfinder.Indexing.Groups.Keys.{has_nul, cut_key-group_key}
use agent_wayfinder.Indexing.Groups.Grouping.{
  contributions_in, ArePlain, key_of, IsGroup, group_sources-contributions, group_sources-IsGroup,
  Has-group_sources, group_sources-IsDistinct,
}
use agent_wayfinder.Indexing.Groups.Answers.{
  resolve_one, AreAnswers, resolve_one-AreAnswers, diagnostics_in,
  source_diagnostics-diagnostics_in,
}

-- The projects and languages of the sources, in the order of their keys.
abbrev pub pairs_of : List String → List (String × String)
pairs_of keys = map cut_key keys

Any-Has : {A : Type 0} (P : A → Type 0) (xs : List A) → Any P xs → (a : A) × Has a xs × P a
Any-Has P [] h = absurd h
Any-Has P (x ∷ xs) (inl p) = (x, inl refl, p)
Any-Has P (x ∷ xs) (inr h) = let (a, m, p) = Any-Has P xs h in (a, inr m, p)

-- A group that is found is resolved as its pair is.
resolve_group-pair :
    (languages : Languages) (root : String) (sources : List ExtractedSource) (p l : String)
    (o : Option ResolutionGroup)
    → is_found o ≡ true
    → IsGroup p l o
    → contributions_of_group o ≡ contributions_in p l sources
    → resolve_group languages root o
      ≡ resolve_with (lookup l languages) root p l (contributions_in p l sources)
resolve_group-pair languages root sources p l none found h e = cc
resolve_group-pair languages root sources p l (some group) found (hp, hl) e =
    λ i. resolve_with (lookup (hl i) languages) root (hp i) (hl i) (e i)

resolve_group-key :
    (languages : Languages) (root : String) (sources : List ExtractedSource) (s : ExtractedSource)
    → has_nul s.project_id ≡ false
    → ArePlain sources
    → Has (key_of s) (keys (group_sources [] sources))
    → resolve_group languages root (lookup (key_of s) (group_sources [] sources))
      ≡ resolve_one languages root sources (cut_key (key_of s))
unfolding lookup
resolve_group-key languages root sources s clear plain member =
    let p = s.project_id in
    let l = s.language in
    let groups = group_sources [] sources in
    resolve_group-pair languages root sources p l (lookup (key_of s) groups)
      ((lookup_found_iff (key_of s) groups).1 member)
      (group_sources-IsGroup p l [] sources clear plain tt)
      (group_sources-contributions p l [] sources clear plain)
    ∙ ap (resolve_one languages root sources) (sym (cut_key-group_key p l clear))

-- The calls for the pairs, one after the other.
resolve_keys-pairs :
    (languages : Languages) (root : String) (sources : List ExtractedSource) (all : Resolution)
    (ks : List String)
    → ArePlain sources
    → All (λ (k : String). Any (λ (s : ExtractedSource). k ≡ key_of s) sources) ks
    → resolve_keys languages root (group_sources [] sources) all ks
      ≡ join_all all (map (resolve_one languages root sources) (pairs_of ks))
unfolding resolve_keys join_all
resolve_keys-pairs languages root sources all [] plain named = refl
resolve_keys-pairs languages root sources all (k ∷ ks) plain named =
    let groups = group_sources [] sources in
    let (s, member, e) = Any-Has (λ (s : ExtractedSource). k ≡ key_of s) sources named.0 in
    let clear =
      All_of_Has (λ (source : ExtractedSource). has_nul source.project_id ≡ false) sources s plain
        member in
    let step : resolve_group languages root (lookup k groups)
        ≡ resolve_one languages root sources (cut_key k) =
      subst
        (λ j.
          resolve_group languages root (lookup j groups)
          ≡ resolve_one languages root sources (cut_key j))
        (sym e)
        (resolve_group-key languages root sources s clear plain (
          subst (λ j. Has j (keys groups)) e ((Has-group_sources k [] sources).1 (inr named.0)))) in
    rw step (elim (Result-cases (resolve_one languages root sources (cut_key k))) [
      | inl (next, r) ↦
          rw r
            (resolve_keys-pairs languages root sources (join_resolution all next) ks plain named.1)
      | inr (failure, r) ↦ rw r refl
    ])

Has-pairs_of :
    (p l : String) (ks : List String)
    → Has (p, l) (pairs_of ks) ↔ Any (λ (k : String). cut_key k ≡ (p, l)) ks
Has-pairs_of p l [] = ground arith
Has-pairs_of p l (k ∷ ks) =
    let (to, from) = Has-pairs_of p l ks in
    (
      λ h. elim h [ inl e ↦ inl (sym e) | inr m ↦ inr (to m) ],
      λ h. elim h [ inl e ↦ inl (sym e) | inr m ↦ inr (from m) ],
    )

Any-of_Has : {A : Type 0} (P : A → Type 0) (xs : List A) (a : A) → Has a xs → P a → Any P xs
Any-of_Has P [] a h p = absurd h
Any-of_Has P (x ∷ xs) a (inl e) p = inl (subst P e p)
Any-of_Has P (x ∷ xs) a (inr m) p = inr (Any-of_Has P xs a m p)

-- Where no project's ID holds a NUL, `resolveWorkspaceFacts` calls the resolver of each language once
-- for each project that has sources of it, in the order of the keys, with the contributions of all
-- these sources, a language without a resolver counting as an error. Its result has no nodes, and the
-- edges of all answers in that order, and the diagnostics of the sources and then those of the answers;
-- or it is the first answer that is an error.
pub resolve_workspace_facts-IsJoined :
    (languages : Languages) (root : String) (sources : List ExtractedSource)
    → ArePlain sources
    → (ks : List String) × (answers : Answers) × IsAscending ks
      × ((p l : String)
          → Has (p, l) (pairs_of ks)
            ↔ Any (λ (s : ExtractedSource). (s.project_id ≡ p) × (s.language ≡ l)) sources)
      × AreAnswers languages root sources (pairs_of ks) answers
      × IsJoined [] []
          (diagnostics_in sources)
          answers
          (resolve_workspace_facts languages root sources)
unfolding resolve_workspace_facts
resolve_workspace_facts-IsJoined languages root sources plain =
    let groups = group_sources [] sources in
    let ks = sort_texts (keys groups) in
    let named : (k : String) → Has k ks → Any (λ (s : ExtractedSource). k ≡ key_of s) sources =
      λ k m. elim ((Has-group_sources k [] sources).0 ((Has-sort_texts k (keys groups)).0 m)) [
        | inl h ↦ absurd h
        | inr h ↦ h
      ] in
    let clear = λ (s : ExtractedSource) (m : Has s sources).
      All_of_Has (λ (source : ExtractedSource). has_nul source.project_id ≡ false) sources s plain
        m in
    let answers = map (resolve_one languages root sources) (pairs_of ks) in
    let start = resolution_of (source_diagnostics sources) in
    (
      ks,
      answers,
      sort_texts-IsAscending (keys groups) (group_sources-IsDistinct [] sources tt),
      λ p l. (
        λ h.
            let (k, m, e) =
              Any-Has (λ (k : String). cut_key k ≡ (p, l)) ks ((Has-pairs_of p l ks).0 h) in
            let (s, member, same) =
              Any-Has (λ (s : ExtractedSource). k ≡ key_of s) sources (named k m) in
            let pair =
              sym (cut_key-group_key s.project_id s.language (clear s member))
              ∙ ap cut_key (sym same)
              ∙ e in
            Any-of_Has (λ (s : ExtractedSource). (s.project_id ≡ p) × (s.language ≡ l)) sources s
              member
              (ap (λ (x : String × String). x.0) pair, ap (λ (x : String × String). x.1) pair),
        λ h.
            let (s, member, (hp, hl)) =
              Any-Has (λ (s : ExtractedSource). (s.project_id ≡ p) × (s.language ≡ l)) sources h in
            let m = (Has-group_sources (key_of s) [] sources).1 (
              inr (
                Any-of_Has (λ (t : ExtractedSource). key_of s ≡ key_of t) sources s member refl)) in
            (Has-pairs_of p l ks).1 (
              Any-of_Has (λ (k : String). cut_key k ≡ (p, l)) ks (key_of s)
                ((Has-sort_texts (key_of s) (keys groups)).1 m)
                (cut_key-group_key s.project_id s.language (clear s member) ∙ (λ i. (hp i, hl i)))),
      ),
      resolve_one-AreAnswers languages root sources (pairs_of ks),
      subst (λ ds. IsJoined [] [] ds answers (resolve_workspace_facts languages root sources))
          (source_diagnostics-diagnostics_in sources)
          (subst (IsJoined [] [] (source_diagnostics sources) answers)
            (sym (
              resolve_keys-pairs languages root sources start ks plain (
                All-Has (λ (k : String). Any (λ (s : ExtractedSource). k ≡ key_of s) sources) ks
                  named)))
            (join_all-IsJoined start answers)),
    )
