-- ===== src/Extractor/LanguageVocabulary/Accepts.antt =====
-- What `NewLanguageVocabulary` of extractor/vocabulary.go accepts.
use Prim.Native.Char.{code}
use Prim.Native.String
use Prim.Native.String.append
use agent_wayfinder.Prelude.{
  String, ◌==◌, eq_iff, List, [], ◌∷◌, ◌++◌, Bool, true, false, not, ◌||◌, ◌≡◌, ◌≢◌, ◌↔◌, inl, inr,
  refl, sym, ap, Has, IsDistinct, All, nat_eq, arith, Result, ok, err, refuse_if, check_all,
  check_all_iff, starts_with, starts_with_iff, >>-eq-ok, >>=-eq-ok, filled_iff,
}
use agent_wayfinder.Graph.{NodeKind, EndpointRule, VocabularyDefinition, ValidationError}
use agent_wayfinder.Graph.Vocabulary.{Vocabulary, new_vocabulary}
use agent_wayfinder.Graph.Vocabulary.Registration.{kinds_of, IsRegistrable, IsRelation}
use agent_wayfinder.Graph.Vocabulary.Accepts.{new_vocabulary_accepts}
use agent_wayfinder.Extractor.LanguageVocabulary.{
  language_prefix, endpoints_from, endpoints_between, declaration_endpoints, language_definition,
  new_language_vocabulary, invalid_result, unprefixed, unnamed,
}

has_colon : String → Bool
has_colon String.[] = false
has_colon (String.◌∷◌ c s) = nat_eq (code c) 58 || has_colon s

has_colon-append : (s t : String) → has_colon (String.◌++◌ s t) ≡ (has_colon s || has_colon t)
unfolding has_colon
has_colon-append String.[] t = ap has_colon (append.nil t)
has_colon-append (String.◌∷◌ c s) t =
    ground (arith, ap has_colon (append.cons c s t), has_colon-append s t)

has_colon-prefix : (name : String) → has_colon (language_prefix name) ≡ true
unfolding has_colon
has_colon-prefix name = ground (arith, has_colon-append name ":")

prefixed-has_colon :
    (name kind : String) → starts_with kind (language_prefix name) ≡ true → has_colon kind ≡ true
prefixed-has_colon name kind h =
    let (rest, e) = (starts_with_iff kind (language_prefix name)).0 h in
    ground
      (arith, ap has_colon e, has_colon-append (language_prefix name) rest, has_colon-prefix name)

abbrev pub IsPrefixed : String → NodeKind → Type 0
IsPrefixed name kind = starts_with kind (language_prefix name) ≡ true

differ : (s t : String) → (s == t) ≡ false → s ≢ t
differ s t h e = ground (arith, eq_iff s t, h, e)

colon_differ : (s t : String) → has_colon s ≡ false → has_colon t ≡ true → s ≢ t
colon_differ s t no_colon colon e = ground (arith, ap has_colon e, no_colon, colon)

-- A text without a colon is none of the kinds.
prefixed-not :
    (name text : String) (kinds : List NodeKind)
    → has_colon text ≡ false
    → All (IsPrefixed name) kinds
    → ¬ Has text kinds
prefixed-not name text [] no_colon h m = m
prefixed-not name text (kind ∷ kinds) no_colon h (inl e) =
    ground (arith, ap has_colon e, prefixed-has_colon name kind h.0, no_colon)
prefixed-not name text (kind ∷ kinds) no_colon h (inr m) =
    prefixed-not name text kinds no_colon h.1 m

module _ (P : EndpointRule → Type 0) where
  All-both : (xs ys : List EndpointRule) → All P xs → All P ys → All P (xs ++ ys)
  All-both [] ys left right = right
  All-both (x ∷ xs) ys (first, left) right = (first, All-both xs ys left right)

  All-endpoints_from :
      (source : NodeKind) (targets : List NodeKind)
      → ((target : NodeKind) → Has target targets → P (record { source = source; target = target }))
      → All P (endpoints_from source targets)
  All-endpoints_from source [] h = tt
  All-endpoints_from source (target ∷ targets) h =
      (h target (inl refl), All-endpoints_from source targets (λ t m. h t (inr m)))

  All-endpoints_between :
      (sources targets : List NodeKind)
      → ((s t : NodeKind) → Has s sources → Has t targets → P (record { source = s; target = t }))
      → All P (endpoints_between sources targets)
  unfolding endpoints_between
  All-endpoints_between [] targets h = tt
  All-endpoints_between (source ∷ sources) targets h =
      All-both (endpoints_from source targets) (endpoints_between sources targets)
        (All-endpoints_from source targets (λ t m. h source t (inl refl) m))
        (All-endpoints_between sources targets (λ s t n m. h s t (inr n) m))

abbrev language_kinds : List NodeKind → List NodeKind
language_kinds kinds = "project" ∷ "file" ∷ "symbol" ∷ kinds

declaration-closed :
    (kinds : List NodeKind)
    → All
        (λ e. Has e.source (language_kinds kinds) × Has e.target (language_kinds kinds))
        (declaration_endpoints kinds)
unfolding declaration_endpoints
declaration-closed kinds =
    All-both _ (endpoints_from "file" kinds) (endpoints_between kinds kinds)
      (All-endpoints_from _ "file" kinds (λ t m. (inr (inl refl), inr (inr (inr m)))))
      (All-endpoints_between _ kinds kinds (λ s t n m. (inr (inr (inr n)), inr (inr (inr m)))))

declaration-IsRelation :
    (kind : String) (kinds : List NodeKind)
    → kind ≢ ""
    → kinds ≢ []
    → IsRelation
        (language_kinds kinds)
        (record { kind = kind; endpoints = declaration_endpoints kinds })
unfolding declaration_endpoints
declaration-IsRelation kind [] named some_kind = absurd (some_kind refl)
declaration-IsRelation kind (k ∷ kinds) named some_kind = record {
  named = named;
  ruled = λ e. cc e;
  closed = declaration-closed (k ∷ kinds);
}

module _ (name : String) (kinds : List NodeKind) (h : All (IsPrefixed name) kinds) where
  shape_of_IsRegistrable :
      IsRegistrable (language_definition name kinds) → (kinds ≢ []) × IsDistinct kinds
  unfolding language_definition declaration_endpoints endpoints_between
  shape_of_IsRegistrable r =
      (λ e. r.relations_valid.1.0.ruled (ap declaration_endpoints e), r.kinds_distinct.1.1.1)

  calls-has_colon : has_colon (String.◌++◌ name ":calls") ≡ true
  unfolding has_colon
  calls-has_colon = ground (arith, has_colon-append name ":calls")

  prefixed-named : (ks : List NodeKind) → All (IsPrefixed name) ks → All (λ k. k ≢ "") ks
  unfolding has_colon
  prefixed-named [] _ = tt
  prefixed-named (k ∷ ks) (first, others) = (
    λ e. colon_differ "" k refl (prefixed-has_colon name k first) (sym e),
    prefixed-named ks others,
  )

  kinds-IsDistinct : IsDistinct kinds → IsDistinct (language_kinds kinds)
  unfolding has_colon
  kinds-IsDistinct distinct = (
    λ m. elim m [
      | inl e ↦ differ "project" "file" refl e
      | inr (inl e) ↦ differ "project" "symbol" refl e
      | inr (inr m') ↦ prefixed-not name "project" kinds refl h m'
    ],
    (
      λ m. elim m [
        | inl e ↦ differ "file" "symbol" refl e
        | inr m' ↦ prefixed-not name "file" kinds refl h m'
      ],
      (prefixed-not name "symbol" kinds refl h, distinct),
    ),
  )

  relations-IsDistinct : IsDistinct (kinds_of (language_definition name kinds).relations)
  unfolding language_definition has_colon
  relations-IsDistinct = (
    λ m. elim m [
      | inl e ↦ differ "contains" "defines" refl e
      | inr (inl e) ↦ differ "contains" "references" refl e
      | inr (inr (inl e)) ↦ colon_differ "contains" _ refl calls-has_colon e
      | inr (inr (inr m')) ↦ m'
    ],
    (
      λ m. elim m [
        | inl e ↦ differ "defines" "references" refl e
        | inr (inl e) ↦ colon_differ "defines" _ refl calls-has_colon e
        | inr (inr m') ↦ m'
      ],
      (
        λ m. elim m [ inl e ↦ colon_differ "references" _ refl calls-has_colon e | inr m' ↦ m' ],
        (λ m. m, tt),
      ),
    ),
  )

  shape-IsRegistrable :
      kinds ≢ [] → IsDistinct kinds → IsRegistrable (language_definition name kinds)
  unfolding language_definition has_colon
  shape-IsRegistrable some_kind distinct = record {
    kinds_named = (
      differ "project" "" refl,
      (differ "file" "" refl, (differ "symbol" "" refl, prefixed-named kinds h)),
    );
    kinds_distinct = kinds-IsDistinct distinct;
    relations_valid = (
      record {
        named = differ "contains" "" refl;
        ruled = λ e. cc e;
        closed = ((inl refl, inr (inl refl)), tt);
      },
      (
        declaration-IsRelation "defines" kinds (differ "defines" "" refl) some_kind,
        (
          declaration-IsRelation "references" kinds (differ "references" "" refl) some_kind,
          (
            declaration-IsRelation (String.◌++◌ name ":calls") kinds
                (λ e. colon_differ "" _ refl calls-has_colon (sym e)) some_kind,
            tt,
          ),
        ),
      ),
    );
    relations_distinct = relations-IsDistinct;
  }

-- The check of the prefixes accepts exactly the kinds that have it.
prefixes_iff :
    (name : String) (kinds : List NodeKind)
    → (check_all
          (λ kind. refuse_if (not (starts_with kind (language_prefix name))) (unprefixed kind))
          kinds
        ≡ ok tt)
      ↔ All (IsPrefixed name) kinds
prefixes_iff name kinds = check_all_iff _ (IsPrefixed name) (λ kind. ground arith) kinds

validated :
    (r : Result ValidationError Vocabulary) (v : Vocabulary) → invalid_result r ≡ ok v → r ≡ ok v
validated (ok w) v h = cc h
validated (err e) v h = cc h

-- `NewLanguageVocabulary` returns a vocabulary exactly if the name is not empty, and there is at least
-- one declaration kind, the kinds are distinct, and each starts with the name and a colon.
pub new_language_vocabulary_accepts :
    (name : String) (kinds : List NodeKind)
    → ((v : Vocabulary) × (new_language_vocabulary name kinds ≡ ok v))
      ↔ ((name ≢ "") × All (IsPrefixed name) kinds × (kinds ≢ []) × IsDistinct kinds)
unfolding new_language_vocabulary
new_language_vocabulary_accepts name kinds = (sound, complete)
  where
    definition : VocabularyDefinition
    definition = language_definition name kinds

    sound :
        (v : Vocabulary) × (new_language_vocabulary name kinds ≡ ok v)
        → (name ≢ "") × All (IsPrefixed name) kinds × (kinds ≢ []) × IsDistinct kinds
    sound (v, e) =
        let (_, named, e1) = >>=-eq-ok (refuse_if (name == "") unnamed) _ e in
        let (_, prefixed, e2) = >>=-eq-ok (check_all _ kinds) _ e1 in
        let h = (prefixes_iff name kinds).0 prefixed in
        let shape =
          shape_of_IsRegistrable name kinds h (
            (new_vocabulary_accepts definition).0
              (v, validated (new_vocabulary definition) v e2)) in
        ((filled_iff unnamed name).0 named, h, shape.0, shape.1)

    complete :
        (name ≢ "") × All (IsPrefixed name) kinds × (kinds ≢ []) × IsDistinct kinds
        → (v : Vocabulary) × (new_language_vocabulary name kinds ≡ ok v)
    complete (named, h, some_kind, distinct) =
        let (v, e) =
          (new_vocabulary_accepts definition).1
            (shape-IsRegistrable name kinds h some_kind distinct) in
        (
          v,
          >>-eq-ok _ _ ((filled_iff unnamed name).1 named)
              (>>-eq-ok _ _ ((prefixes_iff name kinds).1 h) (ap invalid_result e)),
        )
