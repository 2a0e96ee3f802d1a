-- ===== src/Catalog/Synopses/Order.antt =====
-- The entries after `addCatalogSynopses` of index/catalog.go: the order of the results does not matter.
use agent_wayfinder.Prelude.{
  ℕ, zero, suc, ◌+◌, ◌<◌, ◌≤◌, String, ◌==◌, List, [], ◌∷◌, Bool, true, false, ◌||◌, nat_eq,
  nat_eq_iff, if◌then◌else◌, if_elim, if_true, if_false, map, is_empty, Has, Result, ok, err,
  Bool-cases, ◌≡◌, ◌↔◌, inl, inr, refl, sym, ◌∙◌, ap, subst, arith,
}
use agent_wayfinder.Extractor.{CatalogUnit}
use agent_wayfinder.Catalog.{CatalogEntry}
use agent_wayfinder.Catalog.Units.{CatalogSynopsisInput}
use agent_wayfinder.Catalog.Synopses.{
  SynopsisGenerator, SynopsisDestination, selected_synopsis_destination, answer_at, pending_from,
  update_at, collect_answer, collect_answers, add_catalog_synopses,
}

-- Exactly the results of the jobs arrive.
abbrev pub IsOrder : (List ℕ → List ℕ) → Type 0
IsOrder arrive = (indexes : List ℕ) (i : ℕ) → Has i (arrive indexes) ↔ Has i indexes

abbrev has_index : ℕ → List ℕ → Bool
has_index i [] = false
has_index i (j ∷ indexes) = nat_eq i j || has_index i indexes

has_index_iff : (i : ℕ) (indexes : List ℕ) → (has_index i indexes ≡ true) ↔ Has i indexes
has_index_iff i [] = ground arith
has_index_iff i (j ∷ indexes) = ground (arith, nat_eq_iff i j, has_index_iff i indexes)

-- An entry with the synopsis that was generated for it, if one was.
abbrev pub answered : SynopsisDestination → Result String String → CatalogEntry → CatalogEntry
answered destination (ok synopsis) entry = destination.store synopsis entry
answered destination (err e) entry = entry

-- A destination whose second store of a synopsis changes nothing.
abbrev pub IsSettled : SynopsisDestination → Type 0
IsSettled destination =
    (synopsis : String) (entry : CatalogEntry)
    → destination.store synopsis (destination.store synopsis entry)
      ≡ destination.store synopsis entry

pub selected_synopsis_destination-IsSettled :
    (provider : String) → IsSettled (selected_synopsis_destination provider)
unfolding selected_synopsis_destination
selected_synopsis_destination-IsSettled provider =
    if_elim IsSettled (provider == "copilot") (λ _ synopsis entry. refl)
      (λ _.
        if_elim IsSettled (provider == "ollama") (λ _ synopsis entry. refl)
          (λ _.
            if_elim IsSettled (provider == "claude") (λ _ synopsis entry. refl)
              (λ _ synopsis entry. refl)))

or_right : (a b : Bool) → a ≡ false → b ≡ (a || b)
or_right true b h = cc
or_right false b h = refl

answer_same : (i j : ℕ) (answer : ℕ → Result String String) → i ≡ j → answer i ≡ answer j
answer_same i j answer e = ap answer e

cons-same : {x y : CatalogEntry} {xs ys : List CatalogEntry} → x ≡ y → xs ≡ ys → (x ∷ xs) ≡ (y ∷ ys)
cons-same e h = λ i. e i ∷ h i

update_at-nothing :
    (index : ℕ) (entries : List CatalogEntry) → update_at (λ entry. entry) index entries ≡ entries
unfolding update_at
update_at-nothing index [] = refl
update_at-nothing zero (entry ∷ entries) = refl
update_at-nothing (suc index) (entry ∷ entries) =
    ap (λ (rest : List CatalogEntry). entry ∷ rest) (update_at-nothing index entries)

module _ (destination : SynopsisDestination) (answer : ℕ → Result String String) where
  -- The entries from `index` on, with the answers for the indexes that pass the test.
  abbrev walk : (ℕ → Bool) → ℕ → List CatalogEntry → List CatalogEntry
  walk test index [] = []
  walk test index (entry ∷ entries) =
      (if test index then answered destination (answer index) entry else entry)
      ∷ walk test (suc index) entries

  walk-same :
      (p q : ℕ → Bool) (index : ℕ) (entries : List CatalogEntry)
      → ((i : ℕ) → index ≤ i → p i ≡ q i)
      → walk p index entries ≡ walk q index entries
  walk-same p q index [] h = refl
  walk-same p q index (entry ∷ entries) h =
      ap
        (λ (t : Bool).
          (if t then answered destination (answer index) entry else entry)
          ∷ walk p (suc index) entries)
        (h index (omega arith))
      ∙ ap
          (λ (rest : List CatalogEntry).
            (if q index then answered destination (answer index) entry else entry) ∷ rest)
          (walk-same p q (suc index) entries (λ i above. h i (omega (arith, above))))

  walk-nothing :
      (index : ℕ) (entries : List CatalogEntry) → walk (λ i. false) index entries ≡ entries
  walk-nothing index [] = refl
  walk-nothing index (entry ∷ entries) =
      ap (λ (rest : List CatalogEntry). entry ∷ rest) (walk-nothing (suc index) entries)

  answered_twice :
      (t : Bool) (a : Result String String) (entry : CatalogEntry)
      → IsSettled destination
      → (if t
          then answered destination a (answered destination a entry)
          else answered destination a entry)
        ≡ answered destination a entry
  answered_twice true (ok synopsis) entry settled = settled synopsis entry
  answered_twice true (err e) entry settled = refl
  answered_twice false a entry settled = refl

  walk-first :
      (p : ℕ → Bool) (index : ℕ) (entry : CatalogEntry) (entries : List CatalogEntry)
      → IsSettled destination
      → walk p index (answered destination (answer index) entry ∷ entries)
        ≡ walk (λ i. nat_eq i index || p i) index (entry ∷ entries)
  walk-first p index entry entries settled =
      cons-same
        (answered_twice (p index) (answer index) entry settled
          ∙ sym (
              if_true (nat_eq index index || p index) _ _ (ground (arith, nat_eq_iff index index))))
        (walk-same p (λ i. nat_eq i index || p i) (suc index) entries
          (λ i above. or_right (nat_eq i index) (p i) (ground (arith, above))))

  walk-update_at :
      (p : ℕ → Bool) (index j k : ℕ) (entries : List CatalogEntry)
      → IsSettled destination
      → k ≡ index + j
      → walk p index (update_at (answered destination (answer k)) j entries)
        ≡ walk (λ i. nat_eq i k || p i) index entries
  unfolding update_at
  walk-update_at p index j k [] settled e = refl
  walk-update_at p index zero k (entry ∷ entries) settled e =
      subst
        (λ (m : ℕ).
          walk p index (answered destination (answer m) entry ∷ entries)
          ≡ walk (λ i. nat_eq i m || p i) index (entry ∷ entries))
        (omega (arith, e)) (walk-first p index entry entries settled)
  walk-update_at p index (suc j) k (entry ∷ entries) settled e =
      cons-same
        (ap (λ (t : Bool). if t then answered destination (answer index) entry else entry)
          (or_right (nat_eq index k) (p index) (ground (arith, e))))
        (walk-update_at p (suc index) j k entries settled (omega (arith, e)))

  collect_answer-entries :
      (index : ℕ) (a : Result String String) (entries : List CatalogEntry) (message : String)
      → (collect_answer destination answer index a (entries, message)).0
        ≡ update_at (answered destination a) index entries
  collect_answer-entries index (ok synopsis) entries message = refl
  collect_answer-entries index (err e) entries message = sym (update_at-nothing index entries)

  collect_answers-walk :
      (indexes : List ℕ) (entries : List CatalogEntry) (message : String)
      → IsSettled destination
      → (collect_answers destination answer indexes (entries, message)).0
        ≡ walk (λ i. has_index i indexes) 0 entries
  unfolding collect_answers
  collect_answers-walk [] entries message settled = sym (walk-nothing 0 entries)
  collect_answers-walk (j ∷ indexes) entries message settled =
      let o = collect_answer destination answer j (answer j) (entries, message) in
      collect_answers-walk indexes o.0 o.1 settled
      ∙ ap (λ (l : List CatalogEntry). walk (λ i. has_index i indexes) 0 l)
          (collect_answer-entries j (answer j) entries message)
      ∙ walk-update_at (λ i. has_index i indexes) 0 j j entries settled (omega arith)

has_index-same : (xs ys : List ℕ) (i : ℕ) → Has i xs ↔ Has i ys → has_index i xs ≡ has_index i ys
has_index-same xs ys i h = ground (arith, has_index_iff i xs, has_index_iff i ys, h)

pending_from-above :
    (complete : CatalogEntry → Bool) (index i : ℕ) (entries : List CatalogEntry)
    → i < index
    → has_index i (pending_from complete index entries) ≡ false
unfolding pending_from
pending_from-above complete index i [] below = refl
pending_from-above complete index i (entry ∷ entries) below =
    let rest = pending_from complete (suc index) entries in
    let none_after = pending_from-above complete (suc index) i entries (omega (arith, below)) in
    if_elim (λ (l : List ℕ). has_index i l ≡ false) (complete entry) (λ _. none_after)
      (λ _. ground (arith, nat_eq_iff i index, none_after, below))

-- An entry that lacks the synopsis, with the one that is generated, if it is.
abbrev pub filled :
    SynopsisDestination
    → (CatalogSynopsisInput → Result String String)
    → CatalogEntry
    → CatalogSynopsisInput
    → CatalogEntry
filled destination generate entry input =
    if destination.complete entry then entry else answered destination (generate input) entry

module _ (destination : SynopsisDestination)
    (generate : CatalogSynopsisInput → Result String String) (entry_of : CatalogUnit → CatalogEntry)
    (input_of : CatalogUnit → CatalogSynopsisInput) where
  abbrev pending_units : ℕ → List CatalogUnit → List ℕ
  pending_units index units = pending_from destination.complete index (map entry_of units)

  head-filled :
      (answer : ℕ → Result String String) (index : ℕ) (unit : CatalogUnit)
      (units : List CatalogUnit)
      → answer index ≡ generate (input_of unit)
      → (if has_index index (pending_units index (unit ∷ units))
          then answered destination (answer index) (entry_of unit)
          else entry_of unit)
        ≡ filled destination generate (entry_of unit) (input_of unit)
  unfolding pending_from
  head-filled answer index unit units e =
      let entry = entry_of unit in
      let rest = pending_units (suc index) units in
      let new =
        pending_from-above destination.complete (suc index) index (map entry_of units)
          (omega arith) in
      elim (Bool-cases (destination.complete entry)) [
        | inl t ↦
            if_false _ _ _ (
              ap (λ (l : List ℕ). has_index index l)
                (if_true (destination.complete entry) rest (index ∷ rest) t)
              ∙ new)
            ∙ sym (if_true (destination.complete entry) _ _ t)
        | inr f ↦
            if_true _ _ _ (
              ap (λ (l : List ℕ). has_index index l)
                (if_false (destination.complete entry) rest (index ∷ rest) f)
              ∙ (has_index_iff index (index ∷ rest)).1 (inl refl))
            ∙ ap (λ (a : Result String String). answered destination a entry) e
            ∙ sym (if_false (destination.complete entry) _ _ f)
      ]

  tail-pending :
      (index : ℕ) (unit : CatalogUnit) (units : List CatalogUnit) (i : ℕ)
      → suc index ≤ i
      → has_index i (pending_units index (unit ∷ units))
        ≡ has_index i (pending_units (suc index) units)
  unfolding pending_from
  tail-pending index unit units i above =
      if_elim (λ (l : List ℕ). has_index i l ≡ has_index i (pending_units (suc index) units))
        (destination.complete (entry_of unit)) (λ _. refl)
        (λ _. sym (or_right (nat_eq i index) _ (ground (arith, above))))

  walk-filled :
      (answer : ℕ → Result String String) (index : ℕ) (units : List CatalogUnit)
      → ((i : ℕ) → answer (index + i) ≡ answer_at generate (map input_of units) i)
      → walk destination answer
          (λ i. has_index i (pending_units index units))
          index
          (map entry_of units)
        ≡ map (λ (u : CatalogUnit). filled destination generate (entry_of u) (input_of u)) units
  unfolding answer_at
  walk-filled answer index [] known = refl
  walk-filled answer index (unit ∷ units) known =
      cons-same
        (head-filled answer index unit units
          (answer_same index (index + 0) answer (omega arith) ∙ known 0))
        (walk-same destination answer (λ i. has_index i (pending_units index (unit ∷ units)))
            (λ i. has_index i (pending_units (suc index) units)) (suc index) (map entry_of units)
            (tail-pending index unit units)
          ∙ walk-filled answer (suc index) units (λ i.
            answer_same (suc index + i) (index + suc i) answer (omega arith) ∙ known (suc i)))

walk-is_empty :
    (destination : SynopsisDestination) (answer : ℕ → Result String String) (indexes : List ℕ)
    (entries : List CatalogEntry)
    → is_empty indexes ≡ true
    → entries ≡ walk destination answer (λ i. has_index i indexes) 0 entries
walk-is_empty destination answer [] entries h = sym (walk-nothing destination answer 0 entries)
walk-is_empty destination answer (i ∷ indexes) entries h = cc

-- Every unit's entry is filled, in whatever order the results arrive.
pub add_catalog_synopses-filled :
    (destination : SynopsisDestination) (generator : SynopsisGenerator)
    (entry_of : CatalogUnit → CatalogEntry) (input_of : CatalogUnit → CatalogSynopsisInput)
    (arrive : List ℕ → List ℕ) (units : List CatalogUnit)
    → IsOrder arrive
    → IsSettled destination
    → (add_catalog_synopses arrive
        (map entry_of units)
        (map input_of units)
        generator
        destination).0
      ≡ map
          (λ (u : CatalogUnit). filled destination generator.generate (entry_of u) (input_of u))
          units
unfolding add_catalog_synopses
add_catalog_synopses-filled destination generator entry_of input_of arrive units order settled =
    let entries = map entry_of units in
    let pending = pending_from destination.complete 0 entries in
    let arrived = arrive pending in
    let answer = answer_at generator.generate (map input_of units) in
    let done =
      walk-filled destination generator.generate entry_of input_of answer 0 units
        (λ i. answer_same (0 + i) i answer (omega arith)) in
    if_elim
      (λ (o : List CatalogEntry × String).
        o.0
        ≡ map (λ (u : CatalogUnit). filled destination generator.generate (entry_of u) (input_of u))
            units)
      (is_empty pending) (λ t. walk-is_empty destination answer pending entries t ∙ done)
      (λ _.
        collect_answers-walk destination answer arrived entries "" settled
        ∙ walk-same destination answer (λ i. has_index i arrived) (λ i. has_index i pending) 0
            entries (λ i _. has_index-same arrived pending i (order pending i))
        ∙ done)
