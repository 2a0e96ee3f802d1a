-- ===== src/Catalog/Write/Completed.antt =====
-- How `addSelectedSynopsis` of index/catalog.go completes the entry of a unit.
use agent_wayfinder.Prelude.{
  String, ◌==◌, eq_iff, Bool-cases, Option, none, some, Result, ok, err, if◌then◌else◌, ◌≡◌, ◌≢◌,
  ◌⊎◌, inl, inr, refl, not, if_elim,
}
use agent_wayfinder.Catalog.{CatalogEntry}
use agent_wayfinder.Catalog.Units.{CatalogSynopsisInput}
use agent_wayfinder.Catalog.Synopses.{
  SynopsisGenerator, SynopsisDestination, selected_synopsis_destination, to_copilot, to_ollama,
  to_claude, to_nothing,
}
use agent_wayfinder.Catalog.Synopses.Order.{filled, answered}

-- A synopsis that is stored stays; a missing one is the one that is generated, if that succeeds.
abbrev pub IsFilled :
    String → (String → CatalogEntry) → Result String String → CatalogEntry → CatalogEntry → Type 0
IsFilled present store (ok synopsis) start entry =
    (present ≢ "") × (entry ≡ start) ⊎ (present ≡ "") × (entry ≡ store synopsis)
IsFilled present store (err e) start entry = entry ≡ start

-- An entry completed by a provider, which only the three that are known have a synopsis of.
abbrev pub IsFilledBy : String → Result String String → CatalogEntry → CatalogEntry → Type 0
IsFilledBy provider answer start entry =
    (provider ≡ "copilot")
      × IsFilled start.copilot_synopsis (λ s. record start { copilot_synopsis = s }) answer start
          entry
    ⊎ (provider ≡ "ollama")
      × IsFilled start.ollama_synopsis (λ s. record start { ollama_synopsis = s }) answer start
          entry
    ⊎ (provider ≡ "claude")
      × IsFilled start.claude_synopsis (λ s. record start { claude_synopsis = s }) answer start
          entry
    ⊎ ((provider ≢ "copilot") × (provider ≢ "ollama") × (provider ≢ "claude")) × (entry ≡ start)

abbrev pub IsCompleted :
    Option SynopsisGenerator → String → CatalogSynopsisInput → CatalogEntry → CatalogEntry → Type 0
IsCompleted none provider input start entry = entry ≡ start
IsCompleted (some generator) provider input start entry =
    IsFilledBy provider (generator.generate input) start entry

abbrev pub completed :
    Option SynopsisGenerator → String → CatalogSynopsisInput → CatalogEntry → CatalogEntry
completed none provider input start = start
completed (some generator) provider input start =
    filled (selected_synopsis_destination provider) generator.generate start input

answered-IsFilled :
    (destination : SynopsisDestination) (present : String) (store : String → CatalogEntry)
    (answer : Result String String) (start : CatalogEntry)
    → destination.complete start ≡ not (present == "")
    → ((s : String) → destination.store s start ≡ store s)
    → IsFilled present store answer start
        (if destination.complete start then start else answered destination answer start)
answered-IsFilled destination present store (ok s) start complete stores =
    elim (Bool-cases (present == "")) [
      | inl t ↦ rw (complete, t) (inr ((eq_iff present "").0 t, stores s))
      | inr f ↦ rw (complete, f) (inl ((λ e. cc (f, (eq_iff present "").1 e)), refl))
    ]
answered-IsFilled destination present store (err e) start complete stores =
    if_elim (λ c. c ≡ start) (destination.complete start) (λ _. refl) (λ _. refl)

answered_nothing :
    (answer : Result String String) (start : CatalogEntry)
    → answered to_nothing answer start ≡ start
answered_nothing (ok s) start = refl
answered_nothing (err e) start = refl

filled-IsFilledBy :
    (provider : String) (generate : CatalogSynopsisInput → Result String String)
    (start : CatalogEntry) (input : CatalogSynopsisInput)
    → IsFilledBy provider
        (generate input)
        start
        (filled (selected_synopsis_destination provider) generate start input)
unfolding selected_synopsis_destination
filled-IsFilledBy provider generate start input = elim (Bool-cases (provider == "copilot")) [
  | inl c ↦ rw c (
      inl (
        (eq_iff provider "copilot").0 c,
        answered-IsFilled to_copilot start.copilot_synopsis _ (generate input) start refl
            (λ s. refl),
      ))
  | inr c ↦ elim (Bool-cases (provider == "ollama")) [
    | inl o ↦
        rw (c, o)
          (inr (
            inl (
              (eq_iff provider "ollama").0 o,
              answered-IsFilled to_ollama start.ollama_synopsis _ (generate input) start refl
                  (λ s. refl),
            )))
    | inr o ↦ elim (Bool-cases (provider == "claude")) [
      | inl l ↦
          rw (c, o, l)
            (inr (
              inr (
                inl (
                  (eq_iff provider "claude").0 l,
                  answered-IsFilled to_claude start.claude_synopsis _ (generate input) start refl
                      (λ s. refl),
                ))))
      | inr l ↦
          rw (c, o, l)
            (inr (
              inr (
                inr (
                  (
                    (λ e. cc (c, (eq_iff provider "copilot").1 e)),
                    (λ e. cc (o, (eq_iff provider "ollama").1 e)),
                    (λ e. cc (l, (eq_iff provider "claude").1 e)),
                  ),
                  answered_nothing (generate input) start,
                ))))
    ]
  ]
]

pub filled-IsCompleted :
    (generator : Option SynopsisGenerator) (provider : String) (input : CatalogSynopsisInput)
    (start : CatalogEntry)
    → IsCompleted generator provider input start (completed generator provider input start)
filled-IsCompleted none provider input start = refl
filled-IsCompleted (some generator) provider input start =
    filled-IsFilledBy provider generator.generate start input
