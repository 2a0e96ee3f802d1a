-- ===== src/Indexing/Pages/Joined.antt =====
-- What several calls of resolvers amount to in index/index.go: all their edges and diagnostics in
-- order, or the error of the first call that fails.
use agent_wayfinder.Prelude.{List, [], ◌∷◌, ◌++◌, Result, ok, err, ◌>>=◌, ◌≡◌, ◌∙◌, refl, sym, ap}
use agent_wayfinder.Graph.{Node, Edge}
use agent_wayfinder.Extractor.{Diagnostic}
use agent_wayfinder.Indexing.{IndexError, Resolution}
use agent_wayfinder.Indexing.Pages.{join_resolution, add_resolution}
use mathlib.Core.List.{append_assoc, append-nil}

abbrev pub Answers : Type 0
Answers = List (Result IndexError Resolution)

abbrev pub edges_of : List Resolution → List Edge
edges_of [] = []
edges_of (r ∷ rs) = r.facts.edges ++ edges_of rs

abbrev pub diagnostics_of : List Resolution → List Diagnostic
diagnostics_of [] = []
diagnostics_of (r ∷ rs) = r.diagnostics ++ diagnostics_of rs

-- Each answer is that resolution.
abbrev pub Are : Answers → List Resolution → Type 0
Are [] [] = Unit
Are [] (r ∷ rs) = ⊥
Are (a ∷ answers) [] = ⊥
Are (a ∷ answers) (r ∷ rs) = (a ≡ ok r) × Are answers rs

-- From some nodes, edges and diagnostics on: these with the edges and diagnostics of all answers, in
-- their order, or the first answer that is an error.
abbrev pub IsJoined :
    List Node → List Edge → List Diagnostic → Answers → Result IndexError Resolution → Type 0
IsJoined nodes edges first answers (ok result) =
    (resolutions : List Resolution) × Are answers resolutions
    × (result.facts.nodes ≡ nodes)
    × (result.facts.edges ≡ edges ++ edges_of resolutions)
    × (result.diagnostics ≡ first ++ diagnostics_of resolutions)
IsJoined nodes edges first answers (err e) =
    (before : Answers) × (resolutions : List Resolution) × (after : Answers) × (answers
      ≡ before ++ err e ∷ after)
    × Are before resolutions

-- The calls in sequence, from a resolution on.
unfoldable pub join_all : Resolution → Answers → Result IndexError Resolution
join_all all [] = ok all
join_all all (answer ∷ answers) = add_resolution all answer >>= λ next. join_all next answers

IsJoined-next :
    (nodes : List Node) (edges : List Edge) (first : List Diagnostic) (r : Resolution)
    (answers : Answers) (out : Result IndexError Resolution)
    → IsJoined nodes (edges ++ r.facts.edges) (first ++ r.diagnostics) answers out
    → IsJoined nodes edges first (ok r ∷ answers) out
IsJoined-next nodes edges first r answers (ok result) (rs, are, ns, es, ds) = (
  r ∷ rs,
  (refl, are),
  ns,
  es ∙ append_assoc edges r.facts.edges (edges_of rs),
  ds ∙ append_assoc first r.diagnostics (diagnostics_of rs),
)
IsJoined-next nodes edges first r answers (err e) (before, rs, after, split, are) =
    (ok r ∷ before, r ∷ rs, after, ap (λ (l : Answers). ok r ∷ l) split, (refl, are))

pub join_all-IsJoined :
    (all : Resolution) (answers : Answers)
    → IsJoined all.facts.nodes all.facts.edges all.diagnostics answers (join_all all answers)
unfolding join_all
join_all-IsJoined all [] =
    ([], tt, refl, sym (append-nil all.facts.edges), sym (append-nil all.diagnostics))
join_all-IsJoined all (ok r ∷ answers) =
    IsJoined-next all.facts.nodes all.facts.edges all.diagnostics r answers _
      (join_all-IsJoined (join_resolution all r) answers)
join_all-IsJoined all (err e ∷ answers) = ([], [], answers, refl, tt)
