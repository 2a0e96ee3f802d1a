-- ===== src/Query/Path/Walk.antt =====
-- Walks along the edges of a set of facts, described without the search of query/path.go.
use agent_wayfinder.Prelude.{String, List, [], ◌∷◌, Bool, true, ◌≡◌, ◌⊎◌, Has, map}
use agent_wayfinder.Graph.{Node, Edge, Facts}

abbrev pub ids : List Node → List String
ids nodes = map (λ node. node.id) nodes

-- `edge` leads from `x` to `y`, backwards too if `undirected`.
abbrev pub Joins : Bool → String → Edge → String → Type 0
Joins undirected x edge y =
    (x ≡ edge.source_id) × (y ≡ edge.target_id)
    ⊎ (undirected ≡ true) × (x ≡ edge.target_id) × (y ≡ edge.source_id)

abbrev pub Step : Facts → Bool → String → Edge → String → Type 0
Step facts undirected x edge y =
    Has edge facts.edges × Joins undirected x edge y × Has y (ids facts.nodes)

-- A walk from node `x` to node `y` by these edges.
unfoldable pub Walk : Facts → Bool → String → List Edge → String → Type 0
Walk facts undirected x [] y = (x ≡ y) × Has x (ids facts.nodes)
Walk facts undirected x (edge ∷ edges) y =
    Has x (ids facts.nodes)
    × ((z : String) × Step facts undirected x edge z × Walk facts undirected z edges y)

-- The same walk with the nodes it visits, from `x` to `y`.
unfoldable pub IsPath : Facts → Bool → String → List Node → List Edge → String → Type 0
IsPath facts undirected x [] edges y = ⊥
IsPath facts undirected x (node ∷ nodes) [] y =
    (x ≡ y) × Has node facts.nodes × (node.id ≡ x) × (nodes ≡ [])
IsPath facts undirected x (node ∷ nodes) (edge ∷ edges) y =
    Has node facts.nodes
    × (node.id ≡ x)
    × ((z : String) × Step facts undirected x edge z × IsPath facts undirected z nodes edges y)
