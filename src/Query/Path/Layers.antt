-- ===== src/Query/Path/Layers.antt =====
-- The invariant of the search in query/path.go. The nodes that are seen have a depth, the frontier
-- holds a layer and then the next one, and the edges of every other node that was seen are done.
use agent_wayfinder.Prelude.{
  ℕ, suc, String, eq_iff, List, [], ◌∷◌, ◌++◌, Bool, true, ◌≡◌, ◌⊎◌, ◌↔◌, ◌≤◌, ◌<◌, inl, inr, refl,
  Has, All, some, lookup, is_found, arith, length,
}
use agent_wayfinder.Graph.{Node, Edge, Facts}
use agent_wayfinder.Query.Path.{
  NodesById, EdgesBySource, Predecessor, Search, edges_of, neighbor_of,
}
use agent_wayfinder.Query.Path.Walk.{ids, Joins, Step}

-- What the tables have to do with the facts.
pub record Tables (facts : Facts) (undirected : Bool) (nodes : NodesById) (edges : EdgesBySource)
    : Type 0 where
  pub nodes_iff : (k : String) → (is_found (lookup k nodes) ≡ true) ↔ Has k (ids facts.nodes)
  pub origin : (k : String) (n : Node) → lookup k nodes ≡ some n → Has n facts.nodes × (n.id ≡ k)
  pub edges_iff :
      (k : String) (e : Edge)
      → Has e (edges_of edges k)
        ↔ (Has e facts.edges × ((k ≡ e.source_id) ⊎ (undirected ≡ true) × (k ≡ e.target_id)))

pub neighbor_of-Joins :
    (u : Bool) (id : String) (e : Edge)
    → (id ≡ e.source_id) ⊎ (u ≡ true) × (id ≡ e.target_id)
    → Joins u id e (neighbor_of u id e)
unfolding neighbor_of
neighbor_of-Joins u id e h = ground (arith, eq_iff e.target_id id, h)

pub neighbor_of_unique :
    (u : Bool) (id : String) (e : Edge) (y : String) → Joins u id e y → neighbor_of u id e ≡ y
unfolding neighbor_of
neighbor_of_unique u id e y h = grind (arith, eq_iff e.target_id id, h)

-- A layer, and then the next one.
abbrev pub Layered : (String → ℕ) → ℕ → List String → Type 0
Layered depth level [] = Unit
Layered depth level (x ∷ xs) =
    (depth x ≡ level) × Layered depth level xs ⊎ All (λ y. depth y ≡ suc level) (x ∷ xs)

pub Layered-next :
    (depth : String → ℕ) (level : ℕ) (xs : List String)
    → All (λ y. depth y ≡ suc level) xs
    → Layered depth (suc level) xs
Layered-next depth level [] h = tt
Layered-next depth level (x ∷ xs) h = inl (h.0, Layered-next depth level xs h.1)

All-push :
    (depth : String → ℕ) (level : ℕ) (xs : List String) (n : String)
    → All (λ y. depth y ≡ suc level) xs
    → depth n ≡ suc level
    → All (λ y. depth y ≡ suc level) (xs ++ n ∷ [])
All-push depth level [] n h e = (e, tt)
All-push depth level (x ∷ xs) n h e = (h.0, All-push depth level xs n h.1 e)

pub Layered-push :
    (depth : String → ℕ) (level : ℕ) (xs : List String) (n : String)
    → Layered depth level xs
    → depth n ≡ suc level
    → Layered depth level (xs ++ n ∷ [])
Layered-push depth level [] n h e = inr (e, tt)
Layered-push depth level (x ∷ xs) n (inl h) e = inl (h.0, Layered-push depth level xs n h.1 e)
Layered-push depth level (x ∷ xs) n (inr h) e = inr (All-push depth level (x ∷ xs) n h e)

All-relabel :
    (d d' : String → ℕ) (level : ℕ) (xs : List String)
    → ((x : String) → Has x xs → d' x ≡ d x)
    → All (λ y. d y ≡ suc level) xs
    → All (λ y. d' y ≡ suc level) xs
All-relabel d d' level [] same h = tt
All-relabel d d' level (x ∷ xs) same h =
    (cc (same x (inl refl), h.0), All-relabel d d' level xs (λ y m. same y (inr m)) h.1)

pub Layered-relabel :
    (d d' : String → ℕ) (level : ℕ) (xs : List String)
    → ((x : String) → Has x xs → d' x ≡ d x)
    → Layered d level xs
    → Layered d' level xs
Layered-relabel d d' level [] same h = tt
Layered-relabel d d' level (x ∷ xs) same (inl h) =
    inl (cc (same x (inl refl), h.0), Layered-relabel d d' level xs (λ y m. same y (inr m)) h.1)
Layered-relabel d d' level (x ∷ xs) same (inr h) = inr (All-relabel d d' level (x ∷ xs) same h)

-- How a node that is seen was found.
abbrev pub IsFoundFrom : Facts → Bool → (String → ℕ) → Search → String → Type 0
IsFoundFrom facts u depth s y =
    (p : Predecessor) × (lookup y s.predecessors ≡ some p)
    × Has p.node_id s.seen
    × Step facts u p.node_id p.edge y
    × (depth y ≡ suc (depth p.node_id))

-- `todo` are the edges of `current` that are still to be done.
pub record Explored (facts : Facts) (u : Bool) (source current : String) (todo : List Edge)
    (level : ℕ) (depth : String → ℕ) (s : Search) : Type 0 where
  pub start : Has source s.seen × (depth source ≡ 0)
  pub tree : (y : String) → Has y s.seen → (y ≡ source) ⊎ IsFoundFrom facts u depth s y
  pub are_nodes : (y : String) → Has y s.seen → Has y (ids facts.nodes)
  pub bounded : (y : String) → Has y s.seen → depth y < length s.seen
  pub low : (y : String) → Has y s.seen → depth y ≤ suc level
  pub layers : Layered depth level s.frontier
  pub queued : (y : String) → Has y s.frontier → Has y s.seen
  pub closed :
      (x : String)
      → Has x s.seen
      → Has x s.frontier
        ⊎ (depth x ≤ level)
          × ((e : Edge) (y : String)
              → Step facts u x e y
              → (x ≡ current) × Has e todo ⊎ Has y s.seen × (depth y ≤ suc (depth x)))
