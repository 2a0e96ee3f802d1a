-- ===== src/Query/Path/Loop.antt =====
-- The loop over the frontier in query/path.go: what it has found when it ends.
use agent_wayfinder.Prelude.{
  elim_test, ℕ, zero, suc, String, ◌==◌, eq_iff, List, [], ◌∷◌, Bool, true, ◌≡◌, ◌⊎◌, inl, inr, sym,
  subst, ◌∙◌, ◌≤◌, ◌<◌, ◌+◌, refl, Option, some, arith, length, Has, All, ap,
}
use agent_wayfinder.Graph.{Edge, Facts}
use agent_wayfinder.Query.Path.{
  NodesById, EdgesBySource, Predecessor, Search, edges_of, discover_all, search,
}
use agent_wayfinder.Query.Path.Walk.{ids, Joins, Walk}
use agent_wayfinder.Query.Path.Layers.{Tables, Explored, IsFoundFrom, Layered, Layered-next}
use agent_wayfinder.Query.Path.Discover.{Result, discover_all-Result}
use agent_wayfinder.Query.Path.Fuel.{measure, discover_all-measure}

All-Has_at :
    (depth : String → ℕ) (level : ℕ) (xs : List String) (z : String)
    → All (λ y. depth y ≡ level) xs
    → Has z xs
    → depth z ≡ level
All-Has_at depth level [] z h m = absurd m
All-Has_at depth level (x ∷ xs) z h (inl e) = ap depth e ∙ h.0
All-Has_at depth level (x ∷ xs) z h (inr m) = All-Has_at depth level xs z h.1 m

Layered-low :
    (depth : String → ℕ) (level : ℕ) (xs : List String) (z : String)
    → Layered depth level xs
    → Has z xs
    → level ≤ depth z
Layered-low depth level [] z h m = absurd m
Layered-low depth level (x ∷ xs) z (inr h) m =
    omega (arith, All-Has_at depth (suc level) (x ∷ xs) z h m)
Layered-low depth level (x ∷ xs) z (inl h) (inl e) = omega (arith, ap depth e, h.0)
Layered-low depth level (x ∷ xs) z (inl h) (inr m) = Layered-low depth level xs z h.1 m

-- The first of the frontier is nearest.
Layered-first :
    (depth : String → ℕ) (level : ℕ) (x : String) (xs : List String) (z : String)
    → Layered depth level (x ∷ xs)
    → Has z (x ∷ xs)
    → depth x ≤ depth z
Layered-first depth level x xs z (inl h) m =
    omega (arith, h.0, Layered-low depth level (x ∷ xs) z (inl h) m)
Layered-first depth level x xs z (inr h) m =
    omega (arith, h.0, All-Has_at depth (suc level) (x ∷ xs) z h m)

Layered-rest :
    (depth : String → ℕ) (level : ℕ) (x : String) (xs : List String)
    → Layered depth level (x ∷ xs)
    → Layered depth (depth x) xs × (level ≤ depth x)
Layered-rest depth level x xs (inl h) =
    (subst (λ l. Layered depth l xs) (sym h.0) h.1, omega (arith, h.0))
Layered-rest depth level x xs (inr h) = (
  subst (λ l. Layered depth l xs) (sym h.0) (Layered-next depth level xs h.1),
  omega (arith, h.0),
)

-- The state after the loop.
pub record Ended (facts : Facts) (u : Bool) (source target : String) (s : Search) : Type 0 where
  pub depth : String → ℕ
  pub start : Has source s.seen × (depth source ≡ 0)
  pub tree : (y : String) → Has y s.seen → (y ≡ source) ⊎ IsFoundFrom facts u depth s y
  pub are_nodes : (y : String) → Has y s.seen → Has y (ids facts.nodes)
  pub bounded : (y : String) → Has y s.seen → depth y < length s.seen
  pub nearest :
      (edges : List Edge)
      → Walk facts u source edges target
      → Has target s.seen × (depth target ≤ length edges)

module _ (facts : Facts) (u : Bool) (source target : String) (nodes : NodesById)
    (edges : EdgesBySource) (T : Tables facts u nodes edges) where
  -- A walk stays among the nodes that are done, or meets the frontier.
  Walk-reaches :
      (current : String) (level : ℕ) (depth : String → ℕ) (s : Search)
      → Explored facts u source current [] level depth s
      → ((z : String) → Has z s.frontier → Has target s.seen × (depth target ≤ depth z))
      → (es : List Edge) (x : String) → Has x s.seen
      → Walk facts u x es target
      → Has target s.seen × (depth target ≤ depth x + length es)
  unfolding Walk
  Walk-reaches current level depth s I stop [] x m w =
      (subst (λ z. Has z s.seen) w.0 m, omega (arith, ap depth w.0))
  Walk-reaches current level depth s I stop (e ∷ es) x m (_, (z, step, w)) = elim (I.closed x m) [
    | inl queued ↦ ((stop x queued).0, omega (arith, (stop x queued).1))
    | inr (_, done) ↦ elim (done e z step) [
      | inl (_, m') ↦ absurd m'
      | inr (seen, le) ↦
          let (t, bound) = Walk-reaches current level depth s I stop es z seen w in
          (t, omega (arith, bound, le))
    ]
  ]

  -- The state that each iteration starts from.
  abbrev pub AtHead : List String → List String → List (String × Predecessor) → Type 0
  AtHead frontier seen predecessors =
      (current : String) × (level : ℕ) × (depth : String → ℕ) × Explored facts u source current []
        level depth (record { frontier = frontier; seen = seen; predecessors = predecessors })

  AtHead-pop :
      (id : String) (frontier seen : List String) (predecessors : List (String × Predecessor))
      → AtHead (id ∷ frontier) seen predecessors
      → (level : ℕ) × Result facts u source id level
          (edges_of edges id)
          (record { frontier = frontier; seen = seen; predecessors = predecessors })
  AtHead-pop id frontier seen predecessors (current, level, depth, I) =
      let (rest, le) = Layered-rest depth level id frontier I.layers in
      (
        depth id,
        (
          depth,
          record {
            start = I.start;
            tree = I.tree;
            are_nodes = I.are_nodes;
            bounded = I.bounded;
            low = λ y m. omega (arith, I.low y m, le);
            layers = rest;
            queued = λ y m. I.queued y (inr m);
            closed = λ x m. elim (I.closed x m) [
              | inl (inr queued) ↦ inl queued
              | inl (inl e) ↦ inr (
                omega (arith, ap depth e),
                λ edge y step. inl (
                  e,
                  subst (λ z. Has edge (edges_of edges z)) e
                      ((T.edges_iff x edge).1 (step.0, leaves x edge y step.1)),
                ),
              )
              | inr (low, done) ↦ inr (
                omega (arith, low, le),
                λ edge y step. elim (done edge y step) [
                  | inl (_, m') ↦ absurd m'
                  | inr other ↦ inr other
                ],
              )
            ];
          },
          I.queued id (inl refl),
          refl,
        ),
      )
    where
      leaves :
          (x : String) (edge : Edge) (y : String)
          → Joins u x edge y
          → (x ≡ edge.source_id) ⊎ (u ≡ true) × (x ≡ edge.target_id)
      leaves x edge y (inl (e, _)) = inl e
      leaves x edge y (inr (t, e, _)) = inr (t, e)

  AtHead-Ended :
      (frontier after seen : List String) (predecessors : List (String × Predecessor))
      → AtHead frontier seen predecessors
      → ((depth : String → ℕ) (level : ℕ) (z : String)
          → Layered depth level frontier
          → Has z frontier
          → Has target frontier × (depth target ≤ depth z))
      → Ended facts u source target
          (record { frontier = after; seen = seen; predecessors = predecessors })
  AtHead-Ended frontier after seen predecessors (current, level, depth, I) stop = record {
    depth = depth;
    start = I.start;
    tree = I.tree;
    are_nodes = I.are_nodes;
    bounded = I.bounded;
    nearest = λ es w.
        let (m, bound) =
          Walk-reaches current level depth
            (record { frontier = frontier; seen = seen; predecessors = predecessors }) I
            (λ z m.
              let (queued, le) = stop depth level z I.layers m in (I.queued target queued, le))
            es source I.start.0 w in
        (m, omega (arith, bound, I.start.1));
  }

  abbrev Ends : Option Search → Type 0
  Ends r = (s : Search) × (r ≡ some s) × Ended facts u source target s

  -- Enough fuel, and what the loop ends with.
  pub search-Ends :
      (fuel : ℕ) (frontier seen : List String) (predecessors : List (String × Predecessor))
      → AtHead frontier seen predecessors
      → measure nodes (record { frontier = frontier; seen = seen; predecessors = predecessors })
        ≤ fuel
      → Ends (
          search fuel u nodes edges target
            (record { frontier = frontier; seen = seen; predecessors = predecessors }))
  unfolding search
  search-Ends zero [] seen predecessors h le =
      (_, refl, AtHead-Ended [] [] seen predecessors h (λ d l z _ m. absurd m))
  search-Ends zero (id ∷ rest) seen predecessors h le = absurd (omega (arith, le))
  search-Ends (suc fuel) [] seen predecessors h le =
      (_, refl, AtHead-Ended [] [] seen predecessors h (λ d l z _ m. absurd m))
  search-Ends (suc fuel) (id ∷ rest) seen predecessors h le =
      let popped : Search = record { frontier = rest; seen = seen; predecessors = predecessors } in
      let next = discover_all u nodes id (edges_of edges id) popped in
      elim_test Ends (id == target)
        (λ e. (
          popped,
          refl,
          AtHead-Ended (id ∷ rest) rest seen predecessors h (λ d l z lay m. (
            inl (sym ((eq_iff id target).0 e)),
            omega (arith, Layered-first d l id rest z lay m, ap d ((eq_iff id target).0 e)),
          )),
        ))
        (λ e.
          let (level, r) = AtHead-pop id rest seen predecessors h in
          let (depth, I, _, _) =
            discover_all-Result facts u source id level nodes edges T (edges_of edges id) popped
              (λ e m. m) r in
          search-Ends fuel next.frontier next.seen next.predecessors (id, level, depth, I)
            (omega (arith, le, discover_all-measure u nodes id (edges_of edges id) popped)))
