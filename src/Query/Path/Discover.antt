-- ===== src/Query/Path/Discover.antt =====
-- The loop over the edges of a node in query/path.go keeps the invariant of the search.
use agent_wayfinder.Prelude.{
  ℕ, suc, String, ◌==◌, eq_refl, List, [], ◌∷◌, ◌++◌, Bool, true, false, not, ◌||◌, ◌≡◌, ◌⊎◌, ◌≤◌,
  inl, inr, refl, sym, Has, Has-append, lookup, insert, lookup-insert, is_found, contains,
  contains_iff, arith, if◌then◌else◌, eq_cases, if_elim, subst, ap, ◌∙◌,
}
use agent_wayfinder.Graph.{Edge, Facts}
use agent_wayfinder.Query.Path.{
  NodesById, EdgesBySource, Search, edges_of, neighbor_of, discover, discover_all,
}
use agent_wayfinder.Query.Path.Walk.{ids, Step}
use agent_wayfinder.Query.Path.Layers.{
  Tables, Explored, IsFoundFrom, Layered-push, Layered-relabel, neighbor_of-Joins,
  neighbor_of_unique,
}

-- The depths once `n` is found.
abbrev pub relabel : String → ℕ → (String → ℕ) → String → ℕ
relabel n level depth y = if n == y then suc level else depth y

relabel-seen :
    (n : String) (level : ℕ) (depth : String → ℕ) (seen : List String) (y : String)
    → (¬ Has n seen)
    → Has y seen
    → relabel n level depth y ≡ depth y
relabel-seen n level depth seen y new m = elim (eq_cases n y) [
  | inl (_, e) ↦ absurd (new (subst (λ z. Has z seen) (sym e) m))
  | inr (differ, _) ↦ ground (arith, differ)
]

relabel-new : (n : String) (level : ℕ) (depth : String → ℕ) → relabel n level depth n ≡ suc level
relabel-new n level depth = ground (arith, eq_refl n)

module _ (facts : Facts) (u : Bool) (source current : String) (level : ℕ) (edge : Edge)
    (todo : List Edge) (depth : String → ℕ) (s : Search)
    (I : Explored facts u source current (edge ∷ todo) level depth s)
    (at : depth current ≡ level) where
  -- A neighbor that was seen before, or is no node, leaves all as it is.
  skip-Explored :
      ((y : String) → Step facts u current edge y → Has y s.seen)
      → Explored facts u source current todo level depth s
  skip-Explored h = record {
    start = I.start;
    tree = I.tree;
    are_nodes = I.are_nodes;
    bounded = I.bounded;
    low = I.low;
    layers = I.layers;
    queued = I.queued;
    closed = λ x m. elim (I.closed x m) [
      | inl queued ↦ inl queued
      | inr (le, done) ↦ inr (
        le,
        λ e y step. elim (done e y step) [
          | inr other ↦ inr other
          | inl (here, inr later) ↦ inl (here, later)
          | inl (here, inl now) ↦
              let old = h y (
                subst (λ z. Step facts u z edge y) here
                  (subst (λ e'. Step facts u x e' y) now step)) in
              inr (old, omega (arith, I.low y old, at, ap depth here))
        ],
      )
    ];
  }

  module _ (n : String) (same : (y : String) → Step facts u current edge y → n ≡ y)
      (new : ¬ Has n s.seen) (step : Step facts u current edge n) (here : Has current s.seen) where
    abbrev found : Search
    found = record {
      frontier = s.frontier ++ n ∷ [];
      seen = n ∷ s.seen;
      predecessors = insert n (record { node_id = current; edge = edge }) s.predecessors;
    }

    keeps : (y : String) → Has y s.seen → relabel n level depth y ≡ depth y
    keeps y m = relabel-seen n level depth s.seen y new m

    keeps-IsFoundFrom :
        (y : String)
        → Has y s.seen
        → IsFoundFrom facts u depth s y
        → IsFoundFrom facts u (relabel n level depth) found y
    keeps-IsFoundFrom y m (p, at_y, before, joined, deeper) = (
      p,
      elim (eq_cases n y) [
        | inl (_, e) ↦ absurd (new (subst (λ z. Has z s.seen) (sym e) m))
        | inr (differ, _) ↦ ground (
          arith,
          differ,
          at_y,
          lookup-insert n y (record { node_id = current; edge = edge }) s.predecessors,
        )
      ],
      inr before,
      joined,
      omega (arith, keeps y m, keeps p.node_id before, deeper),
    )

    new-IsFoundFrom : IsFoundFrom facts u (relabel n level depth) found n
    new-IsFoundFrom = (
      record { node_id = current; edge = edge },
      ground (
        arith,
        eq_refl n,
        lookup-insert n n (record { node_id = current; edge = edge }) s.predecessors,
      ),
      inr here,
      step,
      omega (arith, relabel-new n level depth, keeps current here, at),
    )

    at_new : (y : String) → y ≡ n → relabel n level depth y ≡ suc level
    at_new y e =
        subst (λ z. relabel n level depth z ≡ suc level) (sym e) (relabel-new n level depth)

    push-closed :
        (x : String)
        → Has x s.seen
        → depth x ≤ level
        → ((e : Edge) (y : String)
            → Step facts u x e y
            → (x ≡ current) × Has e (edge ∷ todo) ⊎ Has y s.seen × (depth y ≤ suc (depth x)))
        → (e : Edge) (y : String) → Step facts u x e y
        → (x ≡ current) × Has e todo
          ⊎ Has y (n ∷ s.seen) × (relabel n level depth y ≤ suc (relabel n level depth x))
    push-closed x m le done e y st = elim (done e y st) [
      | inl (cur, inr later) ↦ inl (cur, later)
      | inl (cur, inl now) ↦
          let e' =
            same y
              (subst (λ z. Step facts u z edge y) cur (subst (λ f. Step facts u x f y) now st)) in
          inr (inl (sym e'), omega (arith, at_new y (sym e'), keeps x m, ap depth cur, at))
      | inr (old, le') ↦ inr (inr old, omega (arith, keeps y old, keeps x m, le'))
    ]

    push-Explored : Explored facts u source current todo level (relabel n level depth) found
    push-Explored = record {
      start = (inr I.start.0, keeps source I.start.0 ∙ I.start.1);
      tree = λ y m. elim m [
        | inl e ↦
            inr (subst (IsFoundFrom facts u (relabel n level depth) found) (sym e) new-IsFoundFrom)
        | inr old ↦ elim (I.tree y old) [ inl e ↦ inl e | inr p ↦ inr (keeps-IsFoundFrom y old p) ]
      ];
      are_nodes = λ y m. elim m [
        | inl e ↦ subst (λ z. Has z (ids facts.nodes)) (sym e) step.2
        | inr old ↦ I.are_nodes y old
      ];
      bounded = λ y m. elim m [
        | inl e ↦ omega (arith, at_new y e, I.bounded current here, at)
        | inr old ↦ omega (arith, keeps y old, I.bounded y old)
      ];
      low = λ y m. elim m [
        | inl e ↦ omega (arith, at_new y e)
        | inr old ↦ omega (arith, keeps y old, I.low y old)
      ];
      layers =
          Layered-push (relabel n level depth) level s.frontier n
            (Layered-relabel depth (relabel n level depth) level s.frontier
              (λ y m. keeps y (I.queued y m)) I.layers)
            (relabel-new n level depth);
      queued = λ y m. elim ((Has-append y s.frontier (n ∷ [])).0 m) [
        | inl old ↦ inr (I.queued y old)
        | inr (inl e) ↦ inl e
        | inr (inr m) ↦ absurd m
      ];
      closed = λ x m. elim m [
        | inl e ↦ inl ((Has-append x s.frontier (n ∷ [])).1 (inr (inl e)))
        | inr old ↦ elim (I.closed x old) [
          | inl queued ↦ inl ((Has-append x s.frontier (n ∷ [])).1 (inl queued))
          | inr (le, done) ↦ inr (omega (arith, keeps x old, le), push-closed x old le done)
        ]
      ];
    }

-- What the loop over the edges of `current` leaves behind.
abbrev pub Result : Facts → Bool → String → String → ℕ → List Edge → Search → Type 0
Result facts u source current level todo s =
    (depth : String → ℕ) × Explored facts u source current todo level depth s
    × Has current s.seen
    × (depth current ≡ level)

module _ (facts : Facts) (u : Bool) (source current : String) (level : ℕ) (nodes : NodesById)
    (edges : EdgesBySource) (T : Tables facts u nodes edges) where
  was_seen :
      (n : String) (seen : List String)
      → (not (is_found (lookup n nodes)) || contains seen n) ≡ true
      → Has n (ids facts.nodes)
      → Has n seen
  was_seen n seen old m = ground (arith, T.nodes_iff n, contains_iff seen n)

  is_new :
      (n : String) (seen : List String)
      → (not (is_found (lookup n nodes)) || contains seen n) ≡ false
      → Has n (ids facts.nodes) × (¬ Has n seen)
  is_new n seen new = ground (arith, T.nodes_iff n, contains_iff seen n)

  discover-Result :
      (edge : Edge) (todo : List Edge) (s : Search)
      → Has edge (edges_of edges current)
      → Result facts u source current level (edge ∷ todo) s
      → Result facts u source current level todo (discover u nodes current edge s)
  unfolding discover
  discover-Result edge todo s bucket (depth, I, here, at) =
      let n = neighbor_of u current edge in
      let inside = (T.edges_iff current edge).0 bucket in
      let same = λ (y : String) (step : Step facts u current edge y).
        neighbor_of_unique u current edge y step.1 in
      if_elim (Result facts u source current level todo)
        (not (is_found (lookup n nodes)) || contains s.seen n)
        (λ old. (
          depth,
          skip-Explored facts u source current level edge todo depth s I at
              (λ (y : String) (step : Step facts u current edge y).
                subst (λ z. Has z s.seen) (same y step)
                  (was_seen n s.seen old
                    (subst (λ z. Has z (ids facts.nodes)) (sym (same y step)) step.2))),
          here,
          at,
        ))
        (λ new. (
          relabel n level depth,
          push-Explored facts u source current level edge todo depth s I at n same
              (is_new n s.seen new).1
              (inside.0, neighbor_of-Joins u current edge inside.1, (is_new n s.seen new).0) here,
          inr here,
          relabel-seen n level depth s.seen current (is_new n s.seen new).1 here ∙ at,
        ))

  pub discover_all-Result :
      (todo : List Edge) (s : Search)
      → ((e : Edge) → Has e todo → Has e (edges_of edges current))
      → Result facts u source current level todo s
      → Result facts u source current level [] (discover_all u nodes current todo s)
  unfolding discover_all
  discover_all-Result [] s bucket r = r
  discover_all-Result (edge ∷ todo) s bucket r =
      discover_all-Result todo (discover u nodes current edge s) (λ e m. bucket e (inr m))
        (discover-Result edge todo s (bucket edge (inl refl)) r)
