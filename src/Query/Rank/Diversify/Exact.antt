-- ===== src/Query/Rank/Diversify/Exact.antt =====
-- What `diversifyRankedSeeds` of query/rank.go selects.
use agent_wayfinder.Prelude.{
  ℕ, ◌+◌, ◌<◌, ◌≤◌, String, List, [], ◌∷◌, ◌++◌, Bool, true, false, ◌&&◌, nat_eq, nat_eq_iff,
  contains, contains_iff, length, length-append, Has, Has-append, IsDistinct, IsDistinct-append,
  elim_test, ◌≡◌, ◌⊎◌, inl, inr, refl, sym, ◌∙◌, ap, subst, arith, if_elim,
}
use mathlib.Core.List.{append_assoc, append-nil}
use agent_wayfinder.Query.Rank.{RankedSeed}
use agent_wayfinder.Query.Rank.Diversify.{
  Selection, path_of, select, select_all, add_deferred, finish, nothing_selected,
  diversify_ranked_seeds,
}
use agent_wayfinder.Query.Rank.Diversify.Selects.{
  ids, paths, ids-append, IsSelection, skip-IsSelection, defer-IsSelection, choose-IsSelection,
}

prefix-IsDistinct : (xs ys : List String) → IsDistinct (xs ++ ys) → IsDistinct xs
prefix-IsDistinct [] ys d = tt
prefix-IsDistinct (x ∷ xs) ys d =
    (λ m. d.0 ((Has-append x xs ys).1 (inl m)), prefix-IsDistinct xs ys d.1)

module _ {S : Type 0} where
  -- The list after a round, and its length.
  abbrev Round :
      List (RankedSeed S) → List (RankedSeed S) → Selection S → Selection S × Bool → Type 0
  Round candidates todo s r =
      IsSelection candidates todo r.0
      × ((r.1 ≡ true) × (length r.0.selected ≡ length s.selected + 1)
          ⊎ (r.1 ≡ false) × (length r.0.selected ≡ length s.selected))

  select-IsSelection :
      (candidates : List (RankedSeed S)) (c : RankedSeed S) (todo : List (RankedSeed S))
      (s : Selection S)
      → Has c candidates
      → IsSelection candidates (c ∷ todo) s
      → Round candidates todo s (select c s)
  unfolding select
  select-IsSelection candidates c todo s among h =
      if_elim (Round candidates todo s) (contains s.seen_nodes c.node.id)
        (λ t. (
          skip-IsSelection candidates c todo s ((contains_iff s.seen_nodes c.node.id).0 t) h,
          inr (refl, refl),
        ))
        (λ f.
          let new = λ (m : Has c.node.id s.seen_nodes).
            absurd (cc ((contains_iff s.seen_nodes c.node.id).1 m, f)) in
          if_elim (Round candidates todo s) (contains s.seen_paths (path_of c))
            (λ t. (
              defer-IsSelection candidates c todo s new
                  ((contains_iff s.seen_paths (path_of c)).0 t) among h,
              inr (refl, refl),
            ))
            (λ g. (
              choose-IsSelection candidates c todo s new
                  (λ m. absurd (cc ((contains_iff s.seen_paths (path_of c)).1 m, g))) among h,
              inl (refl, length-append s.selected (c ∷ [])),
            )))

  -- The state when the first loop ends.
  abbrev Ended : List (RankedSeed S) → ℕ → Selection S × Bool → Type 0
  Ended candidates limit r =
      ((todo : List (RankedSeed S)) × IsSelection candidates todo r.0
        × (length r.0.selected ≡ limit)
        × (r.1 ≡ true))
      ⊎ (IsSelection candidates [] r.0 × (length r.0.selected < limit) × (r.1 ≡ false))

  select_all-Ended :
      (candidates : List (RankedSeed S)) (limit : ℕ) (todo : List (RankedSeed S)) (s : Selection S)
      → ((c : RankedSeed S) → Has c todo → Has c candidates)
      → length s.selected < limit
      → IsSelection candidates todo s
      → Ended candidates limit (select_all limit todo s)
  unfolding select_all
  select_all-Ended candidates limit [] s among below h = inr (h, below, refl)
  select_all-Ended candidates limit (c ∷ todo) s among below h =
      let (kept, counted) = select-IsSelection candidates c todo s (among c (inl refl)) h in
      let next = select c s in
      elim_test (Ended candidates limit) (next.1 && nat_eq (length next.0.selected) limit)
        (λ t. inl (todo, kept, ground (arith, nat_eq_iff (length next.0.selected) limit), refl))
        (λ f.
          select_all-Ended candidates limit todo next.0 (λ d m. among d (inr m))
            (ground (arith, nat_eq_iff (length next.0.selected) limit)) kept)

  -- The second loop appends the deferred ones that the limit leaves room for.
  record Appends (limit : ℕ) (deferred selected result : List (RankedSeed S)) : Type 0 where
    taken : List (RankedSeed S)
    left : List (RankedSeed S)
    split : deferred ≡ taken ++ left
    same : result ≡ selected ++ taken
    bounded : length result ≤ limit
    full : length result < limit → left ≡ []

  add_deferred-Appends :
      (limit : ℕ) (deferred selected : List (RankedSeed S))
      → length selected < limit
      → Appends limit deferred selected (add_deferred limit deferred selected)
  unfolding add_deferred
  add_deferred-Appends limit [] selected below = record {
    taken = [];
    left = [];
    split = refl;
    same = sym (append-nil selected);
    bounded = omega arith;
    full = λ _. refl;
  }
  add_deferred-Appends limit (c ∷ deferred) selected below =
      let next = selected ++ c ∷ [] in
      let longer = length-append selected (c ∷ []) in
      elim_test (Appends limit (c ∷ deferred) selected) (nat_eq (length next) limit)
        (λ t.
          let e = (nat_eq_iff (length next) limit).0 t in
          record {
            taken = c ∷ [];
            left = deferred;
            split = refl;
            same = refl;
            bounded = omega (arith, e);
            full = λ m. absurd (omega (arith, m, e));
          })
        (λ f.
          let rest =
            add_deferred-Appends limit deferred next
              (ground (arith, nat_eq_iff (length next) limit, longer)) in
          record {
            taken = c ∷ rest.taken;
            left = rest.left;
            split = ap (λ (l : List (RankedSeed S)). c ∷ l) rest.split;
            same = rest.same ∙ append_assoc selected (c ∷ []) rest.taken;
            bounded = rest.bounded;
            full = rest.full;
          })

  -- The selected seeds: the first ones have distinct files, the others share theirs with these.
  pub record AreDiverse (candidates : List (RankedSeed S)) (limit : ℕ)
      (result : List (RankedSeed S)) : Type 0 where
    pub firsts : List (RankedSeed S)
    pub others : List (RankedSeed S)
    pub same : result ≡ firsts ++ others
    pub bounded : length result ≤ limit
    pub nodes_once : IsDistinct (ids result)
    pub paths_once : IsDistinct (paths firsts)
    pub shared : (c : RankedSeed S) → Has c others → Has (path_of c) (paths firsts)
    pub among : (c : RankedSeed S) → Has c result → Has c candidates
    pub complete :
        length result < limit → (c : RankedSeed S) → Has c candidates → Has c.node.id (ids result)

  prefix-ids :
      (xs ys zs : List (RankedSeed S)) (k : String)
      → xs ≡ ys ++ zs
      → Has k (ids ys)
      → Has k (ids xs)
  prefix-ids xs ys zs k e m =
      subst (Has k) (sym (ap (λ l. ids l) e ∙ ids-append ys zs))
        ((Has-append k (ids ys) (ids zs)).1 (inl m))

  -- The result of an early return.
  early-AreDiverse :
      (candidates todo : List (RankedSeed S)) (limit : ℕ) (s : Selection S)
      → IsSelection candidates todo s
      → length s.selected ≡ limit
      → AreDiverse candidates limit s.selected
  early-AreDiverse candidates todo limit s h e = record {
    firsts = s.selected;
    others = [];
    same = sym (append-nil s.selected);
    bounded = omega (arith, e);
    nodes_once = h.nodes_once;
    paths_once = h.paths_once;
    shared = λ c m. absurd m;
    among = h.selected_among;
    complete = λ short c m. absurd (omega (arith, short, e));
  }

  -- The result after both loops.
  late-AreDiverse :
      (candidates : List (RankedSeed S)) (limit : ℕ) (s : Selection S)
      → IsSelection candidates [] s
      → length s.selected < limit
      → AreDiverse candidates limit (add_deferred limit s.deferred s.selected)
  late-AreDiverse candidates limit s h below =
      let result = add_deferred limit s.deferred s.selected in
      let a = add_deferred-Appends limit s.deferred s.selected below in
      let named = ap (λ l. ids l) a.same ∙ ids-append s.selected a.taken in
      let taken_once =
        prefix-IsDistinct (ids a.taken) (ids a.left) (
          subst IsDistinct (ap (λ l. ids l) a.split ∙ ids-append a.taken a.left) h.deferred_once) in
      let deferred_of : (c : RankedSeed S) → Has c a.taken → Has c s.deferred =
        λ c m. subst (Has c) (sym a.split) ((Has-append c a.taken a.left).1 (inl m)) in
      record {
        firsts = s.selected;
        others = a.taken;
        same = a.same;
        bounded = a.bounded;
        nodes_once = subst IsDistinct (sym named) (
            IsDistinct-append (ids s.selected) (ids a.taken) h.nodes_once taken_once
              (λ k m n. h.apart k m (prefix-ids s.deferred a.taken a.left k a.split n)));
        paths_once = h.paths_once;
        shared = λ c m. h.shared c (deferred_of c m);
        among = λ c m. elim ((Has-append c s.selected a.taken).0 (subst (Has c) a.same m)) [
          | inl first ↦ h.selected_among c first
          | inr later ↦ h.deferred_among c (deferred_of c later)
        ];
        complete = λ short c m. elim (h.covered c m) [
          | inl nothing ↦ absurd nothing
          | inr seen ↦
              let all : s.deferred ≡ a.taken =
                a.split ∙ ap (λ l. a.taken ++ l) (a.full short) ∙ append-nil a.taken in
              subst (Has c.node.id) (sym named) (
                (Has-append c.node.id (ids s.selected) (ids a.taken)).1
                  (elim ((h.known c.node.id).0 seen) [
                    | inl k ↦ inl k
                    | inr k ↦ inr (subst (λ l. Has c.node.id (ids l)) all k)
                  ]))
        ];
      }

  finish-AreDiverse :
      (candidates : List (RankedSeed S)) (limit : ℕ) (r : Selection S × Bool)
      → Ended candidates limit r
      → AreDiverse candidates limit (finish limit r)
  finish-AreDiverse candidates limit (s, true) (inl (todo, h, e, t)) =
      early-AreDiverse candidates todo limit s h e
  finish-AreDiverse candidates limit (s, true) (inr (h, below, t)) = cc
  finish-AreDiverse candidates limit (s, false) (inl (todo, h, e, t)) = cc
  finish-AreDiverse candidates limit (s, false) (inr (h, below, t)) =
      late-AreDiverse candidates limit s h below

  start-IsSelection :
      (candidates : List (RankedSeed S)) → IsSelection candidates candidates nothing_selected
  start-IsSelection candidates = record {
    nodes_once = tt;
    deferred_once = tt;
    apart = λ k m n. m;
    known = λ k. ground arith;
    paths_known = λ k. ground arith;
    paths_once = tt;
    shared = λ c m. absurd m;
    selected_among = λ c m. absurd m;
    deferred_among = λ c m. absurd m;
    covered = λ c m. inl m;
  }

  -- For a positive limit, `diversifyRankedSeeds` selects as many of the candidates as the limit at most,
  -- with distinct nodes: first seeds of distinct files, then seeds of the files of these. If it selects
  -- fewer than the limit, every candidate's node is selected.
  pub diversify_ranked_seeds-AreDiverse :
      (candidates : List (RankedSeed S)) (limit : ℕ)
      → 0 < limit
      → AreDiverse candidates limit (diversify_ranked_seeds candidates limit)
  unfolding diversify_ranked_seeds
  diversify_ranked_seeds-AreDiverse candidates limit positive =
      finish-AreDiverse candidates limit (select_all limit candidates nothing_selected) (
        select_all-Ended candidates limit candidates nothing_selected (λ c m. m) positive
          (start-IsSelection candidates))
