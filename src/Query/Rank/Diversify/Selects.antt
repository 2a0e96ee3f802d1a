-- ===== src/Query/Rank/Diversify/Selects.antt =====
-- The state of the first loop of `diversifyRankedSeeds` in query/rank.go.
use agent_wayfinder.Prelude.{
  String, List, [], ◌∷◌, ◌++◌, Has, Has-append, IsDistinct, Has-last, last-IsDistinct, ◌≡◌, ◌↔◌,
  ◌⊎◌, inl, inr, refl, sym, ap, subst, arith,
}
use agent_wayfinder.Query.Rank.{RankedSeed}
use agent_wayfinder.Query.Rank.Diversify.{Selection, path_of}

module _ {S : Type 0} where
  abbrev pub ids : List (RankedSeed S) → List String
  ids [] = []
  ids (c ∷ cs) = c.node.id ∷ ids cs

  abbrev pub paths : List (RankedSeed S) → List String
  paths [] = []
  paths (c ∷ cs) = path_of c ∷ paths cs

  pub ids-append : (xs ys : List (RankedSeed S)) → ids (xs ++ ys) ≡ ids xs ++ ids ys
  ids-append [] ys = refl
  ids-append (x ∷ xs) ys = ap (λ (l : List String). x.node.id ∷ l) (ids-append xs ys)

  pub paths-append : (xs ys : List (RankedSeed S)) → paths (xs ++ ys) ≡ paths xs ++ paths ys
  paths-append [] ys = refl
  paths-append (x ∷ xs) ys = ap (λ (l : List String). path_of x ∷ l) (paths-append xs ys)

  -- The state of the first loop, after some of the candidates.
  pub record IsSelection (candidates todo : List (RankedSeed S)) (s : Selection S) : Type 0 where
    pub nodes_once : IsDistinct (ids s.selected)
    pub deferred_once : IsDistinct (ids s.deferred)
    pub apart : (k : String) → Has k (ids s.selected) → ¬ Has k (ids s.deferred)
    pub known :
        (k : String) → Has k s.seen_nodes ↔ (Has k (ids s.selected) ⊎ Has k (ids s.deferred))
    pub paths_known : (k : String) → Has k s.seen_paths ↔ Has k (paths s.selected)
    pub paths_once : IsDistinct (paths s.selected)
    pub shared : (c : RankedSeed S) → Has c s.deferred → Has (path_of c) (paths s.selected)
    pub selected_among : (c : RankedSeed S) → Has c s.selected → Has c candidates
    pub deferred_among : (c : RankedSeed S) → Has c s.deferred → Has c candidates
    pub covered : (c : RankedSeed S) → Has c candidates → Has c todo ⊎ Has c.node.id s.seen_nodes

  module _ (candidates : List (RankedSeed S)) where
    pub skip-IsSelection :
        (c : RankedSeed S) (todo : List (RankedSeed S)) (s : Selection S)
        → Has c.node.id s.seen_nodes
        → IsSelection candidates (c ∷ todo) s
        → IsSelection candidates todo s
    skip-IsSelection c todo s seen h = record {
      nodes_once = h.nodes_once;
      deferred_once = h.deferred_once;
      apart = h.apart;
      known = h.known;
      paths_known = h.paths_known;
      paths_once = h.paths_once;
      shared = h.shared;
      selected_among = h.selected_among;
      deferred_among = h.deferred_among;
      covered = λ d m. elim (h.covered d m) [
        | inl (inl e) ↦ inr (subst (λ (x : RankedSeed S). Has x.node.id s.seen_nodes) (sym e) seen)
        | inl (inr k) ↦ inl k
        | inr k ↦ inr k
      ];
    }

    pub defer-IsSelection :
        (c : RankedSeed S) (todo : List (RankedSeed S)) (s : Selection S)
        → ¬ Has c.node.id s.seen_nodes
        → Has (path_of c) s.seen_paths
        → Has c candidates
        → IsSelection candidates (c ∷ todo) s
        → IsSelection candidates todo
            (record s { deferred = s.deferred ++ c ∷ []; seen_nodes = c.node.id ∷ s.seen_nodes })
    defer-IsSelection c todo s new seen among h =
        let more = ids-append s.deferred (c ∷ []) in
        let last = λ (k : String). Has-last k c.node.id (ids s.deferred) in
        record {
          nodes_once = h.nodes_once;
          deferred_once = subst IsDistinct (sym more) (
              last-IsDistinct c.node.id (ids s.deferred) (λ m. new ((h.known c.node.id).1 (inr m)))
                h.deferred_once);
          apart = λ k m n. elim ((last k).0 (subst (Has k) more n)) [
            | inl old ↦ h.apart k m old
            | inr e ↦ new ((h.known c.node.id).1 (inl (subst (λ j. Has j (ids s.selected)) e m)))
          ];
          known = λ k. rw more (ground (arith, h.known k, last k));
          paths_known = h.paths_known;
          paths_once = h.paths_once;
          shared = λ d m. elim ((Has-append d s.deferred (c ∷ [])).0 m) [
            | inl old ↦ h.shared d old
            | inr (inl e) ↦
                subst (λ (x : RankedSeed S). Has (path_of x) (paths s.selected)) (sym e)
                  ((h.paths_known (path_of c)).0 seen)
            | inr (inr nothing) ↦ absurd nothing
          ];
          selected_among = h.selected_among;
          deferred_among = λ d m. elim ((Has-append d s.deferred (c ∷ [])).0 m) [
            | inl old ↦ h.deferred_among d old
            | inr (inl e) ↦ subst (λ x. Has x candidates) (sym e) among
            | inr (inr nothing) ↦ absurd nothing
          ];
          covered = λ d m. elim (h.covered d m) [
            | inl (inl e) ↦ inr (inl (ap (λ (x : RankedSeed S). x.node.id) e))
            | inl (inr k) ↦ inl k
            | inr k ↦ inr (inr k)
          ];
        }

    pub choose-IsSelection :
        (c : RankedSeed S) (todo : List (RankedSeed S)) (s : Selection S)
        → ¬ Has c.node.id s.seen_nodes
        → ¬ Has (path_of c) s.seen_paths
        → Has c candidates
        → IsSelection candidates (c ∷ todo) s
        → IsSelection candidates todo (record {
          selected = s.selected ++ c ∷ [];
          deferred = s.deferred;
          seen_nodes = c.node.id ∷ s.seen_nodes;
          seen_paths = path_of c ∷ s.seen_paths;
        })
    choose-IsSelection c todo s new fresh among h =
        let more = ids-append s.selected (c ∷ []) in
        let further = paths-append s.selected (c ∷ []) in
        let last = λ (k : String). Has-last k c.node.id (ids s.selected) in
        let last_path = λ (k : String). Has-last k (path_of c) (paths s.selected) in
        record {
          nodes_once = subst IsDistinct (sym more) (
              last-IsDistinct c.node.id (ids s.selected) (λ m. new ((h.known c.node.id).1 (inl m)))
                h.nodes_once);
          deferred_once = h.deferred_once;
          apart = λ k m n. elim ((last k).0 (subst (Has k) more m)) [
            | inl old ↦ h.apart k old n
            | inr e ↦ new ((h.known c.node.id).1 (inr (subst (λ j. Has j (ids s.deferred)) e n)))
          ];
          known = λ k. rw more (ground (arith, h.known k, last k));
          paths_known = λ k. rw further (ground (arith, h.paths_known k, last_path k));
          paths_once = subst IsDistinct (sym further) (
              last-IsDistinct (path_of c) (paths s.selected)
                (λ m. fresh ((h.paths_known (path_of c)).1 m)) h.paths_once);
          shared = λ d m.
              subst (Has (path_of d)) (sym further)
                ((last_path (path_of d)).1 (inl (h.shared d m)));
          selected_among = λ d m. elim ((Has-append d s.selected (c ∷ [])).0 m) [
            | inl old ↦ h.selected_among d old
            | inr (inl e) ↦ subst (λ x. Has x candidates) (sym e) among
            | inr (inr nothing) ↦ absurd nothing
          ];
          deferred_among = h.deferred_among;
          covered = λ d m. elim (h.covered d m) [
            | inl (inl e) ↦ inr (inl (ap (λ (x : RankedSeed S). x.node.id) e))
            | inl (inr k) ↦ inl k
            | inr k ↦ inr (inr k)
          ];
        }
