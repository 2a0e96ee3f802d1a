-- ===== src/Query/Path/Fuel.antt =====
-- The loop over the frontier in query/path.go ends: each node enters the frontier once.
use agent_wayfinder.Prelude.{
  ℕ, suc, String, eq_iff, List, [], ◌∷◌, Bool, true, false, not, ◌||◌, ◌≡◌, ◌≤◌, ◌<◌, ◌+◌, lookup,
  is_found, contains, arith, length, length-append, if◌then◌else◌, if_elim,
}
use agent_wayfinder.Graph.{Edge}
use agent_wayfinder.Query.Path.{NodesById, Search, neighbor_of, discover, discover_all}

-- The entries whose key was not seen.
pub unseen : NodesById → List String → ℕ
unseen [] seen = 0
unseen ((id, node) ∷ table) seen =
    let rest = unseen table seen in if contains seen id then rest else suc rest

pub unseen-length : (table : NodesById) (seen : List String) → unseen table seen ≤ length table
unfolding unseen
unseen-length [] seen = omega arith
unseen-length ((id, node) ∷ table) seen = ground (arith, unseen-length table seen)

unseen-less :
    (table : NodesById) (seen : List String) (n : String)
    → unseen table (n ∷ seen) ≤ unseen table seen
unfolding unseen contains
unseen-less [] seen n = omega arith
unseen-less ((id, node) ∷ table) seen n = ground (arith, unseen-less table seen n)

unseen-found :
    (table : NodesById) (seen : List String) (n : String)
    → is_found (lookup n table) ≡ true
    → contains seen n ≡ false
    → unseen table (n ∷ seen) < unseen table seen
unfolding unseen contains lookup
unseen-found [] seen n h new = ground arith
unseen-found ((id, node) ∷ table) seen n h new =
    grind (arith, eq_iff id n, eq_iff n id, unseen-less table seen n, unseen-found table seen n)

abbrev pub measure : NodesById → Search → ℕ
measure nodes s = length s.frontier + unseen nodes s.seen

discover-measure :
    (u : Bool) (nodes : NodesById) (id : String) (edge : Edge) (s : Search)
    → measure nodes (discover u nodes id edge s) ≤ measure nodes s
unfolding discover
discover-measure u nodes id edge s =
    let n = neighbor_of u id edge in
    if_elim (λ (r : Search). measure nodes r ≤ measure nodes s)
      (not (is_found (lookup n nodes)) || contains s.seen n) (λ old. omega arith)
      (λ new. ground (arith, new, unseen-found nodes s.seen n, length-append s.frontier (n ∷ [])))

pub discover_all-measure :
    (u : Bool) (nodes : NodesById) (id : String) (edges : List Edge) (s : Search)
    → measure nodes (discover_all u nodes id edges s) ≤ measure nodes s
unfolding discover_all
discover_all-measure u nodes id [] s = omega arith
discover_all-measure u nodes id (edge ∷ edges) s = omega (
  arith,
  discover-measure u nodes id edge s,
  discover_all-measure u nodes id edges (discover u nodes id edge s),
)
