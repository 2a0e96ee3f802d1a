-- ===== src/Indexing/Dependencies/Files.antt =====
-- The path of a file's ID, as `withResolvedDependencies` of index/index.go finds it.
use agent_wayfinder.Prelude.{
  String, ◌==◌, eq_iff, List, [], ◌∷◌, ◌++◌, not, ◌&&◌, if◌then◌else◌, some, lookup, insert,
  lookup-insert, All, Any, ◌≡◌, ◌≢◌, ◌↔◌, ◌⊎◌, inl, inr, refl, sym, ◌∙◌, ap, arith, Bool-cases,
}
use agent_wayfinder.Graph.{Node, Edge, Facts}
use agent_wayfinder.Extractor.{Contribution}
use agent_wayfinder.Indexing.Dependencies.{
  PathsById, add_file_nodes, add_contributions, add_facts, paths_by_file_id,
}
use agent_wayfinder.Indexing.Dependencies.Tables.{IsFileEdge}

-- An ID and a path for each node of kind `file`.
abbrev pub files_at : String → List Node → List (String × String)
files_at path [] = []
files_at path (node ∷ nodes) =
    if node.kind == "file" then (node.id, path) ∷ files_at path nodes else files_at path nodes

-- The files of contributions, which have their source paths.
abbrev pub files_of_contributions : List Contribution → List (String × String)
files_of_contributions [] = []
files_of_contributions (c ∷ cs) = files_at c.source_path c.facts.nodes ++ files_of_contributions cs

-- The files of the workspace's facts, which have the paths of their spans, if there are any.
abbrev pub files_of_facts : List Node → List (String × String)
files_of_facts [] = []
files_of_facts (node ∷ nodes) =
    if node.kind == "file" && not (node.evidence.span.path == "")
    then (node.id, node.evidence.span.path) ∷ files_of_facts nodes
    else files_of_facts nodes

-- The last pair of the ID has this path.
abbrev pub IsLastPath : String → String → List (String × String) → Type 0
IsLastPath id path [] = ⊥
IsLastPath id path ((other, found) ∷ files) =
    IsLastPath id path files
    ⊎ (other ≡ id) × (found ≡ path) × All (λ (file : String × String). file.0 ≢ id) files

-- The path of an ID: that of the last file of it, those of the contributions first.
abbrev pub IsPathOf : List Contribution → Facts → String → String → Type 0
IsPathOf contributions facts id path =
    IsLastPath id path (files_of_contributions contributions ++ files_of_facts facts.nodes)

-- An edge from a file of the one path to a file of the other.
abbrev pub IsBetween : List Contribution → Facts → String → String → Edge → Type 0
IsBetween contributions facts source target edge =
    IsPathOf contributions facts edge.source_id source
    × IsPathOf contributions facts edge.target_id target
    × (source ≢ target)

insert_all : PathsById → List (String × String) → PathsById
insert_all table [] = table
insert_all table ((id, path) ∷ files) = insert_all (insert id path table) files

insert_all-append :
    (table : PathsById) (files others : List (String × String))
    → insert_all table (files ++ others) ≡ insert_all (insert_all table files) others
unfolding insert_all
insert_all-append table [] others = refl
insert_all-append table ((id, path) ∷ files) others =
    insert_all-append (insert id path table) files others

add_file_nodes-insert_all :
    (path : String) (table : PathsById) (nodes : List Node)
    → add_file_nodes path table nodes ≡ insert_all table (files_at path nodes)
unfolding insert_all add_file_nodes
add_file_nodes-insert_all path table [] = refl
add_file_nodes-insert_all path table (node ∷ nodes) = elim (Bool-cases (node.kind == "file")) [
  | inl t ↦ rw t (add_file_nodes-insert_all path (insert node.id path table) nodes)
  | inr f ↦ rw f (add_file_nodes-insert_all path table nodes)
]

add_contributions-insert_all :
    (table : PathsById) (contributions : List Contribution)
    → add_contributions table contributions
      ≡ insert_all table (files_of_contributions contributions)
unfolding insert_all add_contributions
add_contributions-insert_all table [] = refl
add_contributions-insert_all table (c ∷ cs) =
    let files = files_at c.source_path c.facts.nodes in
    ap (λ (t : PathsById). add_contributions t cs)
      (add_file_nodes-insert_all c.source_path table c.facts.nodes)
    ∙ add_contributions-insert_all (insert_all table files) cs
    ∙ sym (insert_all-append table files (files_of_contributions cs))

add_facts-insert_all :
    (table : PathsById) (nodes : List Node)
    → add_facts table nodes ≡ insert_all table (files_of_facts nodes)
unfolding insert_all add_facts
add_facts-insert_all table [] = refl
add_facts-insert_all table (node ∷ nodes) =
    let path = node.evidence.span.path in
    elim (Bool-cases (node.kind == "file" && not (path == ""))) [
      | inl t ↦ rw t (add_facts-insert_all (insert node.id path table) nodes)
      | inr f ↦ rw f (add_facts-insert_all table nodes)
    ]

lookup-insert_all :
    (id path : String) (table : PathsById) (files : List (String × String))
    → (lookup id (insert_all table files) ≡ some path) ↔ (
        IsLastPath id path files
        ⊎ All (λ (file : String × String). file.0 ≢ id) files × (lookup id table ≡ some path))
unfolding insert_all
lookup-insert_all id path table [] = ground arith
lookup-insert_all id path table ((other, found) ∷ files) = ground (
  arith,
  eq_iff other id,
  lookup-insert other id found table,
  lookup-insert_all id path (insert other found table) files,
)

pub paths_by_file_id-IsPathOf :
    (contributions : List Contribution) (facts : Facts) (id path : String)
    → (lookup id (paths_by_file_id contributions facts) ≡ some path)
      ↔ IsPathOf contributions facts id path
unfolding paths_by_file_id lookup
paths_by_file_id-IsPathOf contributions facts id path =
    let files = files_of_contributions contributions ++ files_of_facts facts.nodes in
    let same : paths_by_file_id contributions facts ≡ insert_all [] files =
      ap (λ (t : PathsById). add_facts t facts.nodes)
        (add_contributions-insert_all [] contributions)
      ∙ add_facts-insert_all (insert_all [] (files_of_contributions contributions)) facts.nodes
      ∙ sym (
          insert_all-append [] (files_of_contributions contributions)
            (files_of_facts facts.nodes)) in
    rw same (ground (arith, lookup-insert_all id path [] files))

pub IsFileEdge-IsBetween :
    (contributions : List Contribution) (facts : Facts) (source target : String) (edges : List Edge)
    → Any (IsFileEdge (paths_by_file_id contributions facts) source target) edges
      ↔ Any (IsBetween contributions facts source target) edges
IsFileEdge-IsBetween contributions facts source target [] = ground arith
IsFileEdge-IsBetween contributions facts source target (edge ∷ edges) =
    let (to, from) = IsFileEdge-IsBetween contributions facts source target edges in
    let (s, s') = paths_by_file_id-IsPathOf contributions facts edge.source_id source in
    let (t, t') = paths_by_file_id-IsPathOf contributions facts edge.target_id target in
    (
      λ h. elim h [ inl (a, b, d) ↦ inl (s a, t b, d) | inr m ↦ inr (to m) ],
      λ h. elim h [ inl (a, b, d) ↦ inl (s' a, t' b, d) | inr m ↦ inr (from m) ],
    )
