-- ===== src/Catalog/Requests/Exact.antt =====
-- Which requests for embeddings index/catalog.go makes.
use agent_wayfinder.Prelude.{
  String, eq_iff, List, [], ◌∷◌, contains_iff, Has, Has-append, Any, All, ◌≡◌, ◌≢◌, ◌↔◌, ◌⊎◌, inl,
  inr, refl, sym, ◌∙◌, ap, arith, false,
}
use agent_wayfinder.Indexing.Groups.{group_key, cut_key}
use agent_wayfinder.Indexing.Groups.Keys.{has_nul, cut_key-group_key}
use agent_wayfinder.Catalog.{
  CatalogEntry, CatalogEmbedding, catalog_embedding_deterministic, catalog_embedding_copilot,
  catalog_embedding_ollama, catalog_embedding_claude,
}
use agent_wayfinder.Catalog.Requests.{
  EmbeddingRequest, embedding_key, append_missing, append_given, request_of, append_entry,
  append_entries, stored_request, stored_keys,
}

-- A request for a synopsis of an entry: the deterministic one, or one of a model that is not empty.
abbrev pub IsSynopsisOf : EmbeddingRequest → CatalogEntry → Type 0
IsSynopsisOf r entry =
    (r ≡ request_of entry catalog_embedding_deterministic entry.deterministic_synopsis)
    ⊎ (r ≡ request_of entry catalog_embedding_copilot entry.copilot_synopsis)
      × (entry.copilot_synopsis ≢ "")
    ⊎ (r ≡ request_of entry catalog_embedding_ollama entry.ollama_synopsis)
      × (entry.ollama_synopsis ≢ "")
    ⊎ (r ≡ request_of entry catalog_embedding_claude entry.claude_synopsis)
      × (entry.claude_synopsis ≢ "")

Has-append_missing :
    (r q : EmbeddingRequest) (requests : List EmbeddingRequest) (stored : List String)
    → Has r (append_missing requests stored q)
      ↔ (Has r requests ⊎ (r ≡ q) × (¬ Has (embedding_key r) stored))
unfolding append_missing
Has-append_missing r q requests stored = ground (
  arith,
  Has-append r requests (q ∷ []),
  contains_iff stored (embedding_key q),
  λ (e : r ≡ q). ap (λ (x : EmbeddingRequest). embedding_key x) e,
)

Has-append_given :
    (r q : EmbeddingRequest) (requests : List EmbeddingRequest) (stored : List String)
    → Has r (append_given requests stored q)
      ↔ (Has r requests ⊎ ((r ≡ q) × (q.text ≢ "")) × (¬ Has (embedding_key r) stored))
Has-append_given r q requests stored =
    ground (arith, eq_iff q.text "", Has-append_missing r q requests stored)

Has-append_entry :
    (r : EmbeddingRequest) (entry : CatalogEntry) (requests : List EmbeddingRequest)
    (stored : List String)
    → Has r (append_entry stored requests entry)
      ↔ (Has r requests ⊎ IsSynopsisOf r entry × (¬ Has (embedding_key r) stored))
unfolding append_entry
Has-append_entry r entry requests stored =
    let det = request_of entry catalog_embedding_deterministic entry.deterministic_synopsis in
    let copilot = request_of entry catalog_embedding_copilot entry.copilot_synopsis in
    let ollama = request_of entry catalog_embedding_ollama entry.ollama_synopsis in
    let claude = request_of entry catalog_embedding_claude entry.claude_synopsis in
    let first = append_missing requests stored det in
    let second = append_given first stored copilot in
    let third = append_given second stored ollama in
    let a = Has-append_missing r det requests stored in
    let b = Has-append_given r copilot first stored in
    let c = Has-append_given r ollama second stored in
    let d = Has-append_given r claude third stored in ground (arith, a, b, c, d)

Has-append_entries :
    (r : EmbeddingRequest) (entries : List CatalogEntry) (requests : List EmbeddingRequest)
    (stored : List String)
    → Has r (append_entries stored requests entries)
      ↔ (Has r requests ⊎ Any (IsSynopsisOf r) entries × (¬ Has (embedding_key r) stored))
unfolding append_entries
Has-append_entries r [] requests stored = ground arith
Has-append_entries r (entry ∷ entries) requests stored =
    let a = Has-append_entry r entry requests stored in
    let b = Has-append_entries r entries (append_entry stored requests entry) stored in
    ground (arith, a, b)

-- A request whose source and node have no NUL.
abbrev pub IsPlain : EmbeddingRequest → Type 0
IsPlain r = (has_nul r.source ≡ false) × (has_nul r.node_id ≡ false)

embedding_key-group_key :
    (r : EmbeddingRequest) → embedding_key r ≡ group_key r.source (group_key r.node_id r.text)
unfolding embedding_key group_key
embedding_key-group_key r = refl

same_parts :
    (r q : EmbeddingRequest) → r.node_id ≡ q.node_id → r.source ≡ q.source → r.text ≡ q.text → r ≡ q
same_parts r q a b c = λ i. record { node_id = a i; source = b i; text = c i }

-- The key of a request tells what it is.
same_key :
    (r q : EmbeddingRequest) → IsPlain r → IsPlain q → embedding_key r ≡ embedding_key q → r ≡ q
same_key r q h k e =
    let outer =
      sym (cut_key-group_key r.source (group_key r.node_id r.text) h.0)
      ∙ ap (λ (s : String). cut_key s)
          (sym (embedding_key-group_key r) ∙ e ∙ embedding_key-group_key q)
      ∙ cut_key-group_key q.source (group_key q.node_id q.text) k.0 in
    let inner =
      sym (cut_key-group_key r.node_id r.text h.1)
      ∙ ap (λ (p : String × String). cut_key p.1) outer
      ∙ cut_key-group_key q.node_id q.text k.1 in
    same_parts r q (ap (λ (p : String × String). p.0) inner)
      (ap (λ (p : String × String). p.0) outer) (ap (λ (p : String × String). p.1) inner)

request_of-IsPlain :
    (r : EmbeddingRequest) (entry : CatalogEntry) (source text : String)
    → has_nul entry.node_id ≡ false
    → has_nul source ≡ false
    → r ≡ request_of entry source text
    → IsPlain r
request_of-IsPlain r entry source text h k e = (
  ap (λ (x : EmbeddingRequest). has_nul x.source) e ∙ k,
  ap (λ (x : EmbeddingRequest). has_nul x.node_id) e ∙ h,
)

IsSynopsisOf-IsPlain :
    (r : EmbeddingRequest) (entry : CatalogEntry)
    → has_nul entry.node_id ≡ false
    → IsSynopsisOf r entry
    → IsPlain r
unfolding has_nul
IsSynopsisOf-IsPlain r entry h (inl e) = request_of-IsPlain r entry _ _ h refl e
IsSynopsisOf-IsPlain r entry h (inr (inl (e, _))) = request_of-IsPlain r entry _ _ h refl e
IsSynopsisOf-IsPlain r entry h (inr (inr (inl (e, _)))) = request_of-IsPlain r entry _ _ h refl e
IsSynopsisOf-IsPlain r entry h (inr (inr (inr (e, _)))) = request_of-IsPlain r entry _ _ h refl e

Any-IsPlain :
    (r : EmbeddingRequest) (entries : List CatalogEntry)
    → All (λ (entry : CatalogEntry). has_nul entry.node_id ≡ false) entries
    → Any (IsSynopsisOf r) entries
    → IsPlain r
Any-IsPlain r [] all h = absurd h
Any-IsPlain r (entry ∷ entries) all (inl h) = IsSynopsisOf-IsPlain r entry all.0 h
Any-IsPlain r (entry ∷ entries) all (inr h) = Any-IsPlain r entries all.1 h

module _ {F : Type 0} where
  abbrev pub AllPlain : List (CatalogEmbedding F) → Type 0
  AllPlain existing = All (λ (e : CatalogEmbedding F). IsPlain (stored_request e)) existing

  abbrev pub IsStored : EmbeddingRequest → List (CatalogEmbedding F) → Type 0
  IsStored r existing = Any (λ (e : CatalogEmbedding F). r ≡ stored_request e) existing

  Has-stored_keys :
      (r : EmbeddingRequest) (existing : List (CatalogEmbedding F))
      → IsPlain r
      → AllPlain existing
      → Has (embedding_key r) (stored_keys existing) ↔ IsStored r existing
  Has-stored_keys r [] h all = (λ m. m, λ m. m)
  Has-stored_keys r (e ∷ existing) h all = ground (
    arith,
    same_key r (stored_request e) h all.0,
    λ (s : r ≡ stored_request e). ap (λ (x : EmbeddingRequest). embedding_key x) s,
    Has-stored_keys r existing h all.1,
  )

  -- A request is made exactly for the synopses that are not stored.
  pub append_entries_iff :
      (r : EmbeddingRequest) (entries : List CatalogEntry) (existing : List (CatalogEmbedding F))
      → All (λ (entry : CatalogEntry). has_nul entry.node_id ≡ false) entries
      → AllPlain existing
      → Has r (append_entries (stored_keys existing) [] entries)
        ↔ (Any (IsSynopsisOf r) entries × (¬ IsStored r existing))
  append_entries_iff r entries existing plain all =
      let asked = Has-append_entries r entries [] (stored_keys existing) in
      let known = λ (h : Any (IsSynopsisOf r) entries).
        Has-stored_keys r existing (Any-IsPlain r entries plain h) all in
      (
        λ m. elim (asked.0 m) [
          | inl nothing ↦ absurd nothing
          | inr (h, new) ↦ (h, λ s. new ((known h).1 s))
        ],
        λ (h, new). asked.1 (inr (h, λ m. new ((known h).0 m))),
      )
