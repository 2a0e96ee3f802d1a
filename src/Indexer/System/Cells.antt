-- ===== src/Indexer/System/Cells.antt =====
-- What a workspace has in a state of the indexer: a worker and its call of `publish`, or neither.
use agent_wayfinder.Prelude.{
  String, List, [], ◌∷◌, ◌≡◌, inl, inr, refl, sym, false, Option, none, some, lookup, if_true,
  if_false, Bool-cases, ◌∙◌, ◌==◌, eq_iff, ap, subst, ℕ, zero, suc, if◌then◌else◌,
}
use agent_wayfinder.Indexer.{Worker}
use agent_wayfinder.Indexer.System.{Call, System, call_at, drop_call}
use agent_wayfinder.Indexer.System.Worker.{IsConsistent}

abbrev pub calls_of : String → List Call → List Call
calls_of ws [] = []
calls_of ws (c ∷ calls) =
    let rest = calls_of ws calls in if c.workspace == ws then c ∷ rest else rest

abbrev pub listed : Option Call → List Call
listed none = []
listed (some c) = c ∷ []

abbrev pub paths_of_call : Option Call → Option (List String)
paths_of_call none = none
paths_of_call (some c) = some c.paths

some_call : (d c : Call) → ◌≡◌ {A = Option Call} (some d) (some c) → d ≡ c
some_call d c e = ap (λ (o : Option Call). elim o [ none ↦ d | some x ↦ x ]) e

abbrev rest_of : List Call → List Call
rest_of [] = []
rest_of (c ∷ calls) = calls

first_same : (d x : Call) (calls others : List Call) → (d ∷ calls) ≡ (x ∷ others) → d ≡ x
first_same d x calls others e = ap (λ (l : List Call). elim l [ [] ↦ d | y ∷ ys ↦ y ]) e

-- What a workspace has: a worker that is consistent with its calls of `publish`, of which there is one
-- at most; or no worker and no call.
abbrev pub IsCell : Option Worker → List Call → Type 0
IsCell none calls = calls ≡ []
IsCell (some w) calls =
    (call : Option Call) × (calls ≡ listed call) × IsConsistent w (paths_of_call call)

pub record Inv (s : System) : Type 0 where
  pub cell : (ws : String) → IsCell (lookup ws s.manager.workers) (calls_of ws s.calls)

pub kept-IsCell :
    (w w' : Worker) (calls : List Call)
    → ((call : Option (List String)) → IsConsistent w call → IsConsistent w' call)
    → IsCell (some w) calls
    → IsCell (some w') calls
kept-IsCell w w' calls f (call, e, c) = (call, e, f (paths_of_call call) c)

-- A worker that does not publish has no call.
pub idle_calls :
    (w : Worker) (calls : List Call) → w.publishing ≡ false → IsCell (some w) calls → calls ≡ []
idle_calls w calls idle (none, e, c) = e
idle_calls w calls idle (some x, e, c) = absurd (cc (idle, c.calling))

pub calls_of-here :
    (ws : String) (c : Call) (calls : List Call)
    → c.workspace ≡ ws
    → calls_of ws (c ∷ calls) ≡ c ∷ calls_of ws calls
calls_of-here ws c calls e = if_true (c.workspace == ws) _ _ ((eq_iff c.workspace ws).1 e)

pub calls_of-elsewhere :
    (ws : String) (c : Call) (calls : List Call)
    → (c.workspace == ws) ≡ false
    → calls_of ws (c ∷ calls) ≡ calls_of ws calls
calls_of-elsewhere ws c calls f = if_false (c.workspace == ws) _ _ f

pub calls_of-drop_elsewhere :
    (ws : String) (index : ℕ) (c : Call) (calls : List Call)
    → call_at index calls ≡ some c
    → (c.workspace == ws) ≡ false
    → calls_of ws (drop_call index calls) ≡ calls_of ws calls
calls_of-drop_elsewhere ws index c [] e f = refl
calls_of-drop_elsewhere ws zero c (d ∷ calls) e f = sym (
    calls_of-elsewhere ws d calls
      (subst (λ (x : Call). (x.workspace == ws) ≡ false) (sym (some_call d c e)) f))
calls_of-drop_elsewhere ws (suc index) c (d ∷ calls) e f =
    let rest = calls_of-drop_elsewhere ws index c calls e f in
    ap (λ (l : List Call). if d.workspace == ws then d ∷ l else l) rest

pub call_at-calls_of :
    (index : ℕ) (c : Call) (calls : List Call)
    → call_at index calls ≡ some c
    → calls_of c.workspace calls ≡ []
    → ⊥
call_at-calls_of index c [] e h = cc
call_at-calls_of zero c (d ∷ calls) e h =
    cc (h, calls_of-here c.workspace d calls (ap (λ (x : Call). x.workspace) (some_call d c e)))
call_at-calls_of (suc index) c (d ∷ calls) e h = elim (Bool-cases (d.workspace == c.workspace)) [
  | inl t ↦ cc (h, if_true (d.workspace == c.workspace) (d ∷ calls_of c.workspace calls) _ t)
  | inr f ↦ call_at-calls_of index c calls e (sym (calls_of-elsewhere c.workspace d calls f) ∙ h)
]

-- Without its one call a workspace has none.
pub calls_of-drop_here :
    (index : ℕ) (c x : Call) (calls : List Call)
    → call_at index calls ≡ some c
    → calls_of c.workspace calls ≡ x ∷ []
    → (c ≡ x) × (calls_of c.workspace (drop_call index calls) ≡ [])
calls_of-drop_here index c x [] e h = cc
calls_of-drop_here zero c x (d ∷ calls) e h =
    let here =
      calls_of-here c.workspace d calls (ap (λ (y : Call). y.workspace) (some_call d c e)) in
    let both = sym here ∙ h in (sym (some_call d c e) ∙ first_same d x _ _ both, ap rest_of both)
calls_of-drop_here (suc index) c x (d ∷ calls) e h =
    elim (Bool-cases (d.workspace == c.workspace)) [
      | inl t ↦ absurd (
          call_at-calls_of index c calls e (
            ap rest_of (
              sym (if_true (d.workspace == c.workspace) (d ∷ calls_of c.workspace calls) _ t) ∙ h)))
      | inr f ↦
          let (same, none_left) =
            calls_of-drop_here index c x calls e
              (sym (calls_of-elsewhere c.workspace d calls f) ∙ h) in
          (same, calls_of-elsewhere c.workspace d (drop_call index calls) f ∙ none_left)
    ]
