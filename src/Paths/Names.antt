-- ===== src/Paths/Names.antt =====
-- The segments of a clean path: first those that go up, and then names.
use agent_wayfinder.Prelude.{
  String, eq_iff, List, [], ◌∷◌, ◌++◌, false, ◌≡◌, ◌≢◌, ◌⊎◌, inl, inr, sym, ◌∙◌, ap, subst, All,
  arith,
}
use mathlib.Core.List.{reverse, reverse-append}
use agent_wayfinder.Paths.{push_segment, clean_stack, clean_segments, split, is_abs}

abbrev pub IsName : String → Type 0
IsName s = (s ≢ "") × (s ≢ ".") × (s ≢ "..")

abbrev pub IsUp : String → Type 0
IsUp s = s ≡ ".."

-- The stack of a relative path, the last segment first: names on segments that go up.
abbrev pub IsStack : List String → Type 0
IsStack [] = Unit
IsStack (s ∷ stack) = IsName s × IsStack stack ⊎ IsUp s × All IsUp stack

ups-IsStack : (stack : List String) → All IsUp stack → IsStack stack
ups-IsStack [] h = tt
ups-IsStack (s ∷ stack) h = inr h

push-IsStack :
    (stack : List String) (s : String) → IsStack stack → IsStack (push_segment false stack s)
unfolding push_segment
push-IsStack [] s h = ground (arith, eq_iff s "", eq_iff s ".", eq_iff s "..")
push-IsStack (t ∷ stack) s (inl h) =
    ground (arith, eq_iff s "", eq_iff s ".", eq_iff s "..", eq_iff t "..")
push-IsStack (t ∷ stack) s (inr h) =
    ground (arith, eq_iff s "", eq_iff s ".", eq_iff s "..", eq_iff t "..", ups-IsStack stack h.1)

clean_stack-IsStack :
    (stack segments : List String) → IsStack stack → IsStack (clean_stack false stack segments)
unfolding clean_stack
clean_stack-IsStack stack [] h = h
clean_stack-IsStack stack (s ∷ segments) h =
    clean_stack-IsStack (push_segment false stack s) segments (push-IsStack stack s h)

-- The first segment goes up.
abbrev pub Climbs : List String → Type 0
Climbs segments = (rest : List String) × (segments ≡ ".." ∷ rest)

reverse-cons : (s : String) (stack : List String) → reverse (s ∷ stack) ≡ reverse stack ++ s ∷ []
reverse-cons s stack = reverse-append (s ∷ []) stack

Climbs-cons :
    (s : String) (stack : List String) → Climbs (reverse stack) → Climbs (reverse (s ∷ stack))
Climbs-cons s stack (rest, e) = (rest ++ s ∷ [], reverse-cons s stack ∙ ap (λ l. l ++ s ∷ []) e)

ups-Climbs :
    (s : String) (stack : List String) → IsUp s → All IsUp stack → Climbs (reverse (s ∷ stack))
ups-Climbs s [] up h = ([], ap (λ t. t ∷ []) up)
ups-Climbs s (t ∷ stack) up h = Climbs-cons s (t ∷ stack) (ups-Climbs t stack h.0 h.1)

stack_cases : (stack : List String) → IsStack stack → All IsName stack ⊎ Climbs (reverse stack)
stack_cases [] h = inl tt
stack_cases (s ∷ stack) (inr h) = inr (ups-Climbs s stack h.0 h.1)
stack_cases (s ∷ stack) (inl h) = elim (stack_cases stack h.1) [
  | inl names ↦ inl (h.0, names)
  | inr climbs ↦ inr (Climbs-cons s stack climbs)
]

pub All-reverse : (stack : List String) → All IsName stack → All IsName (reverse stack)
All-reverse [] h = tt
All-reverse (s ∷ stack) h =
    subst (All IsName) (sym (reverse-cons s stack))
      (snoc (reverse stack) (All-reverse stack h.1) h.0)
  where
    snoc : (l : List String) → All IsName l → IsName s → All IsName (l ++ s ∷ [])
    snoc [] _ n = (n, tt)
    snoc (t ∷ l) h' n = (h'.0, snoc l h'.1 n)

-- A relative path has names only, or its clean form starts by going up.
pub segments_cases :
    (path : String)
    → is_abs path ≡ false
    → All IsName (clean_segments path) ⊎ Climbs (clean_segments path)
unfolding clean_segments
segments_cases path relative =
    subst
      (λ b.
        All IsName (reverse (clean_stack b [] (split path)))
        ⊎ Climbs (reverse (clean_stack b [] (split path))))
      (sym relative)
      (elim (stack_cases (clean_stack false [] (split path))
        (clean_stack-IsStack [] (split path) tt)) [
          | inl names ↦ inl (All-reverse (clean_stack false [] (split path)) names)
          | inr climbs ↦ inr climbs
        ])
