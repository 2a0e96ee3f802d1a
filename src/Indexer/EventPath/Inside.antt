-- ===== src/Indexer/EventPath/Inside.antt =====
-- A path that `normalizeEventPath` of indexer/queue.go returns lies below the workspace.
use Prim.Native.String
use Prim.Native.String.{len}
use Prim.Native.String.len as len_laws
use text.Mathlib.TextPositions.{len-append, len_utf8-pos}
use text.Mathlib.TextLemmas.{append_assoc}
use agent_wayfinder.Prelude.{
  String, ◌==◌, List, [], ◌∷◌, ◌++◌, Bool, true, false, not, ◌&&◌, ◌||◌, ◌≡◌, ◌≢◌, ◌⊎◌, ◌<◌, inl,
  inr, refl, sym, ap, subst, All, arith, if◌then◌else◌, Bool-cases, Result, ok, err,
  starts_with_iff,
}
use agent_wayfinder.Paths.{
  clean, clean_segments, join, is_abs, is_up, join_path, rel, climb, ups, strip_common,
}
use agent_wayfinder.Paths.Names.{IsName}
use agent_wayfinder.Paths.Rooted.{
  rooted_segments, clean-is_abs, join_path-is_abs, strip_common_append, strip_common-names,
}
use agent_wayfinder.Indexer.EventPath.{
  is_parent_path, check_relative, normalize_event_path, outside_workspace, event_path_required,
}

len_pos : (s : String) → s ≢ "" → 0 < len s
len_pos String.[] h = absurd (h refl)
len_pos (String.◌∷◌ c s) h = let (k, e) = len_utf8-pos c in omega (arith, len_laws.cons c s, e)

join_pos : (s : String) (l : List String) → s ≢ "" → 0 < len (join (s ∷ l))
unfolding join
join_pos s [] h = len_pos s h
join_pos s (t ∷ l) h = omega (arith, len_pos s h, len-append s (String.◌++◌ "/" (join (t ∷ l))))

-- A relative path that goes up is refused.
climbing_refused :
    (l : List String)
    → All (λ s. s ≢ "") l
    → (join (".." ∷ l) == ".." || is_parent_path (join (".." ∷ l))) ≡ true
unfolding join is_parent_path
climbing_refused [] h = refl
climbing_refused (s ∷ l) h =
    let prefixed =
      (starts_with_iff (join (".." ∷ s ∷ l)) "../").1
        (join (s ∷ l), append_assoc ".." "/" (join (s ∷ l))) in
    let longer = len-append "../" (join (s ∷ l)) in
    ground
      (arith, prefixed, longer, ap len (append_assoc ".." "/" (join (s ∷ l))), join_pos s l h.0)

filled_ups : (base targ : List String) → All IsName targ → All (λ s. s ≢ "") (ups base ++ targ)
filled_ups [] [] h = tt
filled_ups [] (t ∷ targ) h = (h.0.0, filled_ups [] targ h.1)
filled_ups (b ∷ base) targ h = (λ e. cc e, filled_ups base targ h)

-- The path that an event means: below the workspace, if it is relative.
abbrev pub full_path : String → String → String
full_path workspace path = clean (if not (is_abs path) then join_path workspace path else path)

pub full_path-is_abs :
    (workspace path : String) → is_abs workspace ≡ true → is_abs (full_path workspace path) ≡ true
full_path-is_abs workspace path h = elim (Bool-cases (is_abs path)) [
  | inl e ↦
      subst (λ b. is_abs (clean (if not b then join_path workspace path else path)) ≡ true) (sym e)
        (clean-is_abs path e)
  | inr e ↦
      subst (λ b. is_abs (clean (if not b then join_path workspace path else path)) ≡ true) (sym e)
        (clean-is_abs (join_path workspace path) (join_path-is_abs workspace path h))
]

-- The test of `normalizeEventPath` on the relative path.
abbrev pub is_refused : String → Bool
is_refused relative =
    relative == "." || relative == ".." || is_abs relative || is_parent_path relative

pub accept :
    {E A : Type 0} (b : Bool) (x : E) (a p : A)
    → (if b then err x else ok a) ≡ ok p
    → (b ≡ false) × (a ≡ p)
accept true x a p h = cc h
accept false x a p h = (refl, cc h)

check_relative-eq-ok :
    (path : String) (r : Result (Unit {0}) String) (p : String)
    → check_relative path r ≡ ok p
    → (r ≡ ok p) × (is_refused p ≡ false)
unfolding check_relative
check_relative-eq-ok path (err e) p h = cc h
check_relative-eq-ok path (ok relative) p h =
    let (passed, same) = accept (is_refused relative) (outside_workspace path) relative p h in
    (ap (λ t. ok t) same, subst (λ t. is_refused t ≡ false) same passed)

climb_below :
    (base targ : List String) (p : String)
    → All IsName targ
    → climb base targ ≡ ok p
    → is_refused p ≡ false
    → (base ≡ []) × (p ≡ join targ)
climb_below [] targ p names h accepted = (refl, sym (accept false tt (join targ) p h).1)
climb_below (b ∷ base) targ p names h accepted =
    let (_, same) = accept (is_up b) tt (join (".." ∷ ups base ++ targ)) p h in
    let up = climbing_refused (ups base ++ targ) (filled_ups base targ names) in
    absurd (refused_again p (subst (λ t. (t == ".." || is_parent_path t) ≡ true) same up) accepted)
  where
    refused_again : (t : String) → (t == ".." || is_parent_path t) ≡ true → ¬ (is_refused t ≡ false)
    refused_again t up passed = ground (arith, up, passed)

rel_cases :
    (same mixed : Bool) (r : Result (Unit {0}) String) (p : String)
    → mixed ≡ false
    → (if same then ok "." else if mixed then err tt else r) ≡ ok p
    → (p ≡ ".") ⊎ (r ≡ ok p)
rel_cases true mixed r p m h = inl (sym (accept false tt "." p h).1)
rel_cases false true r p m h = cc m
rel_cases false false r p m h = inr h

pub unless-ok :
    {E A : Type 0} (b : Bool) (x : E) (r : Result E A) (p : A)
    → (if b then err x else r) ≡ ok p
    → r ≡ ok p
unless-ok true x r p h = cc h
unless-ok false x r p h = h

-- What `Rel` answers for two absolute paths.
pub rel_below :
    (workspace path p : String)
    → is_abs workspace ≡ true
    → is_abs path ≡ true
    → rel workspace path ≡ ok p
    → is_refused p ≡ false
    → (names : List String) × (clean_segments path ≡ clean_segments workspace ++ names)
      × All IsName names
      × (p ≡ join names)
unfolding rel
rel_below workspace path p rooted rooted' h accepted =
    let base = clean_segments workspace in
    let targ = clean_segments path in
    let split = strip_common base targ in
    let names =
      strip_common-names base targ (rooted_segments workspace rooted)
        (rooted_segments path rooted') in
    elim (rel_cases (clean workspace == clean path)
      (is_abs workspace && not (is_abs path) || not (is_abs workspace) && is_abs path)
      (climb split.0 split.1) p (ground (arith, rooted, rooted')) h) [
        | inl e ↦ absurd (cc (subst (λ t. is_refused t ≡ false) e accepted))
        | inr climbed ↦
            let (done, same) = climb_below split.0 split.1 p names.1 climbed accepted in
            (split.1, strip_common_append base targ done, names.1, same)
      ]

-- For an absolute workspace, a path that `normalizeEventPath` returns is made of names, and the
-- segments of the path that was meant are those of the workspace followed by these names.
pub normalize_event_path-IsName :
    (workspace path p : String)
    → is_abs workspace ≡ true
    → normalize_event_path workspace path ≡ ok p
    → (names : List String) × (clean_segments (full_path workspace path)
        ≡ clean_segments workspace ++ names)
      × All IsName names
      × (p ≡ join names)
unfolding normalize_event_path
normalize_event_path-IsName workspace path p rooted h =
    let full = full_path workspace path in
    let (related, accepted) =
      check_relative-eq-ok full (rel workspace full) p (
        unless-ok (path == "") event_path_required (check_relative full (rel workspace full)) p
          h) in
    rel_below workspace full p rooted (full_path-is_abs workspace path rooted) related accepted
