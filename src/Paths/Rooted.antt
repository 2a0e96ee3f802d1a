-- ===== src/Paths/Rooted.antt =====
-- The segments of an absolute path are names, and what `Rel` leaves of two paths.
use Prim.Native.String
use Prim.Native.String.append
use agent_wayfinder.Prelude.{
  String, ◌==◌, eq_iff, List, [], ◌∷◌, ◌++◌, true, false, ◌≡◌, inl, inr, refl, sym, ◌∙◌, ap, subst,
  All, arith, if◌then◌else◌, Bool-cases,
}
use mathlib.Core.List.{reverse}
use agent_wayfinder.Paths.{
  push_segment, clean_stack, clean_segments, clean, split, join, is_abs, join_path, strip_common,
}
use agent_wayfinder.Paths.Names.{IsName, All-reverse}

push-names :
    (stack : List String) (s : String) → All IsName stack → All IsName (push_segment true stack s)
unfolding push_segment
push-names [] s h = ground (arith, eq_iff s "", eq_iff s ".", eq_iff s "..")
push-names (t ∷ stack) s h = ground (arith, eq_iff s "", eq_iff s ".", eq_iff s "..", eq_iff t "..")

clean_stack-names :
    (stack segments : List String) → All IsName stack → All IsName (clean_stack true stack segments)
unfolding clean_stack
clean_stack-names stack [] h = h
clean_stack-names stack (s ∷ segments) h =
    clean_stack-names (push_segment true stack s) segments (push-names stack s h)

pub rooted_segments : (path : String) → is_abs path ≡ true → All IsName (clean_segments path)
unfolding clean_segments
rooted_segments path rooted =
    subst (λ b. All IsName (reverse (clean_stack b [] (split path)))) (sym rooted)
      (All-reverse (clean_stack true [] (split path)) (clean_stack-names [] (split path) tt))

-- The clean form of an absolute path is absolute.
pub clean-is_abs : (path : String) → is_abs path ≡ true → is_abs (clean path) ≡ true
unfolding clean is_abs
clean-is_abs path h =
    subst
      (λ b.
        let body = join (clean_segments path) in
        is_abs (if b then String.◌++◌ "/" body else if body == "" then "." else body) ≡ true)
      (sym h) (ap is_abs (append.cons "/" "" (join (clean_segments path))))

is_abs-append : (s t : String) → is_abs s ≡ true → is_abs (String.◌++◌ s t) ≡ true
unfolding is_abs
is_abs-append String.[] t h = cc h
is_abs-append (String.◌∷◌ c s) t h = ap is_abs (append.cons c s t) ∙ h

pub join_path-is_abs : (a b : String) → is_abs a ≡ true → is_abs (join_path a b) ≡ true
unfolding join_path
join_path-is_abs a b h = ground (
  arith,
  eq_iff a "",
  eq_iff b "",
  clean-is_abs a h,
  clean-is_abs (String.◌++◌ a (String.◌++◌ "/" b)) (is_abs-append a (String.◌++◌ "/" b) h),
  empty_relative a h,
)
  where
    empty_relative : (s : String) → is_abs s ≡ true → (s == "") ≡ false
    empty_relative s r = elim (Bool-cases (s == "")) [
      | inl e ↦ absurd (cc (subst (λ t. is_abs t ≡ true) ((eq_iff s "").0 e) r))
      | inr e ↦ e
    ]

-- What is left of the second list is behind the first one, where nothing is left of that.
pub strip_common_append :
    (base targ : List String)
    → (strip_common base targ).0 ≡ []
    → targ ≡ base ++ (strip_common base targ).1
unfolding strip_common
strip_common_append [] targ h = refl
strip_common_append (b ∷ base) [] h = cc h
strip_common_append (b ∷ base) (t ∷ targ) h =
    ground (arith, eq_iff b t, strip_common_append base targ)

pub strip_common-names :
    (base targ : List String)
    → All IsName base
    → All IsName targ
    → All IsName (strip_common base targ).0 × All IsName (strip_common base targ).1
unfolding strip_common
strip_common-names [] targ hb ht = (tt, ht)
strip_common-names (b ∷ base) [] hb ht = (hb, tt)
strip_common-names (b ∷ base) (t ∷ targ) hb ht =
    ground (arith, strip_common-names base targ hb.1 ht.1)
