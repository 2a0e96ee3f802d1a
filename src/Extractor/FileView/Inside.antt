-- ===== src/Extractor/FileView/Inside.antt =====
-- A path that `normalizeResolverPath` of extractor/contracts.go returns stays inside the project.
use Prim.Native.String
use agent_wayfinder.Prelude.{
  String, ◌==◌, List, [], ◌∷◌, Bool, true, false, ◌||◌, ◌≡◌, ◌⊎◌, inl, inr, refl, sym, ap, subst,
  All, arith, ok, err, Result, starts_with, starts_with_iff, if◌then◌else◌, Bool-cases, eq_cases,
}
use text.Mathlib.TextLemmas.{append_assoc}
use agent_wayfinder.Paths.{clean, clean_segments, join, is_abs}
use agent_wayfinder.Paths.Rooted.{clean-is_abs}
use agent_wayfinder.Paths.Names.{IsName, Climbs, segments_cases}
use agent_wayfinder.Extractor.Extensions.{Unicode, trim_space}
use agent_wayfinder.Extractor.FileView.{OutsideProject, normalize_resolver_path, outside_project}

-- The text of segments that go up is `..` or starts with `../`.
climbing_join :
    (segments : List String)
    → Climbs segments
    → (join segments ≡ "..") ⊎ (starts_with (join segments) "../" ≡ true)
unfolding join
climbing_join segments (rest, e) =
    subst (λ l. (join l ≡ "..") ⊎ (starts_with (join l) "../" ≡ true)) (sym e) (go rest)
  where
    go : (l : List String) → (join (".." ∷ l) ≡ "..") ⊎ (starts_with (join (".." ∷ l)) "../" ≡ true)
    go [] = inl refl
    go (t ∷ l) = inr (
        (starts_with_iff (join (".." ∷ t ∷ l)) "../").1
          (join (t ∷ l), append_assoc ".." "/" (join (t ∷ l))))

-- So the clean form of a relative path that climbs is refused.
climbing_clean :
    (path : String)
    → is_abs path ≡ false
    → Climbs (clean_segments path)
    → (clean path == ".." || starts_with (clean path) "../") ≡ true
unfolding clean
climbing_clean path relative climbs =
    subst
      (λ b.
        let body = join (clean_segments path) in
        let c = if b then String.◌++◌ "/" body else if body == "" then "." else body in
        (c == ".." || starts_with c "../") ≡ true)
      (sym relative) (go (join (clean_segments path)) (climbing_join (clean_segments path) climbs))
  where
    go :
        (body : String)
        → (body ≡ "..") ⊎ (starts_with body "../" ≡ true)
        → (let c = if body == "" then "." else body in c == ".." || starts_with c "../") ≡ true
    go body (inl e) =
        subst (λ t. (let c = if t == "" then "." else t in c == ".." || starts_with c "../") ≡ true)
          (sym e) refl
    go body (inr h) = elim (eq_cases body "") [
      | inl (_, e) ↦ absurd (cc (ap (λ t. starts_with t "../") e, h))
      | inr (differ, _) ↦ ground (arith, differ, h)
    ]

unless-ok :
    {A : Type 0} (b : Bool) (r : Result OutsideProject A) {a : A}
    → (if b then err outside_project else r) ≡ ok a
    → (b ≡ false) × (r ≡ ok a)
unless-ok true r h = cc h
unless-ok false r h = (refl, h)

split_test : (a b c : Bool) → (a || b || c) ≡ false → (a ≡ false) × ((b || c) ≡ false)
split_test a b c h = ground arith

not_both : {b : Bool} → b ≡ true → ¬ (b ≡ false)
not_both e f = ground (arith, e, f)

ok_injective : {a b : String} → (let r : Result OutsideProject String = ok a in r) ≡ ok b → a ≡ b
ok_injective e = cc e

-- A path that `normalizeResolverPath` returns is the clean form of the trimmed path, which is relative
-- and has only names for its segments: none is `..`.
pub normalize_resolver_path-IsName :
    (unicode : Unicode) (value path : String)
    → normalize_resolver_path unicode value ≡ ok path
    → (path ≡ clean (trim_space unicode value))
      × (is_abs (trim_space unicode value) ≡ false)
      × All IsName (clean_segments (trim_space unicode value))
unfolding normalize_resolver_path
normalize_resolver_path-IsName unicode value path h =
    let trimmed = trim_space unicode value in
    let n = clean trimmed in
    let (_, rest) =
      unless-ok (trimmed == "")
        (if is_abs n || n == ".." || starts_with n "../" then err outside_project else ok n) h in
    let (accepted, same) = unless-ok (is_abs n || n == ".." || starts_with n "../") (ok n) rest in
    let parts = split_test (is_abs n) (n == "..") (starts_with n "../") accepted in
    let relative : is_abs trimmed ≡ false = elim (Bool-cases (is_abs trimmed)) [
      | inl e ↦ absurd (not_both (clean-is_abs trimmed e) parts.0)
      | inr e ↦ e
    ] in
    (
      sym (ok_injective same),
      relative,
      elim (segments_cases trimmed relative) [
        | inl names ↦ names
        | inr climbs ↦ absurd (not_both (climbing_clean trimmed relative climbs) parts.1)
      ],
    )
