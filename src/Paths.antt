-- ===== src/Paths.antt =====
-- The functions of Go's `path` and `path/filepath` that the program calls, on a system whose
-- separator is a slash. A path is cut into its segments at the slashes.
pub mod Names
pub mod Rooted
use Prim.Native.Char.{Char, code}
use Prim.Native.String
use agent_wayfinder.Prelude.{
  String, List, [], ◌∷◌, ◌++◌, Bool, false, not, ◌&&◌, ◌||◌, ◌==◌, nat_eq, if◌then◌else◌, Result,
  ok, err,
}
use mathlib.Core.List.{reverse}

abbrev pub is_slash : Char → Bool
is_slash c = nat_eq (code c) 47

-- A character in front of the first segment.
abbrev pub cons_first : Char → List String → List String
cons_first c [] = String.◌∷◌ c "" ∷ []
cons_first c (s ∷ segments) = String.◌∷◌ c s ∷ segments

unfoldable pub split : String → List String
split String.[] = "" ∷ []
split (String.◌∷◌ c s) = let rest = split s in if is_slash c then "" ∷ rest else cons_first c rest

unfoldable pub join : List String → String
join [] = ""
join (s ∷ []) = s
join (s ∷ t ∷ segments) = String.◌++◌ s (String.◌++◌ "/" (join (t ∷ segments)))

-- `filepath.IsAbs`
unfoldable pub is_abs : String → Bool
is_abs String.[] = false
is_abs (String.◌∷◌ c s) = is_slash c

abbrev pub is_up : String → Bool
is_up s = s == ".."

-- One segment of `Clean` on the stack of names, the last one first: an empty one and `.` are
-- skipped; `..` takes a name back, is dropped at the root, and stays where there is none.
unfoldable pub push_segment : Bool → List String → String → List String
push_segment rooted [] s =
    if s == "" || s == "." then [] else if is_up s then (if rooted then [] else s ∷ []) else s ∷ []
push_segment rooted (t ∷ stack) s =
    if s == "" || s == "."
    then t ∷ stack
    else if is_up s
    then (if is_up t then s ∷ t ∷ stack else stack)
    else s ∷ t ∷ stack

unfoldable pub clean_stack : Bool → List String → List String → List String
unfolding push_segment
clean_stack rooted stack [] = stack
clean_stack rooted stack (s ∷ segments) = clean_stack rooted (push_segment rooted stack s) segments

unfoldable pub clean_segments : String → List String
unfolding clean_stack split is_abs
clean_segments path = reverse (clean_stack (is_abs path) [] (split path))

-- `path.Clean` and `filepath.Clean`
unfoldable pub clean : String → String
unfolding clean_segments join
clean path =
    let body = join (clean_segments path) in
    if is_abs path then String.◌++◌ "/" body else if body == "" then "." else body

-- `filepath.Join` of two elements, which skips empty ones.
unfoldable pub join_path : String → String → String
unfolding clean
join_path a b =
    if a == ""
    then (if b == "" then "" else clean b)
    else if b == ""
    then clean a
    else clean (String.◌++◌ a (String.◌++◌ "/" b))

abbrev pub is_dot : Char → Bool
is_dot c = nat_eq (code c) 46

unfoldable pub has_dot_or_slash : String → Bool
has_dot_or_slash String.[] = false
has_dot_or_slash (String.◌∷◌ c s) = is_dot c || is_slash c || has_dot_or_slash s

-- `filepath.Ext`: from the last dot of the last element on.
unfoldable pub ext : String → String
unfolding has_dot_or_slash
ext String.[] = ""
ext (String.◌∷◌ c s) =
    let rest = ext s in if is_dot c && not (has_dot_or_slash s) then String.◌∷◌ c s else rest

-- What is left of two lists of segments behind their common beginning.
unfoldable pub strip_common : List String → List String → List String × List String
strip_common [] targ = ([], targ)
strip_common (b ∷ base) [] = (b ∷ base, [])
strip_common (b ∷ base) (t ∷ targ) =
    let rest = strip_common base targ in if b == t then rest else (b ∷ base, t ∷ targ)

abbrev pub ups : List String → List String
ups [] = []
ups (b ∷ base) = ".." ∷ ups base

-- `filepath.Rel`, its message left out.
abbrev pub climb : List String → List String → Result (Unit {0}) String
climb [] targ = ok (join targ)
climb (b ∷ base) targ = if is_up b then err tt else ok (join (ups (b ∷ base) ++ targ))

unfoldable pub rel : String → String → Result (Unit {0}) String
unfolding clean strip_common
rel base targ =
    if clean base == clean targ
    then ok "."
    else if is_abs base && not (is_abs targ) || not (is_abs base) && is_abs targ
    then err tt
    else let (b, t) = strip_common (clean_segments base) (clean_segments targ) in climb b t
