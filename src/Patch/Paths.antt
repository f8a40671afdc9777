-- ===== src/Patch/Paths.antt =====
-- packages/core/src/patch/apply.ts: which paths of a patch are safe, and where they lead below a root.
use yuhi.Prelude.{
  ℕ, Bool, true, false, not, ◌&&◌, ◌||◌, Option, none, some, List, [], ◌∷◌, ◌++◌, map, any, leb,
  ◌==◌, if◌then◌else◌,
}
use yuhi.Text.{codes, to_lower, same, begins}
use yuhi.Patch.Types.{Relpath}

-- `relpath.replaceAll("\\", "/")`
abbrev slash : ℕ → ℕ
slash c = if c == 92 then b'/' else c

unfoldable pub slashed : Relpath → Relpath
slashed path = map slash path

abbrev pub onto_segment : ℕ → List Relpath → List Relpath
onto_segment c [] = (c ∷ []) ∷ []
onto_segment c (segment ∷ rest) = (c ∷ segment) ∷ rest

-- `slash.split("/")`
unfoldable pub segments : Relpath → List Relpath
segments [] = [] ∷ []
segments (c ∷ path) =
    let rest = segments path in if c == b'/' then [] ∷ rest else onto_segment c rest

abbrev pub is_empty : Relpath → Bool
is_empty [] = true
is_empty _ = false

abbrev is_slash : ℕ → Bool
is_slash c = c == b'/' || c == 92

-- /^(?:[a-z]:[\\/]|\\\\)/i
unfoldable pub absolute_windows : Relpath → Bool
unfolding to_lower
absolute_windows (a ∷ b ∷ []) = a == 92 && b == 92
absolute_windows (a ∷ b ∷ c ∷ path) =
    (leb b'a' (to_lower a) && leb (to_lower a) b'z' && (b == b':') && is_slash c)
    || (a == 92 && b == 92)
absolute_windows _ = false

abbrev control : ℕ → Bool
control c = leb c 31 || c == 127

-- /[. ]$/
unfoldable pub ends_badly : Relpath → Bool
ends_badly [] = false
ends_badly (c ∷ []) = c == b'.' || c == b' '
ends_badly (c ∷ d ∷ rest) = ends_badly (d ∷ rest)

-- (?:\.|$)
abbrev pub ends_word : Relpath → Bool
ends_word [] = true
ends_word (c ∷ rest) = c == b'.'

-- com[1-9] and lpt[1-9], behind their three letters
abbrev pub numbered : Relpath → Bool
numbered [] = false
numbered (d ∷ rest) = leb b'1' d && leb d b'9' && ends_word rest

unfoldable pub reserved_lower : Relpath → Bool
unfolding same
reserved_lower (a ∷ b ∷ c ∷ rest) =
    let word = a ∷ b ∷ c ∷ [] in
    (any (λ name. same word (codes name)) ("con" ∷ "prn" ∷ "aux" ∷ "nul" ∷ []) && ends_word rest)
    || (any (λ name. same word (codes name)) ("com" ∷ "lpt" ∷ []) && numbered rest)
reserved_lower _ = false

-- /^(?:con|prn|aux|nul|com[1-9]|lpt[1-9])(?:\.|$)/i
unfoldable pub windows_reserved : Relpath → Bool
unfolding reserved_lower
windows_reserved segment = reserved_lower (map to_lower segment)

unfoldable pub bad_segment : Relpath → Bool
unfolding same any ends_badly windows_reserved
bad_segment segment =
    is_empty segment
    || same segment (codes ".")
    || same segment (codes "..")
    || any control segment
    || any (λ c. c == b':') segment
    || ends_badly segment
    || windows_reserved segment

abbrev first_segment : List Relpath → Relpath
first_segment [] = []
first_segment (s ∷ ss) = s

abbrev starts_with_slash : Relpath → Bool
starts_with_slash [] = false
starts_with_slash (c ∷ path) = c == b'/'

unfoldable pub safe_relpath : Relpath → Bool
unfolding slashed segments absolute_windows bad_segment same any
safe_relpath relpath =
    let parts = segments (slashed relpath) in
    let first = map to_lower (first_segment parts) in
    not (is_empty relpath || starts_with_slash relpath || absolute_windows relpath)
    && not (any bad_segment parts)
    && not (same first (codes ".git"))
    && not (same first (codes ".yuhi"))

-- A safe path has no `..` and is not absolute, so that it is its own `path.relative`, which must not
-- begin with two dots.
unfoldable pub leads_inside : Relpath → Bool
unfolding safe_relpath slashed begins
leads_inside relpath = safe_relpath relpath && not (begins (slashed relpath) (codes ".."))

-- The place below the root, none where the source throws.
unfoldable pub contained : Relpath → Option Relpath
contained relpath = if leads_inside relpath then some (slashed relpath) else none

-- The directories that lead to a place, from the root down.
unfoldable pub parents_from : Relpath → Relpath → List Relpath
parents_from seen [] = []
parents_from seen (c ∷ path) =
    let rest = parents_from (seen ++ c ∷ []) path in if c == b'/' then seen ∷ rest else rest
