-- ===== src/Text.antt =====
-- Texts as lists of code points, for the tests that the source writes as regular expressions. A
-- test with the flag `i` is made on the text in lower case: every letter of the patterns is ASCII.
use Prim.Native.Char.{code}
use yuhi.Prelude.{
  ℕ, ◌+◌, ◌-◌, ◌/◌, ◌%◌, String, ◌+++◌, Bool, true, false, ◌&&◌, ◌||◌, List, [], ◌∷◌, ◌++◌, map,
  ltb, leb, ◌==◌, if◌then◌else◌, ◌≡◌, refl, arith,
}

abbrev pub codes : String → List ℕ
codes String.[] = []
codes (String.◌∷◌ c s) = code c ∷ codes s

unfoldable pub to_lower : ℕ → ℕ
to_lower c = if leb b'A' c && leb c b'Z' then c + 32 else c

unfoldable pub lower : String → List ℕ
unfolding to_lower
lower s = map to_lower (codes s)

unfoldable pub same : List ℕ → List ℕ → Bool
same [] [] = true
same [] (b ∷ bs) = false
same (a ∷ as') [] = false
same (a ∷ as') (b ∷ bs) = a == b && same as' bs

pub eq_of_same : (a b : List ℕ) → same a b ≡ true → a ≡ b
unfolding same
eq_of_same [] [] h = refl
eq_of_same [] (y ∷ b) h = absurd (ground arith)
eq_of_same (x ∷ a) [] h = absurd (ground arith)
eq_of_same (x ∷ a) (y ∷ b) h = ground (arith, eq_of_same a b)

pub same_refl : (a : List ℕ) → same a a ≡ true
unfolding same
same_refl [] = refl
same_refl (x ∷ a) = ground (arith, same_refl a)

unfoldable pub begins : List ℕ → List ℕ → Bool
begins s [] = true
begins [] (b ∷ bs) = false
begins (a ∷ s) (b ∷ bs) = a == b && begins s bs

unfoldable pub contains : List ℕ → List ℕ → Bool
unfolding begins
contains [] t = begins [] t
contains (a ∷ s) t = begins (a ∷ s) t || contains s t

unfoldable pub ends : List ℕ → List ℕ → Bool
unfolding same
ends [] t = same [] t
ends (a ∷ s) t = same (a ∷ s) t || ends s t

-- The part behind the last `/`, all of it if there is none.
unfoldable pub last_segment_from : List ℕ → List ℕ → List ℕ
last_segment_from whole [] = whole
last_segment_from whole (c ∷ s) = last_segment_from (if c == b'/' then s else whole) s

unfoldable pub last_segment : List ℕ → List ℕ
unfolding last_segment_from
last_segment s = last_segment_from s s

-- `ids.join(",")`
unfoldable pub join : List String → String
join [] = ""
join (s ∷ []) = s
join (s ∷ t ∷ rest) = s +++ ("," +++ join (t ∷ rest))

-- The UTF-16 units of a text, by which JavaScript compares texts.
abbrev units_of : ℕ → List ℕ
units_of c =
    if ltb c 65536 then c ∷ [] else (55296 + (c - 65536) / 1024) ∷ (56320 + (c - 65536) % 1024) ∷ []

unfoldable pub units : List ℕ → List ℕ
units [] = []
units (c ∷ cs) = units_of c ++ units cs

unfoldable pub units_before : List ℕ → List ℕ → Bool
units_before _ [] = false
units_before [] (y ∷ ys) = true
units_before (x ∷ xs) (y ∷ ys) = ltb x y || (x == y && units_before xs ys)

-- `a < b` on texts.
unfoldable pub text_before : String → String → Bool
unfolding units units_before
text_before a b = units_before (units (codes a)) (units (codes b))
