-- ===== src/Patch/Hunks/Lines.antt =====
-- Splitting a text into lines, and comparing lines.
use yuhi.Prelude.{ℕ, ◌≡◌, refl, ap, ◌∙◌, true, List, [], ◌∷◌, ◌==◌, arith, inl, inr, Bool-cases}
use yuhi.Text.{eq_of_same}
use yuhi.Patch.Hunks.{Line, onto_first, lines, join_lines, same_lines}

lines_cons : (text : List ℕ) → (first : Line) × (rest : List Line) × (lines text ≡ first ∷ rest)
unfolding lines
lines_cons [] = ([], [], refl)
lines_cons (c ∷ text) =
    let (first, rest, e) = lines_cons text in
    elim (Bool-cases (c == b'\n')) [
      | inl end ↦ ([], lines text, rw end)
      | inr inside ↦ (c ∷ first, rest, rw (inside, e))
    ]

join_lines-onto_first :
    (c : ℕ) (first : Line) (rest : List Line)
    → join_lines (onto_first c (first ∷ rest)) ≡ c ∷ join_lines (first ∷ rest)
unfolding join_lines
join_lines-onto_first c first [] = refl
join_lines-onto_first c first (next ∷ rest) = refl

join_lines-skip :
    (first : Line) (rest : List Line)
    → join_lines ([] ∷ first ∷ rest) ≡ b'\n' ∷ join_lines (first ∷ rest)
unfolding join_lines
join_lines-skip first rest = refl

-- Joining the lines of a text gives the text.
pub join_lines-lines : (text : List ℕ) → join_lines (lines text) ≡ text
unfolding lines
join_lines-lines [] = unfold join_lines in refl
join_lines-lines (c ∷ text) =
    let (first, rest, e) = lines_cons text in
    let ih : join_lines (first ∷ rest) ≡ text = rw (← e) (join_lines-lines text) in
    elim (Bool-cases (c == b'\n')) [
      | inl end ↦ rw (end, e) (ground (arith, join_lines-skip first rest, ih, end))
      | inr inside ↦ rw (inside, e) (join_lines-onto_first c first rest ∙ ap (λ t. c ∷ t) ih)
    ]

pub eq_of_same_lines : (a b : List Line) → same_lines a b ≡ true → a ≡ b
unfolding same_lines
eq_of_same_lines [] [] h = refl
eq_of_same_lines [] (y ∷ b) h = absurd (ground arith)
eq_of_same_lines (x ∷ a) [] h = absurd (ground arith)
eq_of_same_lines (x ∷ a) (y ∷ b) h = ground (arith, eq_of_same x y, eq_of_same_lines a b)
