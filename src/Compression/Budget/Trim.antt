-- ===== src/Compression/Budget/Trim.antt =====
-- The loop that drops candidates.
use yuhi.Prelude.{ℕ, ◌-◌, ◌≡◌, refl, Bool, true, false, List, [], ◌∷◌, any, ltb, ◌==◌, arith}
use yuhi.Compression.Budget.{WorkItem, trim}

-- The slot is among those that were dropped.
abbrev pub is_dropped : List ℕ → ℕ → Bool
is_dropped dropped n = any (λ s. s == n) dropped

-- Only the slots of candidates are dropped.
pub dropped_of_trim :
    (budget n : ℕ) (cs : List WorkItem) (prepared : ℕ)
    → any (λ c. c.slot == n) cs ≡ false
    → is_dropped (trim budget cs prepared).0 n ≡ false
unfolding trim any
dropped_of_trim budget n [] prepared h = refl
dropped_of_trim budget n (c ∷ cs) prepared h =
    ground (arith, dropped_of_trim budget n cs (prepared - c.final_tokens))

-- If the loop ends above the budget, it has dropped every candidate.
pub trim_exhausted :
    (budget n : ℕ) (cs : List WorkItem) (prepared : ℕ)
    → ltb budget (trim budget cs prepared).1 ≡ true
    → is_dropped (trim budget cs prepared).0 n ≡ any (λ c. c.slot == n) cs
unfolding trim any
trim_exhausted budget n [] prepared h = refl
trim_exhausted budget n (c ∷ cs) prepared h =
    ground (arith, trim_exhausted budget n cs (prepared - c.final_tokens))
