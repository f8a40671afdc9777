-- ===== src/Compression/Budget/Slots.antt =====
-- Slots tell the items of a selection apart.
use yuhi.Prelude.{
  ℕ, ◌<◌, ◌≡◌, refl, ◌∙◌, Bool, false, ◌&&◌, List, [], ◌∷◌, length, any, filter, ◌==◌, arith, All,
}
use yuhi.Prelude.Sort.{insert_sorted, sort}
use yuhi.Compression.Budget.{
  BudgetFileInput, WorkItem, classify, classify_all, dropped_before, candidates, is_candidate,
}

-- Some item of the list that passes a test stands in a slot.
abbrev pub stands : (WorkItem → Bool) → ℕ → List WorkItem → Bool
stands p s items = any (λ it. p it && it.slot == s) items

-- Each item of the list is the one of its slot: a test holds of it exactly when some item that
-- stands there passes it.
abbrev pub IsExact : (WorkItem → Bool) → List WorkItem → WorkItem → Type 0
IsExact p items it = stands p it.slot items ≡ p it

abbrev pub IsBelow : ℕ → WorkItem → Type 0
IsBelow n it = it.slot < n

pub All-map :
    {P Q : WorkItem → Type 0}
    → ((it : WorkItem) → P it → Q it)
    → (items : List WorkItem) → All P items
    → All Q items
All-map f [] h = tt
All-map f (it ∷ items) (h, hs) = (f it h, All-map f items hs)

pub classify-slot :
    (threshold slot : ℕ) (f : BudgetFileInput) → (classify threshold slot f).slot ≡ slot
unfolding classify
classify-slot threshold slot f = ground arith

pub classify_all-IsBelow :
    (threshold : ℕ) (fs : List BudgetFileInput)
    → All (IsBelow (length fs)) (classify_all threshold fs)
unfolding classify_all
classify_all-IsBelow threshold [] = tt
classify_all-IsBelow threshold (f ∷ fs) = (
  omega (arith, classify-slot threshold (length fs) f),
  All-map (λ it h. omega (arith, h)) (classify_all threshold fs)
      (classify_all-IsBelow threshold fs),
)

stands_above :
    (p : WorkItem → Bool) (n : ℕ) (items : List WorkItem)
    → All (IsBelow n) items
    → stands p n items ≡ false
unfolding any
stands_above p n [] h = refl
stands_above p n (it ∷ items) (h, hs) = ground (arith, stands_above p n items hs)

cons-IsExact :
    (p : WorkItem → Bool) (head : WorkItem) (items : List WorkItem)
    → All (IsBelow head.slot) items
    → (it : WorkItem) → (it.slot < head.slot) × IsExact p items it
    → IsExact p (head ∷ items) it
unfolding any
cons-IsExact p head items below it (h, e) = ground arith

All-zip :
    (P Q : WorkItem → Type 0) (items : List WorkItem)
    → All P items
    → All Q items
    → All (λ it. P it × Q it) items
All-zip P Q [] h k = tt
All-zip P Q (it ∷ items) (h, hs) (k, ks) = ((h, k), All-zip P Q items hs ks)

pub classify_all-IsExact :
    (p : WorkItem → Bool) (threshold : ℕ) (fs : List BudgetFileInput)
    → All (IsExact p (classify_all threshold fs)) (classify_all threshold fs)
unfolding classify_all any
classify_all-IsExact p threshold [] = tt
classify_all-IsExact p threshold (f ∷ fs) = (
  ground (
    arith,
    classify-slot threshold (length fs) f,
    stands_above p (length fs) (classify_all threshold fs) (classify_all-IsBelow threshold fs),
  ),
  All-map
      (cons-IsExact p (classify threshold (length fs) f) (classify_all threshold fs)
        (rw (classify-slot threshold (length fs) f) (classify_all-IsBelow threshold fs)))
      (classify_all threshold fs)
      (All-zip _ _ (classify_all threshold fs)
        (rw (classify-slot threshold (length fs) f) (classify_all-IsBelow threshold fs))
        (classify_all-IsExact p threshold fs)),
)

any-insert_sorted :
    (q : WorkItem → Bool) (x : WorkItem) (ys : List WorkItem)
    → any q (insert_sorted dropped_before x ys) ≡ any q (x ∷ ys)
unfolding any insert_sorted
any-insert_sorted q x [] = refl
any-insert_sorted q x (y ∷ ys) = ground (arith, any-insert_sorted q x ys)

any-sort : (q : WorkItem → Bool) (xs : List WorkItem) → any q (sort dropped_before xs) ≡ any q xs
unfolding any sort
any-sort q [] = refl
any-sort q (x ∷ xs) = ground (arith, any-insert_sorted q x (sort dropped_before xs), any-sort q xs)

any-filter :
    (p q : WorkItem → Bool) (xs : List WorkItem) → any q (filter p xs) ≡ any (λ x. p x && q x) xs
unfolding any filter
any-filter p q [] = refl
any-filter p q (x ∷ xs) = ground (arith, any-filter p q xs)

-- The slot of a candidate is that of an item which is one.
pub any-candidates :
    (s : ℕ) (items : List WorkItem)
    → any (λ c. c.slot == s) (candidates items) ≡ stands is_candidate s items
unfolding candidates
any-candidates s items =
    any-sort (λ c. c.slot == s) (filter is_candidate items)
    ∙ any-filter is_candidate (λ c. c.slot == s) items
