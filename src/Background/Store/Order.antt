-- ===== src/Background/Store/Order.antt =====
-- The order in which pending items are taken up.
use yuhi.Prelude.{
  ℕ, ◌≤◌, ◌<◌, ◌⊎◌, String, ◌≡◌, Bool, true, false, ◌&&◌, Option, List, [], ◌∷◌, arith, filter, All,
  ◌∙◌, if◌then◌else◌, Bool-cases, inl, inr,
}
use yuhi.Prelude.Sort.{IsSorted, sort-IsSorted, sort-All, total, total-sort, total-filter}
use yuhi.Background.Types.{BackgroundRecord, is_pending}
use yuhi.Background.Store.{BackgroundStateStore, in_run, runs_before, all, pending_records}

runs_before_asym : (a b : BackgroundRecord) → runs_before a b ≡ true → runs_before b a ≡ false
runs_before_asym a b h = ground arith

-- A record that a pass over a run may take up.
abbrev pub is_due : Option String → BackgroundRecord → Bool
is_due run_id r = is_pending r.status && in_run run_id r

filter-All :
    (p : BackgroundRecord → Bool) (xs : List BackgroundRecord) → All (λ r. p r ≡ true) (filter p xs)
unfolding filter
filter-All p [] = tt
filter-All p (x ∷ xs) = elim (Bool-cases (p x)) [
  | inl yes' ↦ rw yes' (yes', filter-All p xs)
  | inr no' ↦ rw no' (filter-All p xs)
]

-- Each record has a higher priority than the next, or the same and is not younger.
abbrev pub IsByPriority : List BackgroundRecord → Type 0
IsByPriority [] = Unit
IsByPriority (a ∷ []) = Unit
IsByPriority (a ∷ b ∷ rest) =
    ((b.item.priority < a.item.priority)
      ⊎ ((a.item.priority ≡ b.item.priority) × (a.item.created_at ≤ b.item.created_at)))
    × IsByPriority (b ∷ rest)

sorted-IsByPriority : (rs : List BackgroundRecord) → IsSorted runs_before rs → IsByPriority rs
sorted-IsByPriority [] h = tt
sorted-IsByPriority (a ∷ []) h = tt
sorted-IsByPriority (a ∷ b ∷ rest) (h, hs) = (ground arith, sorted-IsByPriority (b ∷ rest) hs)

-- The records that are due are listed by priority, the highest first, and by age within one
-- priority; only due records are listed; and each is listed as often as the store holds it, since
-- every weight sums up to the same over the list and over the due records of the store.
pub pending_records-ordered :
    (run_id : Option String) (s : BackgroundStateStore) (weight : BackgroundRecord → ℕ)
    → IsByPriority (pending_records run_id s)
      × All (λ r. is_due run_id r ≡ true) (pending_records run_id s)
      × (total weight (pending_records run_id s)
          ≡ total (λ r. if is_due run_id r then weight r else 0) (all s))
unfolding pending_records
pending_records-ordered run_id s weight = (
  sorted-IsByPriority _
      (sort-IsSorted runs_before runs_before_asym (filter (is_due run_id) (all s))),
  sort-All runs_before (λ r. is_due run_id r ≡ true) (filter (is_due run_id) (all s))
      (filter-All (is_due run_id) (all s)),
  total-sort runs_before weight (filter (is_due run_id) (all s))
      ∙ total-filter (is_due run_id) weight (all s),
)
