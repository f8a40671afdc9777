-- ===== src/Compression/Budget/Effort.antt =====
-- What is left when the budget cannot be met.
use yuhi.Prelude.{
  ℕ, ◌≤◌, ◌≡◌, refl, ◌∙◌, ◌⊎◌, inl, inr, true, false, none, some, List, [], ◌∷◌, ltb, arith, All,
  Bool-cases,
}
use yuhi.Prelude.Sort.{total}
use yuhi.Compression.Budget.{
  excluded, BudgetFileInput, BudgetOptions, within_budget, best_effort, RepresentationDecision,
  WorkItem, classify, classify_all, final_of, is_candidate, candidates, trim, drop_item, fit,
  select_representations, summarize, status_of, warning_of,
}
use yuhi.Compression.Budget.Slots.{IsExact, classify_all-IsExact, any-candidates}
use yuhi.Compression.Budget.Trim.{is_dropped, trim_exhausted}
use yuhi.Compression.Budget.Choice.{All-mapped, All-both, decisions-All}

-- A file that the budget may not touch, or that is excluded.
abbrev pub IsSettled : RepresentationDecision → Type 0
IsSettled d = (d.must_keep ≡ true) ⊎ (d.representation ≡ excluded)

classify-IsSettled :
    (threshold slot : ℕ) (f : BudgetFileInput)
    → is_candidate (classify threshold slot f) ≡ false
    → IsSettled (classify threshold slot f).decision
unfolding classify
classify-IsSettled threshold slot f h = ground arith

abbrev SettledUnlessCandidate : WorkItem → Type 0
SettledUnlessCandidate it = is_candidate it ≡ false → IsSettled it.decision

classify_all-IsSettled :
    (threshold : ℕ) (fs : List BudgetFileInput)
    → All SettledUnlessCandidate (classify_all threshold fs)
unfolding classify_all
classify_all-IsSettled threshold [] = tt
classify_all-IsSettled threshold (f ∷ fs) =
    (classify-IsSettled threshold _ f, classify_all-IsSettled threshold fs)

trim-drops :
    (budget prepared : ℕ) (items : List WorkItem) (it : WorkItem)
    → ltb budget (trim budget (candidates items) prepared).1 ≡ true
    → IsExact is_candidate items it
    → is_dropped (trim budget (candidates items) prepared).0 it.slot ≡ is_candidate it
trim-drops budget prepared items it h e =
    trim_exhausted budget it.slot (candidates items) prepared h ∙ any-candidates it.slot items ∙ e

drop_item-IsSettled :
    (budget prepared : ℕ) (items : List WorkItem)
    → ltb budget (trim budget (candidates items) prepared).1 ≡ true
    → (it : WorkItem) → IsExact is_candidate items it
    → SettledUnlessCandidate it
    → IsSettled (drop_item (trim budget (candidates items) prepared).0 it).decision
unfolding drop_item
drop_item-IsSettled budget prepared items h it e k = elim (Bool-cases (is_candidate it)) [
  | inl yes' ↦ rw (trim-drops budget prepared items it h e, yes') (inr refl)
  | inr no' ↦ rw (trim-drops budget prepared items it h e, no') (k no')
]

fit_over :
    (b : ℕ) (items : List WorkItem)
    → ltb b (fit (some b) items).1 ≡ true
    → (ltb b (total final_of items) ≡ true)
      × (ltb b (trim b (candidates items) (total final_of items)).1 ≡ true)
unfolding fit
fit_over b items h = elim (Bool-cases (ltb b (total final_of items))) [
  | inl over ↦ (over, ground arith)
  | inr within ↦ absurd (ground arith)
]

fit-IsSettled :
    (b threshold : ℕ) (files : List BudgetFileInput)
    → ltb b (fit (some b) (classify_all threshold files)).1 ≡ true
    → All (λ it. IsSettled it.decision) (fit (some b) (classify_all threshold files)).0
unfolding fit
fit-IsSettled b threshold files h =
    let items = classify_all threshold files in
    let over = fit_over b items h in
    rw over.0 (
      All-mapped IsSettled _ items (
        All-both _ _ _ items (drop_item-IsSettled b (total final_of items) items over.1)
          (classify_all-IsExact is_candidate threshold files)
          (classify_all-IsSettled threshold files)))

-- Under a budget, either the delivered tokens stay within it, and there is no warning; or they
-- exceed it, and then every file that is not must-keep has been excluded.
pub select_representations-exhausted :
    (files : List BudgetFileInput) (opts : BudgetOptions) (b : ℕ)
    → opts.token_budget ≡ some b
    → let r = select_representations files opts in
      ((r.summary.prepared_tokens ≤ b)
        × (r.summary.status ≡ within_budget)
        × (r.summary.warning ≡ none))
      ⊎ ((r.summary.status ≡ best_effort) × All IsSettled r.decisions)
unfolding select_representations summarize status_of warning_of
select_representations-exhausted files opts b h =
    let threshold = opts.compression_threshold_tokens in
    elim (Bool-cases (ltb b (fit (some b) (classify_all threshold files)).1)) [
      | inl over ↦ inr (
        rw h (ground (arith, over)),
        decisions-All IsSettled files opts (rw h (fit-IsSettled b threshold files over)),
      )
      | inr within ↦ inl (rw h (ground (arith, within)))
    ]
