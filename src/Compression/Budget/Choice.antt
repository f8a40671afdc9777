-- ===== src/Compression/Budget/Choice.antt =====
-- Which files the budget excludes.
use yuhi.Prelude.{
  ap, refl, String, Bool, not, ◌&&◌, ◌||◌, ◌≢◌, ◌⊎◌, length, leb, ℕ, ◌≡◌, ◌∙◌, inl, inr, true,
  false, Option, none, some, List, [], ◌∷◌, map, ltb, arith, All, Bool-cases,
}
use yuhi.Prelude.Sort.{sort-All, total, total-sort, total-map}
use yuhi.Compression.Budget.{
  full, BudgetFileInput, BudgetOptions, RepresentationDecision, WorkItem, classify, classify_all,
  final_of, is_candidate, candidates, trim, drop_item, fit, listed_before, select_representations,
}
use yuhi.Compression.Budget.Slots.{IsExact, All-map, classify_all-IsExact, any-candidates}
use yuhi.Compression.Budget.Trim.{is_dropped, dropped_of_trim}

-- What protects a file that upstream did not exclude: the user, its role, or its size.
abbrev pub is_protected : ℕ → BudgetFileInput → Bool
is_protected threshold f =
    not f.already_excluded
    && (f.user_included
        || f.open_or_specified
        || f.entry_point
        || f.package_manifest
        || f.config_file
        || f.agent_instruction
        || f.important_test_fixture
        || f.parse_failed
        || leb f.full_tokens threshold)

-- The file is protected, or stands at another path.
abbrev pub IsProtectedAt : String → ℕ → BudgetFileInput → Type 0
IsProtectedAt p threshold f = (f.relpath ≢ p) ⊎ (is_protected threshold f ≡ true)

-- The decision delivers the whole file, or is on another path.
abbrev pub IsWholeAt : String → RepresentationDecision → Type 0
IsWholeAt p d = (d.relpath ≢ p) ⊎ ((d.representation ≡ full) × (d.final_tokens ≡ d.full_tokens))

-- The item is of another path, or is a must-keep item that is delivered whole.
abbrev Kept : String → WorkItem → Type 0
Kept p it =
    (it.relpath ≢ p)
    ⊎ ((it.must_keep ≡ true) × (it.representation ≡ full) × (it.final_tokens ≡ it.full_tokens))

classify-relpath :
    (threshold slot : ℕ) (f : BudgetFileInput) → (classify threshold slot f).relpath ≡ f.relpath
unfolding classify
classify-relpath threshold slot f = ground arith

classify-is_protected :
    (threshold slot : ℕ) (f : BudgetFileInput)
    → is_protected threshold f ≡ true
    → ((classify threshold slot f).must_keep ≡ true)
      × ((classify threshold slot f).representation ≡ full)
      × ((classify threshold slot f).final_tokens ≡ (classify threshold slot f).full_tokens)
unfolding classify
classify-is_protected threshold slot f h = ground arith

classify-Kept :
    (p : String) (threshold slot : ℕ) (f : BudgetFileInput)
    → IsProtectedAt p threshold f
    → Kept p (classify threshold slot f)
classify-Kept p threshold slot f h = elim h [
  | inl other ↦ inl (rw (classify-relpath threshold slot f) other)
  | inr safe ↦ inr (classify-is_protected threshold slot f safe)
]

classify_all-Kept :
    (p : String) (threshold : ℕ) (fs : List BudgetFileInput)
    → All (IsProtectedAt p threshold) fs
    → All (Kept p) (classify_all threshold fs)
unfolding classify_all
classify_all-Kept p threshold [] h = tt
classify_all-Kept p threshold (f ∷ fs) (h, hs) =
    (classify-Kept p threshold _ f h, classify_all-Kept p threshold fs hs)

-- An item that is not a candidate is not dropped.
pub trim-keeps :
    (budget prepared : ℕ) (items : List WorkItem) (it : WorkItem)
    → IsExact is_candidate items it
    → is_candidate it ≡ false
    → is_dropped (trim budget (candidates items) prepared).0 it.slot ≡ false
trim-keeps budget prepared items it e h =
    dropped_of_trim budget it.slot (candidates items) prepared
      (any-candidates it.slot items ∙ e ∙ h)

drop_item-relpath : (dropped : List ℕ) (it : WorkItem) → (drop_item dropped it).relpath ≡ it.relpath
unfolding drop_item
drop_item-relpath dropped it = ground arith

drop_item-Kept :
    (p : String) (budget prepared : ℕ) (items : List WorkItem) (it : WorkItem)
    → IsExact is_candidate items it
    → Kept p it
    → IsWholeAt p (drop_item (trim budget (candidates items) prepared).0 it).decision
unfolding drop_item
drop_item-Kept p budget prepared items it e k = elim k [
  | inl other ↦ inl (rw (drop_item-relpath (trim budget (candidates items) prepared).0 it) other)
  | inr (m, whole, size) ↦
      inr (ground (arith, trim-keeps budget prepared items it e, m, whole, size))
]

IsWholeAt-Kept :
    (p : String) (items : List WorkItem)
    → All (Kept p) items
    → All (λ it. IsWholeAt p it.decision) items
IsWholeAt-Kept p items h =
    All-map (λ it k. elim k [ inl other ↦ inl other | inr (m, whole, size) ↦ inr (whole, size) ])
      items h

pub All-mapped :
    (Q : RepresentationDecision → Type 0) (g : WorkItem → WorkItem) (items : List WorkItem)
    → All (λ it. Q (g it).decision) items
    → All (λ it. Q it.decision) (map g items)
All-mapped Q g [] h = tt
All-mapped Q g (it ∷ items) (h, hs) = (h, All-mapped Q g items hs)

All-decided :
    (Q : RepresentationDecision → Type 0) (items : List WorkItem)
    → All (λ it. Q it.decision) items
    → All Q (map (λ (it : WorkItem). it.decision) items)
All-decided Q [] h = tt
All-decided Q (it ∷ items) (h, hs) = (h, All-decided Q items hs)

-- What holds of all items once the budget is applied holds of all decisions.
pub decisions-All :
    (Q : RepresentationDecision → Type 0) (files : List BudgetFileInput) (opts : BudgetOptions)
    → All
        (λ it. Q it.decision)
        (fit opts.token_budget (classify_all opts.compression_threshold_tokens files)).0
    → All Q (select_representations files opts).decisions
unfolding select_representations
decisions-All Q files opts h = sort-All listed_before Q _ (All-decided Q _ h)

-- What an item is once the budget is applied, in terms of the item before.
pub fit-All :
    (Q : RepresentationDecision → Type 0) (budget : Option ℕ) (items : List WorkItem)
    → All (λ it. Q it.decision) items
    → ((b : ℕ)
        → All
            (λ it. Q (drop_item (trim b (candidates items) (total final_of items)).0 it).decision)
            items)
    → All (λ it. Q it.decision) (fit budget items).0
unfolding fit
fit-All Q none items h k = h
fit-All Q (some b) items h k = elim (Bool-cases (ltb b (total final_of items))) [
  | inl over ↦ rw over (All-mapped Q _ items (k b))
  | inr within ↦ rw within h
]

pub All-both :
    (P Q R : WorkItem → Type 0) (items : List WorkItem)
    → ((it : WorkItem) → P it → Q it → R it)
    → All P items
    → All Q items
    → All R items
All-both P Q R [] f h k = tt
All-both P Q R (it ∷ items) f (h, hs) (k, ks) = (f it h k, All-both P Q R items f hs ks)

-- Every decision stands for one file: a weight of the paths sums up to the same over the decisions
-- and over the files.
classify_all-paths :
    (weight : String → ℕ) (threshold : ℕ) (fs : List BudgetFileInput)
    → total (λ it. weight it.relpath) (classify_all threshold fs) ≡ total (λ f. weight f.relpath) fs
unfolding classify_all total
classify_all-paths weight threshold [] = refl
classify_all-paths weight threshold (f ∷ fs) = omega (
  arith,
  ap weight (classify-relpath threshold (length fs) f),
  classify_all-paths weight threshold fs,
)

dropped-paths :
    (weight : String → ℕ) (dropped : List ℕ) (items : List WorkItem)
    → total (λ it. weight it.relpath) (map (drop_item dropped) items)
      ≡ total (λ it. weight it.relpath) items
unfolding total
dropped-paths weight dropped [] = refl
dropped-paths weight dropped (it ∷ items) =
    omega (arith, ap weight (drop_item-relpath dropped it), dropped-paths weight dropped items)

fit-paths :
    (weight : String → ℕ) (budget : Option ℕ) (items : List WorkItem)
    → total (λ it. weight it.relpath) (fit budget items).0 ≡ total (λ it. weight it.relpath) items
unfolding fit
fit-paths weight none items = refl
fit-paths weight (some b) items = elim (Bool-cases (ltb b (total final_of items))) [
  | inl over ↦ rw over (dropped-paths weight _ items)
  | inr within ↦ rw within refl
]

decisions-paths :
    (weight : String → ℕ) (files : List BudgetFileInput) (opts : BudgetOptions)
    → total (λ d. weight d.relpath) (select_representations files opts).decisions
      ≡ total (λ f. weight f.relpath) files
unfolding select_representations
decisions-paths weight files opts =
    let fitted = fit opts.token_budget (classify_all opts.compression_threshold_tokens files) in
    total-sort listed_before _ (map (λ (it : WorkItem). it.decision) fitted.0)
    ∙ total-map (λ (it : WorkItem). it.decision) _ fitted.0
    ∙ fit-paths weight opts.token_budget _
    ∙ classify_all-paths weight opts.compression_threshold_tokens files

-- The budget never touches a protected file: if the file of a path is included by the user, open, an
-- entry point, a manifest, a configuration, an agent's instruction, an important fixture, not
-- parsed or within the threshold, and not excluded upstream, then whatever the budget the decision
-- on the path is to deliver all of it; and there are as many decisions on each path as files.
pub select_representations-keeps :
    (p : String) (weight : String → ℕ) (files : List BudgetFileInput) (opts : BudgetOptions)
    → All (IsProtectedAt p opts.compression_threshold_tokens) files
    → All (IsWholeAt p) (select_representations files opts).decisions
      × (total (λ d. weight d.relpath) (select_representations files opts).decisions
          ≡ total (λ f. weight f.relpath) files)
select_representations-keeps p weight files opts h =
    let items = classify_all opts.compression_threshold_tokens files in
    let kept = classify_all-Kept p opts.compression_threshold_tokens files h in
    let exact = classify_all-IsExact is_candidate opts.compression_threshold_tokens files in
    (
      decisions-All (IsWholeAt p) files opts (
          fit-All (IsWholeAt p) opts.token_budget items (IsWholeAt-Kept p items kept) (λ b.
            All-both _ _ _ items (drop_item-Kept p b (total final_of items) items) exact kept)),
      decisions-paths weight files opts,
    )
