-- ===== src/Compression/Budget/Totals.antt =====
-- What the token counts of a result add up to.
use yuhi.Prelude.{
  ℕ, ◌+◌, ◌-◌, ◌≤◌, ◌≡◌, refl, sym, ◌∙◌, inl, inr, true, false, Option, none, some, List, [], ◌∷◌,
  map, length, filter, any, ltb, leb, ◌==◌, arith, All, Bool-cases, if◌then◌else◌,
}
use yuhi.Prelude.Sort.{total, total-sort, total-filter, total_le, total-eq, total-map}
use yuhi.Compression.Budget.{
  BudgetFileInput, BudgetOptions, RepresentationDecision, WorkItem, classify, classify_all,
  final_of, is_candidate, dropped_before, candidates, trim, drop_item, fit, original_of,
  exclusion_of, compression_of, listed_before, select_representations, summarize,
}
use yuhi.Compression.Budget.Slots.{
  IsBelow, All-map, classify-slot, classify_all-IsBelow, classify_all-IsExact,
}
use yuhi.Compression.Budget.Trim.{is_dropped}
use yuhi.Compression.Budget.Choice.{trim-keeps}

-- How many items stand in a slot.
abbrev in_slot : ℕ → WorkItem → ℕ
in_slot n it = if it.slot == n then 1 else 0

in_slot_above :
    (n : ℕ) (items : List WorkItem) → All (IsBelow n) items → total (in_slot n) items ≡ 0
unfolding total
in_slot_above n [] h = refl
in_slot_above n (it ∷ items) (h, hs) = ground (arith, in_slot_above n items hs)

classify_all-distinct :
    (threshold n : ℕ) (fs : List BudgetFileInput)
    → total (in_slot n) (classify_all threshold fs) ≤ 1
unfolding classify_all total
classify_all-distinct threshold n [] = omega arith
classify_all-distinct threshold n (f ∷ fs) = ground (
  arith,
  classify-slot threshold (length fs) f,
  in_slot_above (length fs) (classify_all threshold fs) (classify_all-IsBelow threshold fs),
  classify_all-distinct threshold n fs,
)

total-candidates :
    (w : WorkItem → ℕ) (items : List WorkItem)
    → total w (candidates items) ≡ total (λ it. if is_candidate it then w it else 0) items
unfolding candidates
total-candidates w items =
    total-sort dropped_before w (filter is_candidate items) ∙ total-filter is_candidate w items

total-candidates_le :
    (w : WorkItem → ℕ) (items : List WorkItem) → total w (candidates items) ≤ total w items
total-candidates_le w items =
    rw (total-candidates w items) (total_le _ w items (λ it. ground arith))

-- The tokens of an item that was dropped.
abbrev lost : List ℕ → WorkItem → ℕ
lost dropped it = if is_dropped dropped it.slot then final_of it else 0

lost_none : (items : List WorkItem) → total (lost []) items ≡ 0
unfolding total any
lost_none [] = refl
lost_none (it ∷ items) = omega (arith, lost_none items)

lost_elsewhere :
    (n : ℕ) (dropped : List ℕ) (items : List WorkItem)
    → total (in_slot n) items ≡ 0
    → total (lost (n ∷ dropped)) items ≡ total (lost dropped) items
unfolding total any
lost_elsewhere n dropped [] h = refl
lost_elsewhere n dropped (it ∷ items) h = ground (arith, lost_elsewhere n dropped items)

-- The slots of the candidates differ.
abbrev IsDistinct : List WorkItem → Type 0
IsDistinct cs = (n : ℕ) → total (in_slot n) cs ≤ 1

tail-IsDistinct : (c : WorkItem) (cs : List WorkItem) → IsDistinct (c ∷ cs) → IsDistinct cs
unfolding total
tail-IsDistinct c cs h n = omega (arith, h n)

lost-cons :
    (c : WorkItem) (cs : List WorkItem) (dropped : List ℕ)
    → IsDistinct (c ∷ cs)
    → total (lost (c.slot ∷ dropped)) (c ∷ cs) ≡ final_of c + total (lost dropped) cs
unfolding total any
lost-cons c cs dropped h = ground (arith, h c.slot, lost_elsewhere c.slot dropped cs)

trim-stop :
    (budget : ℕ) (c : WorkItem) (cs : List WorkItem) (prepared : ℕ)
    → leb prepared budget ≡ true
    → trim budget (c ∷ cs) prepared ≡ ([], prepared)
unfolding trim
trim-stop budget c cs prepared h = rw h

trim-go :
    (budget : ℕ) (c : WorkItem) (cs : List WorkItem) (prepared : ℕ)
    → leb prepared budget ≡ false
    → let rest = trim budget cs (prepared - c.final_tokens) in
      trim budget (c ∷ cs) prepared ≡ (c.slot ∷ rest.0, rest.1)
unfolding trim
trim-go budget c cs prepared h = rw h

total-cons :
    (w : WorkItem → ℕ) (c : WorkItem) (cs : List WorkItem) → total w (c ∷ cs) ≡ w c + total w cs
unfolding total
total-cons w c cs = refl

-- The loop's counter goes down by the tokens of what it drops.
trim-lost :
    (budget : ℕ) (cs : List WorkItem) (prepared : ℕ)
    → IsDistinct cs
    → total final_of cs ≤ prepared
    → (trim budget cs prepared).1 + total (lost (trim budget cs prepared).0) cs ≡ prepared
trim-lost budget [] prepared d h = unfold trim total in omega arith
trim-lost budget (c ∷ cs) prepared d h = elim (Bool-cases (leb prepared budget)) [
  | inl within ↦ rw (trim-stop budget c cs prepared within) (omega (arith, lost_none (c ∷ cs)))
  | inr over ↦
      rw
        (
          trim-go budget c cs prepared over,
          lost-cons c cs (trim budget cs (prepared - c.final_tokens)).0 d,
        )
        (omega (
          arith,
          h,
          total-cons final_of c cs,
          trim-lost budget cs (prepared - c.final_tokens) (tail-IsDistinct c cs d),
        ))
]

drop_item-lost :
    (dropped : List ℕ) (items : List WorkItem)
    → total final_of (map (drop_item dropped) items) + total (lost dropped) items
      ≡ total final_of items
unfolding total drop_item
drop_item-lost dropped [] = refl
drop_item-lost dropped (it ∷ items) = ground (arith, drop_item-lost dropped items)

-- Only candidates are lost.
lost-candidates :
    (b prepared threshold : ℕ) (files : List BudgetFileInput)
    → let items = classify_all threshold files in
      let dropped = (trim b (candidates items) prepared).0 in
      total (lost dropped) (candidates items) ≡ total (lost dropped) items
lost-candidates b prepared threshold files =
    let items = classify_all threshold files in
    total-candidates _ items
    ∙ total-eq _ _ items (
        All-map
          (λ it e. elim (Bool-cases (is_candidate it)) [
            | inl yes' ↦ rw yes'
            | inr no' ↦ rw (no', trim-keeps b prepared items it e no')
          ])
          items (classify_all-IsExact is_candidate threshold files))

-- The counter is the sum of what the items contribute.
fit-total :
    (budget : Option ℕ) (threshold : ℕ) (files : List BudgetFileInput)
    → let fitted = fit budget (classify_all threshold files) in fitted.1 ≡ total final_of fitted.0
unfolding fit
fit-total none threshold files = refl
fit-total (some b) threshold files =
    let items = classify_all threshold files in
    let prepared = total final_of items in
    elim (Bool-cases (ltb b prepared)) [
      | inr within ↦ rw within
      | inl over ↦ rw over (
          omega (
            arith,
            drop_item-lost (trim b (candidates items) prepared).0 items,
            lost-candidates b prepared threshold files,
            trim-lost b (candidates items) prepared
                (λ n. omega (
                  arith,
                  total-candidates_le (in_slot n) items,
                  classify_all-distinct threshold n files,
                ))
                (total-candidates_le final_of items),
          ))
    ]

-- What an item saves is what it has less than its file.
abbrev IsBalanced : WorkItem → Type 0
IsBalanced it = original_of it ≡ final_of it + exclusion_of it + compression_of it

classify-IsBalanced :
    (threshold slot : ℕ) (f : BudgetFileInput) → IsBalanced (classify threshold slot f)
unfolding classify
classify-IsBalanced threshold slot f = ground arith

drop_item-IsBalanced :
    (dropped : List ℕ) (it : WorkItem) → IsBalanced it → IsBalanced (drop_item dropped it)
unfolding drop_item
drop_item-IsBalanced dropped it h = ground (arith, h)

classify_all-IsBalanced :
    (threshold : ℕ) (fs : List BudgetFileInput) → All IsBalanced (classify_all threshold fs)
unfolding classify_all
classify_all-IsBalanced threshold [] = tt
classify_all-IsBalanced threshold (f ∷ fs) =
    (classify-IsBalanced threshold _ f, classify_all-IsBalanced threshold fs)

dropped-IsBalanced :
    (dropped : List ℕ) (items : List WorkItem)
    → All IsBalanced items
    → All IsBalanced (map (drop_item dropped) items)
dropped-IsBalanced dropped [] h = tt
dropped-IsBalanced dropped (it ∷ items) (h, hs) =
    (drop_item-IsBalanced dropped it h, dropped-IsBalanced dropped items hs)

fit-IsBalanced :
    (budget : Option ℕ) (items : List WorkItem)
    → All IsBalanced items
    → All IsBalanced (fit budget items).0
unfolding fit
fit-IsBalanced none items h = h
fit-IsBalanced (some b) items h = elim (Bool-cases (ltb b (total final_of items))) [
  | inl over ↦ rw over (dropped-IsBalanced _ items h)
  | inr within ↦ rw within h
]

total-balanced :
    (items : List WorkItem)
    → All IsBalanced items
    → total original_of items
      ≡ total final_of items + total exclusion_of items + total compression_of items
total-balanced [] h = unfold total in refl
total-balanced (it ∷ items) (h, hs) = omega (
  arith,
  h,
  total-balanced items hs,
  total-cons original_of it items,
  total-cons final_of it items,
  total-cons exclusion_of it items,
  total-cons compression_of it items,
)

abbrev pub delivered : RepresentationDecision → ℕ
delivered d = d.final_tokens

-- The report adds up: the prepared tokens are what the listed files contribute, and with what
-- excluding and compressing saved they make up the original tokens.
pub select_representations-totals :
    (files : List BudgetFileInput) (opts : BudgetOptions)
    → let r = select_representations files opts in
      (r.summary.prepared_tokens ≡ total delivered r.decisions)
      × (r.summary.original_tokens
          ≡ r.summary.prepared_tokens + r.summary.exclusion_reduction_tokens
            + r.summary.compression_reduction_tokens)
unfolding select_representations summarize
select_representations-totals files opts =
    let threshold = opts.compression_threshold_tokens in
    let fitted = fit opts.token_budget (classify_all threshold files) in
    let counted = fit-total opts.token_budget threshold files in
    (
      counted
          ∙ sym (
              total-sort listed_before delivered (map (λ (it : WorkItem). it.decision) fitted.0)
              ∙ total-map (λ (it : WorkItem). it.decision) delivered fitted.0),
      omega (
        arith,
        counted,
        total-balanced fitted.0
            (fit-IsBalanced opts.token_budget _ (classify_all-IsBalanced threshold files)),
      ),
    )
