-- ===== src/Planner/Rules/Laws.antt =====
-- Which inputs lead to which plan.
use yuhi.Prelude.{
  All, get_or, ◌≤◌, ◌⊎◌, ℕ, String, eq_iff, true, false, ◌&&◌, ◌||◌, none, some, List, [], ◌∷◌, ◌≡◌,
  ◌≢◌, ◌↔◌, refl, arith, inl, inr, Bool-cases, Option-cases,
}
use yuhi.Planner.Types.{full, reuse, withhold, PriorDelivery, RuntimeBudgetState, PlannerInput}
use yuhi.Planner.Rules.{
  fits_small, fits_maximum, find_prior_delivery, is_load_bearing, plan_afresh, plan_with_rules,
}

pub plan_with_rules-withhold :
    (input : PlannerInput)
    → ((plan_with_rules input).kind ≡ withhold) ↔ (input.privacy_or_security_failure ≡ true)
unfolding plan_with_rules plan_afresh
plan_with_rules-withhold input = ground arith

find_prior_delivery-some :
    (object_id : String) (revision : ℕ) (ds : List PriorDelivery) (d : PriorDelivery)
    → find_prior_delivery object_id revision ds ≡ some d
    → (d.object_id ≡ object_id) × (d.revision ≡ revision)
unfolding find_prior_delivery
find_prior_delivery-some object_id revision [] d h = absurd (ground (arith, h))
find_prior_delivery-some object_id revision (x ∷ ds) d h =
    ground
      (arith, h, find_prior_delivery-some object_id revision ds d, eq_iff x.object_id object_id)

plan_afresh-full :
    (input : PlannerInput)
    → (plan_afresh input).kind ≡ full
    → ((is_load_bearing input.role && fits_small input) || fits_maximum input) ≡ true
unfolding plan_afresh
plan_afresh-full input h = ground (arith, h)

-- The delivery is of another object or of another revision.
abbrev pub IsOther : PlannerInput → PriorDelivery → Type 0
IsOther input d = (d.object_id ≢ input.object_id) ⊎ (d.revision ≢ input.revision)

find_prior_delivery-none :
    (input : PlannerInput) (ds : List PriorDelivery)
    → find_prior_delivery input.object_id input.revision ds ≡ none
    → All (IsOther input) ds
unfolding find_prior_delivery
find_prior_delivery-none input [] h = tt
find_prior_delivery-none input (d ∷ ds) h = (
  ground (arith, h, eq_iff d.object_id input.object_id),
  find_prior_delivery-none input ds (ground (arith, h)),
)

small_tokens :
    (input : PlannerInput) (budget : RuntimeBudgetState) (m : ℕ)
    → input.budget ≡ some budget
    → budget.maximum ≡ some m
    → get_or budget.target 2000 ≤ m
    → (fits_small input || fits_maximum input) ≡ true
    → input.measurement.estimated_tokens ≤ m
unfolding fits_small fits_maximum
small_tokens input budget m b e t h = ground (arith, h, t, b, e)

-- Under a budget whose maximum is at least its target, or at least 2000 tokens where it has no
-- target, a delivery that is planned full has no more tokens than the maximum, and none of the prior
-- deliveries is of the same object and revision.
pub plan_with_rules-full :
    (input : PlannerInput) (budget : RuntimeBudgetState) (m : ℕ)
    → input.budget ≡ some budget
    → budget.maximum ≡ some m
    → get_or budget.target 2000 ≤ m
    → (plan_with_rules input).kind ≡ full
    → (input.measurement.estimated_tokens ≤ m) × All (IsOther input) input.prior_deliveries
unfolding plan_with_rules
plan_with_rules-full input budget m b e t h = elim (Bool-cases input.privacy_or_security_failure) [
  | inl fails ↦ absurd (ground (arith, h, fails))
  | inr passes ↦
      elim (Option-cases
        (find_prior_delivery input.object_id input.revision input.prior_deliveries)) [
          | inl new ↦ (
            small_tokens input budget m b e t
                (ground (arith, plan_afresh-full input (rw (passes, new) at h))),
            find_prior_delivery-none input input.prior_deliveries new,
          )
          | inr (d, found) ↦ absurd (ground (arith, h, passes, found))
        ]
]

plan_afresh-reuse : (input : PlannerInput) → (plan_afresh input).kind ≢ reuse
unfolding plan_afresh
plan_afresh-reuse input h = absurd (ground (arith, h))

pub plan_with_rules-reuse :
    (input : PlannerInput)
    → (plan_with_rules input).kind ≡ reuse
    → (input.privacy_or_security_failure ≡ false)
      × ((plan_with_rules input).reuse_object_id ≡ some input.object_id)
      × ((d : PriorDelivery) × (find_prior_delivery input.object_id input.revision
              input.prior_deliveries
            ≡ some d)
          × (d.object_id ≡ input.object_id)
          × (d.revision ≡ input.revision))
unfolding plan_with_rules
plan_with_rules-reuse input h = elim (Bool-cases input.privacy_or_security_failure) [
  | inl fails ↦ absurd (ground (arith, h, fails))
  | inr passes ↦
      elim (Option-cases
        (find_prior_delivery input.object_id input.revision input.prior_deliveries)) [
          | inl new ↦ absurd (plan_afresh-reuse input (rw (passes, new) at h))
          | inr (d, found) ↦
              let (same_id, same_revision) =
                find_prior_delivery-some input.object_id input.revision input.prior_deliveries d
                  found in
              (passes, rw (passes, found, same_id) refl, (d, found, same_id, same_revision))
        ]
]
