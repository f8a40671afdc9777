-- ===== src/Planner/Rules.antt =====
-- packages/context-runtime/src/planner/rules.ts: `planWithRules`, the first rule that matches.
pub mod Laws
use yuhi.Prelude.{
  ℕ, String, str_eq, Bool, true, false, not, ◌&&◌, ◌||◌, Option, none, some, is_some, List, [], ◌∷◌,
  any, leb, ◌==◌, if◌then◌else◌,
}
use yuhi.Planner.Types.{
  ContentKind, source, markdown, log, text, ContextIntent, ContextRole, load_bearing, reference,
  ContextPlanKind, full, structured, window, reuse, withhold, ContextPlanReason, fits_budget,
  structured_representation, budget_pressure, already_delivered, retrievable_later, privacy_failure,
  unknown, PlanConfidence, high, medium, low, ContextMeasurement, PlannerRuleId,
  rule_1_privacy_failure, rule_2_reuse, rule_3_small_load_bearing, rule_4_structured,
  rule_5_reference, rule_6_window, rule_7_fits_maximum, rule_8_safe_fallback, rule_9_fallback,
  ContextPlan, CompressorCapability, PriorDelivery, RuntimeBudgetState, PlannerInput,
}

abbrev target_of : Option RuntimeBudgetState → Option ℕ
target_of none = none
target_of (some budget) = budget.target

abbrev maximum_of : Option RuntimeBudgetState → Option ℕ
maximum_of none = none
maximum_of (some budget) = budget.maximum

abbrev rule_3_small_tokens_unbudgeted : ℕ
rule_3_small_tokens_unbudgeted = 2000

abbrev within : ℕ → Option ℕ → Bool → Bool
within tokens none otherwise = otherwise
within tokens (some limit) otherwise = leb tokens limit

unfoldable pub fits_small : PlannerInput → Bool
fits_small input =
    let tokens = input.measurement.estimated_tokens in
    within tokens (target_of input.budget) (leb tokens rule_3_small_tokens_unbudgeted)

unfoldable pub fits_maximum : PlannerInput → Bool
fits_maximum input = within input.measurement.estimated_tokens (maximum_of input.budget) true

abbrev structured_for : ContentKind → CompressorCapability → Bool
structured_for kind c =
    not (str_eq c.id "text-window") && not (str_eq c.id "generic-text") && c.supports_kind kind

unfoldable pub structured_compressor_available : PlannerInput → Bool
unfolding any
structured_compressor_available input = any (structured_for input.content_type) input.compressors

-- `priorDeliveries.find`
unfoldable pub find_prior_delivery : String → ℕ → List PriorDelivery → Option PriorDelivery
find_prior_delivery object_id revision [] = none
find_prior_delivery object_id revision (d ∷ rest) =
    let further = find_prior_delivery object_id revision rest in
    if str_eq d.object_id object_id && d.revision == revision then some d else further

abbrev pub unknown_intent : ContextIntent → Bool
unknown_intent ContextIntent.unknown = true
unknown_intent _ = false

abbrev pub unknown_role : ContextRole → Bool
unknown_role ContextRole.unknown = true
unknown_role _ = false

abbrev pub is_load_bearing : ContextRole → Bool
is_load_bearing ContextRole.load_bearing = true
is_load_bearing _ = false

abbrev pub is_reference : ContextRole → Bool
is_reference ContextRole.reference = true
is_reference _ = false

unfoldable pub confidence_for : PlannerInput → PlanConfidence
confidence_for input =
    if unknown_intent input.intent && unknown_role input.role
    then low
    else if unknown_intent input.intent || unknown_role input.role
    then medium
    else high

abbrev pub prose_or_source : ContentKind → Bool
prose_or_source text = true
prose_or_source markdown = true
prose_or_source log = true
prose_or_source source = true
prose_or_source _ = false

abbrev plan_of :
    PlannerInput
    → ContextPlanKind
    → ContextPlanReason
    → Option ContextMeasurement
    → PlanConfidence
    → PlannerRuleId
    → ContextPlan
plan_of input kind reason estimated_after confidence rule = record {
  kind = kind;
  reason = reason;
  reuse_object_id = none;
  estimated_before = input.measurement;
  estimated_after = estimated_after;
  confidence = confidence;
  rule = rule;
}

abbrev reuse_of : PlannerInput → PriorDelivery → ContextPlan
reuse_of input prior = record {
  kind = reuse;
  reason = already_delivered;
  reuse_object_id = some prior.object_id;
  estimated_before = input.measurement;
  estimated_after = some (record {
    estimated_tokens = prior.estimated_tokens;
    exact_characters = prior.exact_characters;
  });
  confidence = high;
  rule = rule_2_reuse;
}

-- From rule 3 on.
unfoldable pub plan_afresh : PlannerInput → ContextPlan
unfolding fits_small fits_maximum structured_compressor_available confidence_for
plan_afresh input =
    if is_load_bearing input.role && fits_small input
    then plan_of input full ContextPlanReason.load_bearing (some input.measurement) high
        rule_3_small_load_bearing
    else if structured_compressor_available input
    then plan_of input structured structured_representation none (confidence_for input)
        rule_4_structured
    else if is_reference input.role && input.retrieval_available && not (fits_small input)
    then plan_of input ContextPlanKind.reference retrievable_later none (confidence_for input)
        rule_5_reference
    else if prose_or_source input.content_type && not (fits_small input)
    then plan_of input window (if is_some input.budget then budget_pressure else fits_budget) none
        (confidence_for input) rule_6_window
    else if fits_maximum input
    then plan_of input full fits_budget (some input.measurement) (confidence_for input)
        rule_7_fits_maximum
    else if (unknown_intent input.intent || unknown_role input.role) && not (fits_maximum input)
    then plan_of input (if input.retrieval_available then ContextPlanKind.reference else window)
        budget_pressure none low rule_8_safe_fallback
    else plan_of input structured ContextPlanReason.unknown none low rule_9_fallback

abbrev pub plan_by_prior : PlannerInput → Option PriorDelivery → ContextPlan
plan_by_prior input none = plan_afresh input
plan_by_prior input (some prior) = reuse_of input prior

unfoldable pub plan_with_rules : PlannerInput → ContextPlan
unfolding find_prior_delivery plan_afresh
plan_with_rules input =
    if input.privacy_or_security_failure
    then plan_of input withhold privacy_failure none high rule_1_privacy_failure
    else plan_by_prior input
        (find_prior_delivery input.object_id input.revision input.prior_deliveries)
