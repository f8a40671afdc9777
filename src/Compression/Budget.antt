-- ===== src/Compression/Budget.antt =====
-- packages/core/src/compression/budget.ts: the three-tier selection under a token budget. Token
-- counts are natural numbers. The source changes the items of one array through a second, sorted
-- array of the same objects: an item's `slot` tells the objects apart.
pub mod Slots
pub mod Trim
pub mod Choice
pub mod Effort
pub mod Totals
use yuhi.Prelude.{
  ℕ, ◌+◌, ◌-◌, ◌*◌, ◌/◌, String, Bool, true, false, not, ◌&&◌, ◌||◌, Option, none, some, get_or,
  List, [], ◌∷◌, map, length, filter, any, ltb, leb, ◌==◌, if◌then◌else◌,
}
use yuhi.Prelude.Sort.{sort, total}
use yuhi.Text.{text_before}

pub data ContextRepresentation : Type 0 where
  full compressed excluded : ContextRepresentation

-- A signal that is absent is false.
pub record BudgetFileInput : Type 0 where
  pub relpath : String
  pub full_tokens : ℕ
  pub compressed_tokens : Option ℕ
  pub user_included : Bool
  pub open_or_specified : Bool
  pub entry_point : Bool
  pub package_manifest : Bool
  pub config_file : Bool
  pub agent_instruction : Bool
  pub important_test_fixture : Bool
  pub parse_failed : Bool
  pub already_excluded : Bool

pub record BudgetOptions : Type 0 where
  pub token_budget : Option ℕ
  pub compression_threshold_tokens : ℕ

pub record RepresentationDecision : Type 0 where
  pub relpath : String
  pub representation : ContextRepresentation
  pub reason : String
  pub must_keep : Bool
  pub importance_rank : ℕ
  pub full_tokens : ℕ
  pub final_tokens : ℕ

-- The input of an item is not read again once the item is made.
pub record WorkItem : Type 0 where
  pub slot : ℕ
  pub decision : RepresentationDecision
  pub open decision use *
  pub junk : Bool

unfoldable pub must_keep_reason : BudgetFileInput → ℕ → Option String
must_keep_reason f threshold =
    if f.user_included
    then some "user-included"
    else if f.open_or_specified
    then some "open-or-specified"
    else if f.entry_point
    then some "entry-point"
    else if f.package_manifest
    then some "package-manifest"
    else if f.config_file
    then some "config"
    else if f.agent_instruction
    then some "agent-instruction"
    else if f.important_test_fixture
    then some "test-fixture"
    else if f.parse_failed
    then some "parse-failed"
    else if leb f.full_tokens threshold
    then some "too-small"
    else none

unfoldable pub importance_rank_for : BudgetFileInput → Bool → ℕ
importance_rank_for f compressible =
    if f.user_included || f.open_or_specified
    then 6
    else if f.entry_point
    then 5
    else if f.package_manifest || f.agent_instruction || f.config_file
    then 4
    else if f.important_test_fixture
    then 3
    else if compressible
    then 2
    else 1

abbrev pub is_smaller : Option ℕ → ℕ → Bool
is_smaller none full_tokens = false
is_smaller (some c) full_tokens = ltb c full_tokens

abbrev pub can_compress : BudgetFileInput → ℕ → Bool
can_compress f threshold =
    is_smaller f.compressed_tokens f.full_tokens && ltb threshold f.full_tokens

abbrev decide :
    BudgetFileInput → ContextRepresentation → String → ℕ → ℕ → Bool → RepresentationDecision
decide f representation reason final_tokens rank must_keep = record {
  relpath = f.relpath;
  representation = representation;
  reason = reason;
  must_keep = must_keep;
  importance_rank = rank;
  full_tokens = f.full_tokens;
  final_tokens = final_tokens;
}

-- A file that upstream did not exclude: kept whole, compressed, or whole for want of a smaller form.
abbrev reserve : BudgetFileInput → ℕ → Option String → RepresentationDecision
reserve f threshold (some reason) =
    decide f full reason f.full_tokens (importance_rank_for f (can_compress f threshold)) true
reserve f threshold none =
    let rank = importance_rank_for f (can_compress f threshold) in
    if can_compress f threshold
    then decide f compressed "structural-compression" (get_or f.compressed_tokens 0) rank false
    else decide f full "not-compressible" f.full_tokens rank false

unfoldable pub classify : ℕ → ℕ → BudgetFileInput → WorkItem
unfolding must_keep_reason importance_rank_for
classify threshold slot f =
    if f.already_excluded
    then record {
      slot = slot;
      decision = decide f excluded "excluded-upstream" 0 1 false;
      junk = true;
    }
    else record {
      slot = slot;
      decision = reserve f threshold (must_keep_reason f threshold);
      junk = false;
    }

-- `items`: the slot of an item is the number of items after it.
unfoldable pub classify_all : ℕ → List BudgetFileInput → List WorkItem
unfolding classify
classify_all threshold [] = []
classify_all threshold (f ∷ fs) = classify threshold (length fs) f ∷ classify_all threshold fs

abbrev pub final_of : WorkItem → ℕ
final_of it = it.final_tokens

abbrev pub is_excluded : ContextRepresentation → Bool
is_excluded excluded = true
is_excluded _ = false

abbrev pub is_candidate : WorkItem → Bool
is_candidate it = not it.must_keep && not it.junk && not (is_excluded it.representation)

-- The comparison of the candidates is negative.
unfoldable pub dropped_before : WorkItem → WorkItem → Bool
unfolding text_before
dropped_before a b =
    ltb a.importance_rank b.importance_rank
    || (a.importance_rank == b.importance_rank
        && (ltb b.full_tokens a.full_tokens
            || (a.full_tokens == b.full_tokens && text_before a.relpath b.relpath)))

unfoldable pub candidates : List WorkItem → List WorkItem
unfolding filter sort dropped_before
candidates items = sort dropped_before (filter is_candidate items)

-- The loop over the candidates: the slots that it drops, and `preparedTokens` afterwards.
unfoldable pub trim : ℕ → List WorkItem → ℕ → List ℕ × ℕ
trim budget [] prepared = ([], prepared)
trim budget (it ∷ its) prepared =
    let (dropped, left) = trim budget its (prepared - it.final_tokens) in
    if leb prepared budget then ([], prepared) else (it.slot ∷ dropped, left)

-- An item after the loop dropped the items of these slots.
unfoldable pub drop_item : List ℕ → WorkItem → WorkItem
unfolding any
drop_item dropped it =
    if any (λ s. s == it.slot) dropped
    then record it {
      decision = record it.decision {
        representation = excluded;
        reason = "token-budget";
        final_tokens = 0;
      };
    }
    else it

abbrev trim_over : ℕ → List WorkItem → ℕ → List WorkItem × ℕ
trim_over budget items prepared =
    let (dropped, left) = trim budget (candidates items) prepared in
    if ltb budget prepared then (map (drop_item dropped) items, left) else (items, prepared)

-- The items and `preparedTokens` after the budget is applied.
unfoldable pub fit : Option ℕ → List WorkItem → List WorkItem × ℕ
unfolding trim drop_item candidates total
fit none items = (items, total final_of items)
fit (some budget) items = trim_over budget items (total final_of items)

-- `Essential files exceed budget`: what the must-keep files need, and the budget. The warning's
-- text is made of these two numbers.
pub record BudgetWarning : Type 0 where
  pub must_keep_tokens : ℕ
  pub budget : ℕ

abbrev must_keep_tokens_of : List WorkItem → ℕ
must_keep_tokens_of items = total (λ it. if it.must_keep then it.final_tokens else 0) items

unfoldable pub warning_of : Option ℕ → List WorkItem → ℕ → Option BudgetWarning
unfolding total
warning_of none items prepared = none
warning_of (some budget) items prepared =
    if ltb budget prepared
    then some (record { must_keep_tokens = must_keep_tokens_of items; budget = budget })
    else none

pub data BudgetStatus : Type 0 where
  within_budget best_effort no_budget : BudgetStatus

unfoldable pub status_of : Option ℕ → ℕ → BudgetStatus
status_of none prepared = no_budget
status_of (some budget) prepared = if leb prepared budget then within_budget else best_effort

abbrev is_full : ContextRepresentation → Bool
is_full full = true
is_full _ = false

abbrev pub is_compressed : ContextRepresentation → Bool
is_compressed compressed = true
is_compressed _ = false

abbrev count : (WorkItem → Bool) → List WorkItem → ℕ
count p items = total (λ it. if p it then 1 else 0) items

-- The percentage that is saved, in tenths, rounded half up; the source computes it in floating
-- point.
abbrev tenths_saved : ℕ → ℕ → ℕ
tenths_saved original prepared =
    if original == 0 then 0 else (2000 * (original - prepared) + original) / (2 * original)

-- `targetBudget` and `actualTokens` repeat two other fields, and are left out.
pub record BudgetSummary : Type 0 where
  pub full_files : ℕ
  pub compressed_files : ℕ
  pub excluded_files : ℕ
  pub original_tokens : ℕ
  pub prepared_tokens : ℕ
  pub exclusion_reduction_tokens : ℕ
  pub compression_reduction_tokens : ℕ
  pub reduction_tenths : ℕ
  pub token_budget : Option ℕ
  pub status : BudgetStatus
  pub warning : Option BudgetWarning

abbrev pub original_of : WorkItem → ℕ
original_of it = if it.junk then 0 else it.full_tokens

abbrev pub exclusion_of : WorkItem → ℕ
exclusion_of it =
    if is_excluded it.representation then (if it.junk then 0 else it.full_tokens) else 0

abbrev pub compression_of : WorkItem → ℕ
compression_of it = if is_compressed it.representation then it.full_tokens - it.final_tokens else 0

unfoldable pub summarize : Option ℕ → List WorkItem → ℕ → BudgetSummary
unfolding total warning_of status_of
summarize budget items prepared = record {
  full_files = count (λ it. is_full it.representation) items;
  compressed_files = count (λ it. is_compressed it.representation) items;
  excluded_files = count (λ it. is_excluded it.representation) items;
  original_tokens = total original_of items;
  prepared_tokens = prepared;
  exclusion_reduction_tokens = total exclusion_of items;
  compression_reduction_tokens = total compression_of items;
  reduction_tenths = tenths_saved (total original_of items) prepared;
  token_budget = budget;
  status = status_of budget prepared;
  warning = warning_of budget items prepared;
}

pub record BudgetResult : Type 0 where
  pub decisions : List RepresentationDecision
  pub summary : BudgetSummary

abbrev pub listed_before : RepresentationDecision → RepresentationDecision → Bool
listed_before a b = text_before a.relpath b.relpath

unfoldable pub select_representations : List BudgetFileInput → BudgetOptions → BudgetResult
unfolding fit classify_all sort summarize
select_representations files opts =
    let (items, prepared) =
      fit opts.token_budget (classify_all opts.compression_threshold_tokens files) in
    record {
      decisions = sort listed_before (map (λ (it : WorkItem). it.decision) items);
      summary = summarize opts.token_budget items prepared;
    }
