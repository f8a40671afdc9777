-- ===== src/Compression/Tests.antt =====
-- The theorems on the token budget at a concrete selection.
use yuhi.Prelude.{
  ℕ, ◌+◌, ◌≤◌, ◌≡◌, refl, ◌⊎◌, inl, inr, eq_iff, arith, String, Bool, true, false, Option, none,
  some, List, [], ◌∷◌, All,
}
use yuhi.Prelude.Sort.{total}
use yuhi.Compression.Budget.{
  BudgetFileInput, BudgetOptions, within_budget, best_effort, select_representations,
}
use yuhi.Compression.Budget.Choice.{IsWholeAt, select_representations-keeps}
use yuhi.Compression.Budget.Effort.{IsSettled, select_representations-exhausted}
use yuhi.Compression.Budget.Totals.{delivered, select_representations-totals}

abbrev source : String → ℕ → Option ℕ → Bool → BudgetFileInput
source relpath full_tokens compressed_tokens entry_point = record {
  relpath = relpath;
  full_tokens = full_tokens;
  compressed_tokens = compressed_tokens;
  user_included = false;
  open_or_specified = false;
  entry_point = entry_point;
  package_manifest = false;
  config_file = false;
  agent_instruction = false;
  important_test_fixture = false;
  parse_failed = false;
  already_excluded = false;
}

abbrev files : List BudgetFileInput
files =
    source "main.ts" 90 none true
    ∷ source "util.ts" 80 (some 20) false
    ∷ source "data.txt" 70 none false
    ∷ []

abbrev tight : BudgetOptions
tight = record { token_budget = some 100; compression_threshold_tokens = 10 }

abbrev one_each : String → ℕ
one_each p = 1

select_representations-keeps_example :
    All (IsWholeAt "main.ts") (select_representations files tight).decisions
    × (total (λ d. one_each d.relpath) (select_representations files tight).decisions
        ≡ total (λ f. one_each f.relpath) files)
select_representations-keeps_example = select_representations-keeps "main.ts" one_each files tight (
  inr refl,
  (
    inl (λ e. absurd (ground (arith, eq_iff "util.ts" "main.ts"))),
    (inl (λ e. absurd (ground (arith, eq_iff "data.txt" "main.ts"))), tt),
  ),
)

select_representations-exhausted_example :
    (((select_representations files tight).summary.prepared_tokens ≤ 100)
      × ((select_representations files tight).summary.status ≡ within_budget)
      × ((select_representations files tight).summary.warning ≡ none))
    ⊎ (((select_representations files tight).summary.status ≡ best_effort)
        × All IsSettled (select_representations files tight).decisions)
select_representations-exhausted_example = select_representations-exhausted files tight 100 refl

select_representations-totals_example :
    ((select_representations files tight).summary.prepared_tokens
      ≡ total delivered (select_representations files tight).decisions)
    × ((select_representations files tight).summary.original_tokens
        ≡ (select_representations files tight).summary.prepared_tokens
          + (select_representations files tight).summary.exclusion_reduction_tokens
          + (select_representations files tight).summary.compression_reduction_tokens)
select_representations-totals_example = select_representations-totals files tight
