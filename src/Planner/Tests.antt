-- ===== src/Planner/Tests.antt =====
-- Plans of a few deliveries, and a use of the cache.
use yuhi.Prelude.{
  ◌+◌, ◌≤◌, ◌≢◌, ◌⊎◌, All, arith, ℕ, ◌*◌, true, false, none, some, List, [], ◌∷◌, ◌≡◌, refl,
}
use yuhi.Planner.Types.{
  csv, debug, ContextRole, load_bearing, supporting, full, reuse, rule_9_fallback, balanced, strict,
  redact, PriorDelivery, RuntimeBudgetState, PlannerInput, read,
}
use yuhi.Planner.Rules.{plan_with_rules}
use yuhi.Planner.Rules.Laws.{IsOther, plan_with_rules-full}
use yuhi.Planner.Cache.{
  lookups, run_cache-lookups, GenerationCacheIdentity, GenerationCacheEntry, GenerationCache,
  find_entry, put_entry, CacheUse, getting, setting, run_cache, find_entry-put_entry,
}

abbrev delivery : PriorDelivery
delivery = record {
  object_id = "o";
  revision = 2;
  representation_id = "r";
  delivered_hash = "h";
  plan_kind = full;
  strategy_id = none;
  estimated_tokens = 10;
  exact_characters = 40;
  delivered_at_turn = 1;
}

abbrev budget : RuntimeBudgetState
budget = record {
  target = none;
  maximum = some 1000;
  method = "";
  estimated_delivered = 0;
  estimated_remaining = none;
  exact_delivered_characters = 0;
}

abbrev input_of : ContextRole → ℕ → List PriorDelivery → PlannerInput
input_of role tokens priors = record {
  intent = debug;
  role = role;
  content_type = csv;
  object_id = "o";
  revision = 2;
  measurement = record { estimated_tokens = tokens; exact_characters = 4 * tokens };
  budget = some budget;
  prior_deliveries = priors;
  retrieval_available = true;
  compressors = [];
  privacy_mode = balanced;
  secret_delivery_mode = redact;
  privacy_or_security_failure = false;
  tool = read;
}

-- Without a target, a load-bearing delivery of up to 2000 tokens is small, whatever the maximum.
over_maximum : (plan_with_rules (input_of load_bearing 1500 [])).kind ≡ full
unfolding plan_with_rules
over_maximum = refl

abbrev with_target : PlannerInput
with_target = record (input_of load_bearing 700 []) {
  budget = some (record budget { target = some 800 });
}

small_enough : (plan_with_rules with_target).kind ≡ full
unfolding plan_with_rules
small_enough = refl

plan_with_rules-full_example : (700 ≤ 1000) × All (IsOther with_target) []
plan_with_rules-full_example =
    plan_with_rules-full with_target (record budget { target = some 800 }) 1000 refl refl
      (omega arith) small_enough

again : (plan_with_rules (input_of load_bearing 1500 (delivery ∷ []))).kind ≡ reuse
unfolding plan_with_rules
again = refl

last_rule : (plan_with_rules (input_of supporting 1500 [])).rule ≡ rule_9_fallback
unfolding plan_with_rules
last_rule = refl

abbrev identity : GenerationCacheIdentity
identity = record {
  object_id = "o";
  revision = 2;
  privacy_mode = balanced;
  secret_delivery_mode = redact;
  intent = debug;
}

abbrev strict_identity : GenerationCacheIdentity
strict_identity = record {
  object_id = "o";
  revision = 2;
  privacy_mode = strict;
  secret_delivery_mode = redact;
  intent = debug;
}

abbrev entry : GenerationCacheEntry
entry = record {
  plan_kind = full;
  strategy_version = "1";
  delivered_hash = "h";
  estimated_tokens = 10;
  exact_characters = 40;
}

abbrev empty : GenerationCache
empty = record { entries = []; hits = 0; misses = 0 }

abbrev uses : List CacheUse
uses = setting identity entry ∷ getting identity ∷ getting strict_identity ∷ []

run_cache-lookups_example :
    (run_cache uses empty).hits + (run_cache uses empty).misses
    ≡ lookups uses + (empty.hits + empty.misses)
run_cache-lookups_example = run_cache-lookups uses empty

one_hit : (run_cache uses empty).hits ≡ 1
unfolding run_cache
one_hit = refl

-- Another privacy mode misses.
find_entry-put_entry_example :
    ((identity ≡ strict_identity)
      × (find_entry strict_identity (put_entry identity entry []) ≡ some entry))
    ⊎ ((identity ≢ strict_identity)
        × (find_entry strict_identity (put_entry identity entry [])
            ≡ find_entry strict_identity []))
find_entry-put_entry_example = find_entry-put_entry identity strict_identity entry []
