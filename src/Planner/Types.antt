-- ===== src/Planner/Types.antt =====
-- packages/context-runtime/src/planner/types.ts: what the planner is told, and the plans it makes.
use yuhi.Prelude.{ℕ, String, Bool, Option, List}

-- packages/context-store/src/types.ts
pub data ContentKind : Type 0 where
  source html json xml csv tsv markdown log test_output shell_output git_diff pdf_companion text :
      ContentKind

-- packages/shared/src/identifier-taxonomy.ts and privacy-mode.ts
pub data PrivacyMode : Type 0 where
  strict balanced trusted_local : PrivacyMode

pub data SecretDeliveryMode : Type 0 where
  redact developer_delivery : SecretDeliveryMode

-- packages/context-runtime/src/event.ts
pub data ToolName : Type 0 where
  read grep glob bash test search mcp conversation : ToolName

pub data ContextIntent : Type 0 where
  debug implement test_failure search data_analysis document_analysis refactor unknown :
      ContextIntent

pub data ContextRole : Type 0 where
  load_bearing supporting reference repeated generated_noise unknown : ContextRole

pub data ContextPlanKind : Type 0 where
  full structured window reference reuse withhold : ContextPlanKind

pub data ContextPlanReason : Type 0 where
  fits_budget load_bearing structured_representation budget_pressure already_delivered
        retrievable_later generated_noise privacy_failure verification_failure unknown :
      ContextPlanReason

pub data PlanConfidence : Type 0 where
  high medium low : PlanConfidence

pub record ContextMeasurement : Type 0 where
  pub estimated_tokens : ℕ
  pub exact_characters : ℕ

pub data PlannerRuleId : Type 0 where
  rule_1_privacy_failure rule_2_reuse rule_3_small_load_bearing rule_4_structured rule_5_reference
        rule_6_window rule_7_fits_maximum rule_8_safe_fallback rule_9_fallback :
      PlannerRuleId

-- The fields `strategyId`, `ranges` and `retrievalLocators` are not given by any rule.
pub record ContextPlan : Type 0 where
  pub kind : ContextPlanKind
  pub reason : ContextPlanReason
  pub reuse_object_id : Option String
  pub estimated_before : ContextMeasurement
  pub estimated_after : Option ContextMeasurement
  pub confidence : PlanConfidence
  pub rule : PlannerRuleId

pub record CompressorCapability : Type 0 where
  pub id : String
  pub version : String
  pub supports_kind : ContentKind → Bool

pub record PriorDelivery : Type 0 where
  pub object_id : String
  pub revision : ℕ
  pub representation_id : String
  pub delivered_hash : String
  pub plan_kind : ContextPlanKind
  pub strategy_id : Option String
  pub estimated_tokens : ℕ
  pub exact_characters : ℕ
  pub delivered_at_turn : ℕ

pub record RuntimeBudgetState : Type 0 where
  pub target : Option ℕ
  pub maximum : Option ℕ
  pub method : String
  pub estimated_delivered : ℕ
  pub estimated_remaining : Option ℕ
  pub exact_delivered_characters : ℕ

pub record PlannerInput : Type 0 where
  pub intent : ContextIntent
  pub role : ContextRole
  pub content_type : ContentKind
  pub object_id : String
  pub revision : ℕ
  pub measurement : ContextMeasurement
  pub budget : Option RuntimeBudgetState
  pub prior_deliveries : List PriorDelivery
  pub retrieval_available : Bool
  pub compressors : List CompressorCapability
  pub privacy_mode : PrivacyMode
  pub secret_delivery_mode : SecretDeliveryMode
  pub privacy_or_security_failure : Bool
  pub tool : ToolName
