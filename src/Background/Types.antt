-- ===== src/Background/Types.antt =====
-- packages/core/src/background/types.ts and the record of state-store.ts. Priorities and times are
-- natural numbers.
use yuhi.Prelude.{ℕ, String, Bool, true, false, Option, none, some}

pub data BackgroundPreparationKind : Type 0 where
  document_extraction ocr summarize_local : BackgroundPreparationKind

abbrev pub kind_name : BackgroundPreparationKind → String
kind_name document_extraction = "document-extraction"
kind_name ocr = "ocr"
kind_name summarize_local = "summarize-local"

pub record BackgroundPreparationItem : Type 0 where
  pub item_id : String
  pub run_id : String
  pub context_id : String
  pub relpath : String
  pub public_relpath : Option String
  pub document_id : Option String
  pub kind : BackgroundPreparationKind
  pub source_artifact_path : String
  pub priority : ℕ
  pub created_at : ℕ
  pub original_shared_with_warning : Bool

pub data BackgroundPreparationStatus : Type 0 where
  pending processing completed failed timed_out cancelled kept_local : BackgroundPreparationStatus

pub data BackgroundReasonCode : Type 0 where
  background_pending background_processing background_completed : BackgroundReasonCode
  background_cancelled background_timeout background_provider_unavailable : BackgroundReasonCode
  background_extraction_failed background_ocr_unavailable : BackgroundReasonCode
  background_ocr_deferred background_safety_rejected : BackgroundReasonCode
  background_publication_failed background_state_corrupt : BackgroundReasonCode

-- The result of an item, for the caller of `BackgroundQueue.result`.
pub record BackgroundPreparationResult : Type 0 where
  pub item_id : String
  pub status : BackgroundPreparationStatus
  pub prepared_relpath : Option String
  pub reason_code : Option BackgroundReasonCode
  pub elapsed_ms : ℕ

pub record IdempotencyInputs : Type 0 where
  pub source_content_hash : String
  pub processor_version : String
  pub policy_hash : String

pub record EnqueueInput : Type 0 where
  pub inputs : IdempotencyInputs
  pub open inputs use *
  pub run_id : String
  pub context_id : String
  pub relpath : String
  pub public_relpath : Option String
  pub document_id : Option String
  pub kind : BackgroundPreparationKind
  pub source_artifact_path : String
  pub priority : Option ℕ
  pub item_id : Option String
  pub created_at : Option ℕ
  pub original_shared_with_warning : Bool

pub record PublicBackgroundItem : Type 0 where
  pub item_id : String
  pub run_id : String
  pub context_id : String
  pub relpath : String
  pub public_relpath : Option String
  pub document_id : Option String
  pub kind : BackgroundPreparationKind
  pub priority : ℕ
  pub created_at : ℕ
  pub status : BackgroundPreparationStatus
  pub reason_code : Option BackgroundReasonCode
  pub prepared_relpath : Option String
  pub original_shared_with_warning : Bool

unfoldable pub default_reason_for_status : BackgroundPreparationStatus → Option BackgroundReasonCode
default_reason_for_status pending = some background_pending
default_reason_for_status processing = some background_processing
default_reason_for_status completed = some background_completed
default_reason_for_status cancelled = some background_cancelled
default_reason_for_status timed_out = some background_timeout
default_reason_for_status _ = none

-- The record that the store keeps of an item. The marker `schema` is always 1 and is left out.
pub record BackgroundRecord : Type 0 where
  pub item : BackgroundPreparationItem
  pub idempotency_key : String
  pub idempotency : IdempotencyInputs
  pub status : BackgroundPreparationStatus
  pub reason_code : Option BackgroundReasonCode
  pub prepared_relpath : Option String
  pub elapsed_ms : ℕ

-- `LIVE_STATUSES.has(status)`
abbrev pub is_live : BackgroundPreparationStatus → Bool
is_live pending = true
is_live processing = true
is_live completed = true
is_live _ = false

abbrev pub is_pending : BackgroundPreparationStatus → Bool
is_pending pending = true
is_pending _ = false

abbrev pub is_processing : BackgroundPreparationStatus → Bool
is_processing processing = true
is_processing _ = false

abbrev pub is_completed : BackgroundPreparationStatus → Bool
is_completed completed = true
is_completed _ = false

abbrev pub is_corrupt : Option BackgroundReasonCode → Bool
is_corrupt (some background_state_corrupt) = true
is_corrupt _ = false
