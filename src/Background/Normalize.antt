-- ===== src/Background/Normalize.antt =====
-- packages/core/src/background/state-store.ts: a record as the JSON value that `persist` writes, and
-- `normalizeRecord`, which reads a record back from a JSON value. That `JSON.parse` gives the value
-- that `JSON.stringify` wrote is taken from the language. `normalizeRecord` casts three texts to
-- unions without a look at them; here they are read by `typed_record`, which gives no record for a
-- text outside of the unions.
pub mod RoundTrip
use yuhi.Prelude.{
  ◌>>=◌, ℕ, String, str_eq, Bool, true, false, Option, none, some, get_or, if◌then◌else◌,
}
use yuhi.Native.Settings.{Value, bool, num, str, obj, Fields, end, field, property, text_of}
use yuhi.Background.Types.{
  BackgroundPreparationKind, document_extraction, ocr, summarize_local, kind_name,
  BackgroundPreparationItem, BackgroundPreparationStatus, pending, processing, completed, failed,
  timed_out, cancelled, kept_local, BackgroundReasonCode, background_pending, background_processing,
  background_completed, background_cancelled, background_timeout, background_provider_unavailable,
  background_extraction_failed, background_ocr_unavailable, background_ocr_deferred,
  background_safety_rejected, background_publication_failed, background_state_corrupt,
  IdempotencyInputs, BackgroundRecord,
}

unfoldable pub status_name : BackgroundPreparationStatus → String
status_name pending = "pending"
status_name processing = "processing"
status_name completed = "completed"
status_name failed = "failed"
status_name timed_out = "timed-out"
status_name cancelled = "cancelled"
status_name kept_local = "kept-local"

unfoldable pub reason_name : BackgroundReasonCode → String
reason_name background_pending = "background-pending"
reason_name background_processing = "background-processing"
reason_name background_completed = "background-completed"
reason_name background_cancelled = "background-cancelled"
reason_name background_timeout = "background-timeout"
reason_name background_provider_unavailable = "background-provider-unavailable"
reason_name background_extraction_failed = "background-extraction-failed"
reason_name background_ocr_unavailable = "background-ocr-unavailable"
reason_name background_ocr_deferred = "background-ocr-deferred"
reason_name background_safety_rejected = "background-safety-rejected"
reason_name background_publication_failed = "background-publication-failed"
reason_name background_state_corrupt = "background-state-corrupt"

-- A field of an object; one that is `undefined` is not written.
unfoldable pub optional_field : String → Option Value → Fields → Fields
optional_field key none rest = rest
optional_field key (some v) rest = field key v rest

abbrev pub text_value : Option String → Option Value
text_value none = none
text_value (some s) = some (str s)

abbrev pub reason_value : Option BackgroundReasonCode → Option Value
reason_value none = none
reason_value (some c) = some (str (reason_name c))

-- `...(originalSharedWithWarning ? { originalSharedWithWarning: true } : {})`
abbrev pub flag_value : Bool → Option Value
flag_value true = some (bool true)
flag_value false = none

unfoldable pub item_fields : BackgroundPreparationItem → Fields
unfolding optional_field
item_fields i = field "itemId" (str i.item_id) (
    field "runId" (str i.run_id) (
      field "contextId" (str i.context_id) (
        field "relpath" (str i.relpath) (
          optional_field "publicRelpath" (text_value i.public_relpath) (
            optional_field "documentId" (text_value i.document_id) (
              field "kind" (str (kind_name i.kind)) (
                field "sourceArtifactPath" (str i.source_artifact_path) (
                  field "priority" (num i.priority) (
                    field "createdAt" (num i.created_at) (
                      optional_field "originalSharedWithWarning"
                        (flag_value i.original_shared_with_warning) end))))))))))

unfoldable pub idempotency_fields : IdempotencyInputs → Fields
idempotency_fields k = field "sourceContentHash" (str k.source_content_hash) (
    field "processorVersion" (str k.processor_version) (field "policyHash" (str k.policy_hash) end))

unfoldable pub record_fields : BackgroundRecord → Fields
unfolding item_fields idempotency_fields optional_field status_name reason_name
record_fields r = field "item" (obj (item_fields r.item)) (
    field "idempotencyKey" (str r.idempotency_key) (
      field "idempotency" (obj (idempotency_fields r.idempotency)) (
        field "status" (str (status_name r.status)) (
          optional_field "reasonCode" (reason_value r.reason_code) (
            field "elapsedMs" (num r.elapsed_ms) (
              field "schema" (num 1)
                (optional_field "preparedRelpath" (text_value r.prepared_relpath) end)))))))

-- `JSON.stringify(record)`
abbrev pub json_of : BackgroundRecord → Value
json_of r = obj (record_fields r)

-- The properties of a value; one that is no plain object has none of those that are read.
abbrev pub fields_of : Option Value → Fields
fields_of (some (obj fs)) = fs
fields_of _ = end

abbrev pub number_of : Option Value → Option ℕ
number_of (some (num n)) = some n
number_of _ = none

abbrev pub is_true : Option Value → Bool
is_true (some (bool b)) = b
is_true _ = false

-- What `normalizeRecord` makes: three texts that it casts, and the record around them.
pub record NormalizedRecord : Type 0 where
  pub kind : String
  pub status : String
  pub reason_code : Option String
  pub around :
      BackgroundPreparationKind
      → BackgroundPreparationStatus
      → Option BackgroundReasonCode
      → BackgroundRecord

unfoldable pub normalized_item :
    String → Fields → String → BackgroundPreparationKind → BackgroundPreparationItem
unfolding property
normalized_item item_id item relpath kind = record {
  item_id = get_or (text_of (property "itemId" item)) item_id;
  run_id = get_or (text_of (property "runId" item)) "";
  context_id = get_or (text_of (property "contextId" item)) "";
  relpath = relpath;
  public_relpath = text_of (property "publicRelpath" item);
  document_id = text_of (property "documentId" item);
  kind = kind;
  source_artifact_path = get_or (text_of (property "sourceArtifactPath" item)) "";
  priority = get_or (number_of (property "priority" item)) 0;
  created_at = get_or (number_of (property "createdAt" item)) 0;
  original_shared_with_warning = is_true (property "originalSharedWithWarning" item);
}

unfoldable pub normalized_inputs : Fields → IdempotencyInputs
unfolding property
normalized_inputs idem = record {
  source_content_hash = get_or (text_of (property "sourceContentHash" idem)) "";
  processor_version = get_or (text_of (property "processorVersion" idem)) "";
  policy_hash = get_or (text_of (property "policyHash" idem)) "";
}

abbrev normalize_fields : String → Fields → Fields → Fields → Option NormalizedRecord
normalize_fields item_id v item idem = do
  relpath ← text_of (property "relpath" item)
  kind_text ← text_of (property "kind" item)
  key ← text_of (property "idempotencyKey" v)
  status_text ← text_of (property "status" v)
  some (record {
    kind = kind_text;
    status = status_text;
    reason_code = text_of (property "reasonCode" v);
    around = λ kind status reason_code. record {
      item = normalized_item item_id item relpath kind;
      idempotency_key = key;
      idempotency = normalized_inputs idem;
      status = status;
      reason_code = reason_code;
      prepared_relpath = text_of (property "preparedRelpath" v);
      elapsed_ms = get_or (number_of (property "elapsedMs" v)) 0;
    };
  })

unfoldable pub normalize_record : String → Value → Option NormalizedRecord
unfolding property normalized_item normalized_inputs
normalize_record item_id (obj v) =
    normalize_fields item_id v (fields_of (property "item" v))
      (fields_of (property "idempotency" v))
normalize_record item_id _ = none

-- The values of the unions, by their texts.
unfoldable pub kind_named : String → Option BackgroundPreparationKind
kind_named name =
    if str_eq name "document-extraction"
    then some document_extraction
    else if str_eq name "ocr"
    then some ocr
    else if str_eq name "summarize-local"
    then some summarize_local
    else none

unfoldable pub status_named : String → Option BackgroundPreparationStatus
status_named name =
    if str_eq name "pending"
    then some pending
    else if str_eq name "processing"
    then some processing
    else if str_eq name "completed"
    then some completed
    else if str_eq name "failed"
    then some failed
    else if str_eq name "timed-out"
    then some timed_out
    else if str_eq name "cancelled"
    then some cancelled
    else if str_eq name "kept-local"
    then some kept_local
    else none

unfoldable pub reason_named : String → Option BackgroundReasonCode
reason_named name =
    if str_eq name "background-pending"
    then some background_pending
    else if str_eq name "background-processing"
    then some background_processing
    else if str_eq name "background-completed"
    then some background_completed
    else if str_eq name "background-cancelled"
    then some background_cancelled
    else if str_eq name "background-timeout"
    then some background_timeout
    else if str_eq name "background-provider-unavailable"
    then some background_provider_unavailable
    else if str_eq name "background-extraction-failed"
    then some background_extraction_failed
    else if str_eq name "background-ocr-unavailable"
    then some background_ocr_unavailable
    else if str_eq name "background-ocr-deferred"
    then some background_ocr_deferred
    else if str_eq name "background-safety-rejected"
    then some background_safety_rejected
    else if str_eq name "background-publication-failed"
    then some background_publication_failed
    else if str_eq name "background-state-corrupt"
    then some background_state_corrupt
    else none

abbrev pub reason_if_given : Option String → Option (Option BackgroundReasonCode)
reason_if_given none = some none
reason_if_given (some name) = do code ← reason_named name; some (some code)

unfoldable pub typed_record : NormalizedRecord → Option BackgroundRecord
unfolding kind_named status_named reason_named
typed_record n = do
  kind ← kind_named n.kind
  status ← status_named n.status
  code ← reason_if_given n.reason_code
  some (n.around kind status code)

-- What `load` reads from a file of this name: nothing where the text is not JSON or cannot be read.
unfoldable pub read_record : String → Option Value → Option BackgroundRecord
unfolding normalize_record typed_record
read_record item_id parsed = do value ← parsed; n ← normalize_record item_id value; typed_record n
