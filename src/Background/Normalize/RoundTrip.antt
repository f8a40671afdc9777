-- ===== src/Background/Normalize/RoundTrip.antt =====
-- A record that is written and read back.
use yuhi.Prelude.{arith, String, ◌≡◌, refl, Option, none, some}
use yuhi.Native.Settings.{str, num, obj, property, text_of}
use yuhi.Background.Types.{
  BackgroundPreparationKind, document_extraction, ocr, summarize_local, kind_name,
  IdempotencyInputs, BackgroundPreparationItem, BackgroundPreparationStatus, pending, processing,
  completed, failed, timed_out, cancelled, kept_local, BackgroundReasonCode, background_pending,
  background_processing, background_completed, background_cancelled, background_timeout,
  background_provider_unavailable, background_extraction_failed, background_ocr_unavailable,
  background_ocr_deferred, background_safety_rejected, background_publication_failed,
  background_state_corrupt, BackgroundRecord,
}
use yuhi.Background.Normalize.{
  status_name, reason_name, text_value, reason_value, item_fields, idempotency_fields,
  record_fields, json_of, normalized_item, normalized_inputs, normalize_record, kind_named,
  status_named, reason_named, reason_if_given, typed_record, read_record,
}

kind_named-kind_name : (k : BackgroundPreparationKind) → kind_named (kind_name k) ≡ some k
unfolding kind_named
kind_named-kind_name document_extraction = refl
kind_named-kind_name ocr = refl
kind_named-kind_name summarize_local = refl

status_named-status_name : (s : BackgroundPreparationStatus) → status_named (status_name s) ≡ some s
unfolding status_named status_name
status_named-status_name pending = refl
status_named-status_name processing = refl
status_named-status_name completed = refl
status_named-status_name failed = refl
status_named-status_name timed_out = refl
status_named-status_name cancelled = refl
status_named-status_name kept_local = refl

reason_named-reason_name : (c : BackgroundReasonCode) → reason_named (reason_name c) ≡ some c
unfolding reason_named reason_name
reason_named-reason_name background_pending = refl
reason_named-reason_name background_processing = refl
reason_named-reason_name background_completed = refl
reason_named-reason_name background_cancelled = refl
reason_named-reason_name background_timeout = refl
reason_named-reason_name background_provider_unavailable = refl
reason_named-reason_name background_extraction_failed = refl
reason_named-reason_name background_ocr_unavailable = refl
reason_named-reason_name background_ocr_deferred = refl
reason_named-reason_name background_safety_rejected = refl
reason_named-reason_name background_publication_failed = refl
reason_named-reason_name background_state_corrupt = refl

normalized_item-item_fields :
    (item_id : String) (i : BackgroundPreparationItem)
    → normalized_item item_id (item_fields i) i.relpath i.kind ≡ i
unfolding normalized_item item_fields property
normalized_item-item_fields item_id i = ground arith

item_texts :
    (i : BackgroundPreparationItem)
    → (text_of (property "relpath" (item_fields i)) ≡ some i.relpath)
      × (text_of (property "kind" (item_fields i)) ≡ some (kind_name i.kind))
unfolding item_fields property
item_texts i = ground arith

normalized_inputs-idempotency_fields :
    (k : IdempotencyInputs) → normalized_inputs (idempotency_fields k) ≡ k
unfolding normalized_inputs idempotency_fields property
normalized_inputs-idempotency_fields k = refl

reason_if_given-reason_value :
    (o : Option BackgroundReasonCode) → reason_if_given (text_of (reason_value o)) ≡ some o
reason_if_given-reason_value none = refl
reason_if_given-reason_value (some c) = rw (reason_named-reason_name c) refl

-- The properties that are read of the outer object.
record_properties :
    (r : BackgroundRecord)
    → (property "item" (record_fields r) ≡ some (obj (item_fields r.item)))
      × (property "idempotency" (record_fields r) ≡ some (obj (idempotency_fields r.idempotency)))
      × (property "idempotencyKey" (record_fields r) ≡ some (str r.idempotency_key))
      × (property "status" (record_fields r) ≡ some (str (status_name r.status)))
      × (property "reasonCode" (record_fields r) ≡ reason_value r.reason_code)
      × (property "preparedRelpath" (record_fields r) ≡ text_value r.prepared_relpath)
      × (property "elapsedMs" (record_fields r) ≡ some (num r.elapsed_ms))
unfolding record_fields property
record_properties r = ground arith

text_of-text_value : (o : Option String) → text_of (text_value o) ≡ o
text_of-text_value none = refl
text_of-text_value (some s) = refl

-- A record that is written to its file and read back under any name is the same record.
pub read_record-json_of :
    (item_id : String) (r : BackgroundRecord) → read_record item_id (some (json_of r)) ≡ some r
unfolding read_record normalize_record typed_record
read_record-json_of item_id r =
    let (item, idem, key, status, reason, prepared, elapsed) = record_properties r in
    let (relpath, kind) = item_texts r.item in
    rw
      (
        item,
        idem,
        relpath,
        kind,
        key,
        status,
        reason,
        prepared,
        elapsed,
        kind_named-kind_name r.item.kind,
        status_named-status_name r.status,
        reason_if_given-reason_value r.reason_code,
        normalized_item-item_fields item_id r.item,
        normalized_inputs-idempotency_fields r.idempotency,
        text_of-text_value r.prepared_relpath,
      )
      refl
