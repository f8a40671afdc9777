-- ===== src/Background/Tests.antt =====
-- The theorems on the background store and queue at concrete stores.
use yuhi.Prelude.{
  ℕ, String, str_eq, eq_iff, ◌≡◌, refl, true, false, Option, none, some, [], ◌∷◌, map, arith,
  if◌then◌else◌, All,
}
use yuhi.Prelude.Assoc.{lookup}
use yuhi.Prelude.Sort.{total}
use yuhi.Background.Normalize.{json_of, read_record}
use yuhi.Background.Normalize.RoundTrip.{read_record-json_of}
use yuhi.Background.Types.{
  completed, background_completed, document_extraction, BackgroundPreparationStatus, pending,
  processing, failed, EnqueueInput, BackgroundRecord,
}
use yuhi.Background.Store.{
  Digests, BackgroundStateStore, idempotency_key, key_of, duplicate, new_record, enqueue, update,
  all, pending_records, load,
}
use yuhi.Background.Store.Claims.{IsDerived, enqueue_twice, renamed_enqueue_not_deduped}
use yuhi.Background.Store.Disk.{IsMirrored}
use yuhi.Background.Store.Reload.{IsFiled, files_keep_up, written, or_else, reload_recovers}
use yuhi.Background.Store.Order.{IsByPriority, is_due, pending_records-ordered}
use yuhi.Background.Queue.{cancel, cancel_patch, retry}
use yuhi.Background.Queue.Moves.{
  map_record, cancelled_record, retried_record, lookup-cancel, lookup-retry,
}

abbrev digests : Digests
digests = record { of_material = λ parts. "key"; of_key = λ key. "id" }

abbrev work : Option String → EnqueueInput
work item_id = record {
  inputs = record { source_content_hash = "h"; processor_version = "1"; policy_hash = "p" };
  run_id = "run";
  context_id = "ctx";
  relpath = "a.pdf";
  public_relpath = none;
  document_id = none;
  kind = document_extraction;
  source_artifact_path = "/a.pdf";
  priority = some 2;
  item_id = item_id;
  created_at = some 5;
  original_shared_with_warning = false;
}

abbrev empty : BackgroundStateStore
empty = record { records = []; by_key = []; files = [] }

empty-IsDerived : IsDerived digests empty
unfolding lookup
empty-IsDerived = record { claimed = λ key id h. ground arith; named = λ key. refl }

enqueue_twice_example : enqueue digests 9 (work none) (enqueue digests 5 (work none) empty).1 ≡ (
  record { entry = (enqueue digests 5 (work none) empty).0.entry; deduped = true },
  (enqueue digests 5 (work none) empty).1,
)
enqueue_twice_example =
    enqueue_twice digests 5 9 (work none) (work none) empty empty-IsDerived refl refl

-- The record of the work under the id "id", at a status.
abbrev at_status : BackgroundPreparationStatus → BackgroundRecord
at_status status = record {
  item = record {
    item_id = "id";
    run_id = "run";
    context_id = "ctx";
    relpath = "a.pdf";
    public_relpath = none;
    document_id = none;
    kind = document_extraction;
    source_artifact_path = "/a.pdf";
    priority = 2;
    created_at = 5;
    original_shared_with_warning = false;
  };
  idempotency_key = "key";
  idempotency = (work none).inputs;
  status = status;
  reason_code = none;
  prepared_relpath = none;
  elapsed_ms = 0;
}

abbrev store_at : BackgroundPreparationStatus → BackgroundStateStore
store_at status = record {
  records = ("id", at_status status) ∷ [];
  by_key = ("key", "id") ∷ [];
  files = ("id", at_status status) ∷ [];
}

abbrev renamed : EnqueueInput
renamed = work (some "mine")

renamed_enqueue_not_deduped_example :
    (lookup "mine" (enqueue digests 9 renamed (store_at failed)).1.records
      ≡ some (new_record digests 9 renamed (key_of digests renamed)))
    × (duplicate (key_of digests renamed) (enqueue digests 9 renamed (store_at failed)).1 ≡ none)
unfolding lookup idempotency_key
renamed_enqueue_not_deduped_example =
    renamed_enqueue_not_deduped digests 9 renamed (store_at failed) "id" "mine" (at_status failed)
      refl refl refl refl refl (λ e. absurd (ground (arith, eq_iff "id" "mine")))

store-IsMirrored : IsMirrored (store_at processing)
unfolding lookup
store-IsMirrored = record { keyed = λ id r h. ground (arith, eq_iff "id" id); on_disk = λ id. refl }

store-IsFiled : IsFiled (store_at processing).files
unfolding lookup
store-IsFiled = ((refl, tt), (refl, tt))

files_keep_up_example :
    (IsMirrored (enqueue digests 9 renamed (store_at processing)).1
      × IsFiled (enqueue digests 9 renamed (store_at processing)).1.files)
    × (IsMirrored (update "id" cancel_patch (store_at processing)).1
        × IsFiled (update "id" cancel_patch (store_at processing)).1.files)
files_keep_up_example =
    files_keep_up digests 9 renamed "id" cancel_patch (store_at processing) store-IsMirrored
      store-IsFiled

abbrev published : BackgroundRecord
published = record (at_status completed) {
  reason_code = some background_completed;
  prepared_relpath = some "a.md";
}

read_record-json_of_example : read_record "other" (some (json_of published)) ≡ some published
read_record-json_of_example = read_record-json_of "other" published

reload_recovers_example :
    lookup "id"
      (load 9 (map written (store_at processing).files) (store_at processing).files).records
    ≡ or_else (lookup "id" (store_at processing).records) none
reload_recovers_example =
    reload_recovers 9 (store_at processing) "id" store-IsMirrored store-IsFiled

abbrev weigh : BackgroundRecord → ℕ
weigh r = 1

pending_records-ordered_example :
    IsByPriority (pending_records (some "run") (store_at pending))
    × All (λ r. is_due (some "run") r ≡ true) (pending_records (some "run") (store_at pending))
    × (total weigh (pending_records (some "run") (store_at pending))
        ≡ total (λ r. if is_due (some "run") r then weigh r else 0) (all (store_at pending)))
pending_records-ordered_example = pending_records-ordered (some "run") (store_at pending) weigh

lookup-cancel_example : lookup "id" (cancel "id" (store_at processing)).1.records ≡ (
    if str_eq "id" "id"
    then map_record cancelled_record (lookup "id" (store_at processing).records)
    else lookup "id" (store_at processing).records)
lookup-cancel_example = lookup-cancel "id" "id" (store_at processing)

lookup-retry_example : lookup "id" (retry "id" (store_at failed)).1.records ≡ (
    if str_eq "id" "id"
    then map_record retried_record (lookup "id" (store_at failed).records)
    else lookup "id" (store_at failed).records)
lookup-retry_example = lookup-retry "id" "id" (store_at failed)
