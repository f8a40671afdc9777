-- ===== src/Background/Worker/Tests.antt =====
-- The theorems on the worker and on durable cancellation at a concrete run.
use yuhi.Prelude.{
  ◌≡◌, refl, String, str_eq, Bool, true, false, ◌||◌, Option, none, some, [], ◌∷◌, filter, arith,
}
use yuhi.Prelude.Assoc.{lookup, values}
use yuhi.Prelude.Sort.{sort, insert_sorted}
use yuhi.Background.Types.{
  summarize_local, pending, processing, BackgroundPreparationStatus, BackgroundRecord,
}
use yuhi.Background.Store.{BackgroundStateStore, pending_records, all}
use yuhi.Background.Queue.{cancel, cancel_patch}
use yuhi.Background.Cancel.{
  CancelFile, request_item, request_run, is_cancelled, request-is_cancelled,
}
use yuhi.Background.Worker.{WorkerState, default_worker_config, new_worker, visit, launch, finalize}
use yuhi.Background.Worker.Steps.{begun, visited, launched, Reaches, start, next}
use yuhi.Background.Worker.Bounds.{IsBounded, run-IsBounded}
use yuhi.Background.Worker.Late.{finalize-cancel, IsOpen, Reaches-IsOpen}

abbrev earlier : Option CancelFile
earlier = some (record { run = none; items = some ("a" ∷ []) })

request-is_cancelled_example :
    (is_cancelled "b" (some (request_item "b" earlier))
      ≡ (is_cancelled "b" earlier || str_eq "b" "b"))
    × (is_cancelled "b" (some (request_run earlier)) ≡ true)
request-is_cancelled_example = request-is_cancelled "b" "b" earlier

abbrev summary : BackgroundPreparationStatus → BackgroundRecord
summary status = record {
  item = record {
    item_id = "id";
    run_id = "run";
    context_id = "ctx";
    relpath = "a.pdf";
    public_relpath = none;
    document_id = none;
    kind = summarize_local;
    source_artifact_path = "/a.pdf";
    priority = 0;
    created_at = 5;
    original_shared_with_warning = false;
  };
  idempotency_key = "key";
  idempotency = record { source_content_hash = "h"; processor_version = "1"; policy_hash = "p" };
  status = status;
  reason_code = none;
  prepared_relpath = none;
  elapsed_ms = 0;
}

abbrev store : BackgroundPreparationStatus → BackgroundStateStore
store status = record { records = ("id", summary status) ∷ []; by_key = []; files = [] }

abbrev nobody : String → Bool
nobody id = false

abbrev passing : WorkerState
passing = record (new_worker (store pending)) { pass = pending_records none (store pending) }

abbrev reserving : WorkerState
reserving = visit default_worker_config 10 nobody (summary pending) [] passing

abbrev running_one : WorkerState
running_one = launch (summary pending) reserving

to_running_one : Reaches default_worker_config none (new_worker (store pending)) running_one
unfolding new_worker pending_records all values filter sort insert_sorted visit
to_running_one =
    next (next (next start (begun refl refl)) (visited 10 nobody (summary pending) [] refl refl))
      (launched (summary pending) refl)

run-IsBounded_example : IsBounded default_worker_config running_one
run-IsBounded_example =
    run-IsBounded default_worker_config none (store pending) running_one to_running_one

finalize-cancel_example :
    finalize (summary processing) cancel_patch (cancel "id" (store processing)).1
    ≡ (cancel "id" (store processing)).1
unfolding lookup
finalize-cancel_example =
    finalize-cancel (summary processing) cancel_patch (store processing) (summary processing) refl

-- A state in which a summary timed out, and the pass goes on to another.
abbrev tripped : WorkerState
tripped = record (new_worker (store pending)) {
  summarize_circuit_open = true;
  pass = summary pending ∷ [];
}

tripped-IsOpen : IsOpen 0 tripped
unfolding new_worker
tripped-IsOpen = record { open_circuit = refl; reserved = tt; summaries = omega arith }

after_tripped :
    Reaches default_worker_config none tripped
      (visit default_worker_config 10 nobody (summary pending) [] tripped)
unfolding new_worker
after_tripped = next start (visited 10 nobody (summary pending) [] refl refl)

Reaches-IsOpen_example :
    IsOpen 0 (visit default_worker_config 10 nobody (summary pending) [] tripped)
Reaches-IsOpen_example =
    Reaches-IsOpen default_worker_config none 0 tripped
      (visit default_worker_config 10 nobody (summary pending) [] tripped) after_tripped
      tripped-IsOpen
