-- ===== src/Background/Worker.antt =====
-- packages/core/src/background/worker.ts: the bounded worker. What the source does between two
-- `await`s is one step; the steps of the loop, of the tasks in flight and of other users of the
-- store interleave (Worker/Steps). The clock's readings, the processors' outcomes, the publisher's
-- answers and the durable cancellations are given to the steps. The hook `onSettled` writes the
-- public status, and is left out.
mod Tests
pub mod Steps
pub mod Bounds
pub mod Late
use yuhi.Prelude.{
  ℕ, suc, ◌-◌, String, Bool, true, false, not, ◌&&◌, ◌||◌, Option, none, some, get_or, List, [],
  ◌∷◌, ◌++◌, ltb, leb, if◌then◌else◌,
}
use yuhi.Background.Types.{
  BackgroundPreparationKind, document_extraction, ocr, summarize_local, BackgroundPreparationStatus,
  processing, completed, failed, timed_out, cancelled, kept_local, BackgroundReasonCode,
  background_processing, background_completed, background_cancelled, background_timeout,
  background_provider_unavailable, background_extraction_failed, background_ocr_unavailable,
  BackgroundRecord, is_processing,
}
use yuhi.Background.Store.{BackgroundStateStore, Patch, update, get, pending_records}

pub record WorkerConfig : Type 0 where
  pub concurrency : BackgroundPreparationKind → ℕ
  pub per_item_timeout_ms : ℕ
  pub total_budget_ms : ℕ
  pub max_calls : ℕ

-- `Partial<WorkerConfig>`; a part of the concurrency that is not given is `none`.
pub record WorkerConfigPatch : Type 0 where
  pub concurrency : BackgroundPreparationKind → Option ℕ
  pub per_item_timeout_ms : Option ℕ
  pub total_budget_ms : Option ℕ
  pub max_calls : Option ℕ

abbrev default_concurrency : BackgroundPreparationKind → ℕ
default_concurrency document_extraction = 2
default_concurrency ocr = 1
default_concurrency summarize_local = 1

abbrev pub default_worker_config : WorkerConfig
default_worker_config = record {
  concurrency = default_concurrency;
  per_item_timeout_ms = 10000;
  total_budget_ms = 60000;
  max_calls = 50;
}

unfoldable pub merge_config : WorkerConfig → Option WorkerConfigPatch → WorkerConfig
merge_config base none = base
merge_config base (some patch) = record {
  concurrency = λ kind. get_or (patch.concurrency kind) (base.concurrency kind);
  per_item_timeout_ms = get_or patch.per_item_timeout_ms base.per_item_timeout_ms;
  total_budget_ms = get_or patch.total_budget_ms base.total_budget_ms;
  max_calls = get_or patch.max_calls base.max_calls;
}

abbrev pub same_kind : BackgroundPreparationKind → BackgroundPreparationKind → Bool
same_kind document_extraction document_extraction = true
same_kind ocr ocr = true
same_kind summarize_local summarize_local = true
same_kind _ _ = false

abbrev pub is_summarize : BackgroundPreparationKind → Bool
is_summarize summarize_local = true
is_summarize _ = false

-- The variables of `run`. `pass` is what is left of the array that the inner loop walks, and
-- `reserved` the record whose reservation is being written. The tasks of `inFlight` are those whose
-- outcome is still to come, and those that have written it, with what `execute` answers.
pub record WorkerState : Type 0 where
  pub store : BackgroundStateStore
  pub active : BackgroundPreparationKind → ℕ
  pub calls_made : ℕ
  pub summarize_circuit_open : Bool
  pub pass : List BackgroundRecord
  pub reserved : Option BackgroundRecord
  pub in_flight : List BackgroundRecord
  pub finished : List (BackgroundRecord × Bool)

unfoldable pub new_worker : BackgroundStateStore → WorkerState
new_worker s = record {
  store = s;
  active = λ kind. 0;
  calls_made = 0;
  summarize_circuit_open = false;
  pass = [];
  reserved = none;
  in_flight = [];
  finished = [];
}

abbrev patch_to :
    BackgroundPreparationStatus → BackgroundReasonCode → Option String → Option ℕ → Patch
patch_to status reason prepared_relpath elapsed_ms = record {
  status = some status;
  reason_code = some reason;
  prepared_relpath = prepared_relpath;
  elapsed_ms = elapsed_ms;
}

abbrev pub write : BackgroundRecord → Patch → BackgroundStateStore → BackgroundStateStore
write r p s = (update r.item.item_id p s).1

-- The cancellation of a pending item, by a durable request or by the signal of the whole run.
unfoldable pub cancel_pending : BackgroundRecord → BackgroundStateStore → BackgroundStateStore
unfolding update
cancel_pending r s = write r (patch_to cancelled background_cancelled none (some 0)) s

unfoldable pub shed : BackgroundRecord → BackgroundStateStore → BackgroundStateStore
unfolding update
shed r s = write r (patch_to kept_local background_provider_unavailable none (some 0)) s

abbrev pub budget_exceeded : WorkerConfig → ℕ → WorkerState → Bool
budget_exceeded config elapsed w =
    leb config.total_budget_ms elapsed || leb config.max_calls w.calls_made

-- `Math.max(1, config.concurrency[kind] ?? 1)`
abbrev pub limit : WorkerConfig → BackgroundPreparationKind → ℕ
limit config kind = if leb 1 (config.concurrency kind) then config.concurrency kind else 1

-- One round of the inner loop, up to its first `await`: `elapsed` is the time since the start.
unfoldable pub visit :
    WorkerConfig
    → ℕ
    → (String → Bool)
    → BackgroundRecord
    → List BackgroundRecord
    → WorkerState
    → WorkerState
unfolding cancel_pending shed update
visit config elapsed is_cancelled r rest w =
    let left = record w { pass = rest } in
    if is_cancelled r.item.item_id
    then record left { store = cancel_pending r w.store }
    else if budget_exceeded config elapsed w
    then record left { store = shed r w.store }
    else if is_summarize r.item.kind && w.summarize_circuit_open
    then record left { store = shed r w.store }
    else if leb (limit config r.item.kind) (w.active r.item.kind)
    then left
    else record left {
      store = write r (patch_to processing background_processing none none) w.store;
      reserved = some r;
    }

-- The rest of the round, once the reservation is written.
unfoldable pub launch : BackgroundRecord → WorkerState → WorkerState
launch r w = record w {
  active = λ kind. if same_kind r.item.kind kind then suc (w.active kind) else w.active kind;
  calls_made = suc w.calls_made;
  reserved = none;
  in_flight = w.in_flight ++ r ∷ [];
}

pub data PublishOutcome : Type 0 where
  published : String → PublishOutcome
  rejected : BackgroundReasonCode → PublishOutcome
  publish_failed : BackgroundReasonCode → PublishOutcome

pub data ProcessorError : Type 0 where
  keep_local : BackgroundReasonCode → ProcessorError
  unavailable : ProcessorError
  other_error : ProcessorError

-- How a task ends: there is no processor, the work under its deadline ends in one of four ways, or
-- something throws. With `ok` comes the publisher's answer, which is asked for only without a cancel.
pub data TaskOutcome : Type 0 where
  no_processor : TaskOutcome
  ok : PublishOutcome → ℕ → TaskOutcome
  timeout : ℕ → TaskOutcome
  error : ProcessorError → ℕ → TaskOutcome
  aborted : ℕ → TaskOutcome
  thrown : TaskOutcome

-- The patch of an outcome, and whether it opens the circuit.
abbrev Ending : Type 0
Ending = Patch × Bool

abbrev published_ending : PublishOutcome → ℕ → Ending
published_ending (published relpath) ms =
    (patch_to completed background_completed (some relpath) (some ms), false)
published_ending (rejected reason) ms = (patch_to kept_local reason none (some ms), false)
published_ending (publish_failed reason) ms = (patch_to failed reason none (some ms), false)

abbrev unavailable_ending : BackgroundPreparationKind → ℕ → Ending
unavailable_ending summarize_local ms =
    (patch_to kept_local background_provider_unavailable none (some ms), true)
unavailable_ending ocr ms = (patch_to kept_local background_ocr_unavailable none (some ms), false)
unavailable_ending document_extraction ms =
    (patch_to kept_local background_provider_unavailable none (some ms), false)

-- `execute`: the arguments of its one call of `finalize`, and its answer. `cancel_seen` is whether a
-- durable cancel is there once the provider has answered.
unfoldable pub ending : BackgroundPreparationKind → Bool → TaskOutcome → Patch × Bool
ending kind cancel_seen no_processor =
    (patch_to kept_local background_provider_unavailable none (some 0), is_summarize kind)
ending kind cancel_seen (aborted ms) =
    (patch_to cancelled background_cancelled none (some ms), false)
ending kind cancel_seen (timeout ms) =
    (patch_to timed_out background_timeout none (some ms), is_summarize kind)
ending kind cancel_seen (error (keep_local reason) ms) =
    (patch_to kept_local reason none (some ms), false)
ending kind cancel_seen (error unavailable ms) = unavailable_ending kind ms
ending kind cancel_seen (error other_error ms) =
    (patch_to failed background_extraction_failed none (some ms), false)
ending kind cancel_seen (ok answer ms) =
    if cancel_seen
    then (patch_to cancelled background_cancelled none (some ms), false)
    else published_ending answer ms
ending kind cancel_seen thrown = (patch_to failed background_extraction_failed none (some 0), false)

-- `current && current.status !== "processing"`
abbrev pub has_moved : Option BackgroundRecord → Bool
has_moved none = false
has_moved (some current) = not (is_processing current.status)

unfoldable pub finalize : BackgroundRecord → Patch → BackgroundStateStore → BackgroundStateStore
unfolding update get
finalize r p s = if has_moved (get r.item.item_id s) then s else write r p s

-- The outcome of a task is written; `others` are the tasks whose outcome is still to come.
unfoldable pub settle :
    BackgroundRecord → List BackgroundRecord → Bool → TaskOutcome → WorkerState → WorkerState
unfolding ending finalize
settle r others cancel_seen outcome w =
    let (p, opened) = ending r.item.kind cancel_seen outcome in
    record w {
      store = finalize r p w.store;
      in_flight = others;
      finished = (r, opened) ∷ w.finished;
    }

-- What a task does once `execute` has answered.
unfoldable pub retire :
    BackgroundRecord → Bool → List (BackgroundRecord × Bool) → WorkerState → WorkerState
retire r opened others w = record w {
  active = λ kind. if same_kind r.item.kind kind then w.active kind - 1 else w.active kind;
  summarize_circuit_open = if opened then true else w.summarize_circuit_open;
  finished = others;
}

-- What is cancelled once the signal of the run stops the loop.
unfoldable pub cancel_all : List BackgroundRecord → BackgroundStateStore → BackgroundStateStore
unfolding cancel_pending
cancel_all [] s = s
cancel_all (r ∷ rs) s = cancel_all rs (cancel_pending r s)

unfoldable pub abort : Option String → WorkerState → WorkerState
unfolding cancel_all pending_records
abort run_id w = record w { store = cancel_all (pending_records run_id w.store) w.store }
