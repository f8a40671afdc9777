-- ===== src/Background/Queue.antt =====
-- packages/core/src/background/queue.ts: the durable book-keeping over the store.
pub mod Moves
use yuhi.Prelude.{
  ℕ, String, str_eq, Bool, true, false, not, ◌&&◌, ◌||◌, Option, none, some, List, [], ◌∷◌, ◌++◌,
  if◌then◌else◌,
}
use yuhi.Prelude.Assoc.{lookup}
use yuhi.Background.Types.{
  BackgroundPreparationResult, BackgroundPreparationStatus, pending, failed, timed_out, cancelled,
  kept_local, background_pending, background_cancelled, PublicBackgroundItem,
  default_reason_for_status, BackgroundRecord, is_pending, is_processing, is_completed,
}
use yuhi.Background.Store.{
  BackgroundStateStore, Patch, if_given, update, get, all, in_run, project_item,
}

-- `status(itemId)`
unfoldable pub status : String → BackgroundStateStore → Option PublicBackgroundItem
unfolding get
status item_id s = elim (get item_id s) [ none ↦ none | some r ↦ some (project_item r) ]

abbrev result_of : BackgroundRecord → BackgroundPreparationResult
result_of r = record {
  item_id = r.item.item_id;
  status = r.status;
  prepared_relpath = r.prepared_relpath;
  reason_code = if_given r.reason_code (default_reason_for_status r.status);
  elapsed_ms = r.elapsed_ms;
}

-- `result(itemId)`
unfoldable pub result : String → BackgroundStateStore → Option BackgroundPreparationResult
unfolding get default_reason_for_status
result item_id s = elim (get item_id s) [ none ↦ none | some r ↦ some (result_of r) ]

abbrev projected : Option BackgroundRecord → Option PublicBackgroundItem
projected none = none
projected (some r) = some (project_item r)

abbrev pub cancel_patch : Patch
cancel_patch = record {
  status = some cancelled;
  reason_code = some background_cancelled;
  prepared_relpath = none;
  elapsed_ms = none;
}

-- The patch names `preparedRelpath: undefined`, which `update` takes for a field that is absent.
abbrev pub retry_patch : Patch
retry_patch = record {
  status = some pending;
  reason_code = some background_pending;
  prepared_relpath = none;
  elapsed_ms = some 0;
}

abbrev pub update_and_project :
    String → Patch → BackgroundStateStore → Option PublicBackgroundItem × BackgroundStateStore
update_and_project item_id p s = let (o, s') = update item_id p s in (projected o, s')

unfoldable pub cancel :
    String → BackgroundStateStore → Option PublicBackgroundItem × BackgroundStateStore
unfolding get
cancel item_id s = elim (get item_id s) [
  | none ↦ (none, s)
  | some r ↦
      if is_pending r.status || is_processing r.status
      then update_and_project item_id cancel_patch s
      else (some (project_item r), s)
]

unfoldable pub retry :
    String → BackgroundStateStore → Option PublicBackgroundItem × BackgroundStateStore
unfolding get
retry item_id s = elim (get item_id s) [
  | none ↦ (none, s)
  | some r ↦
      if is_completed r.status
      then (some (project_item r), s)
      else update_and_project item_id retry_patch s
]

-- `retryable.has(status)`
abbrev pub is_retryable : Bool → BackgroundPreparationStatus → Bool
is_retryable failed_only failed = true
is_retryable failed_only timed_out = true
is_retryable failed_only cancelled = not failed_only
is_retryable failed_only kept_local = not failed_only
is_retryable failed_only _ = false

abbrev push_projected :
    List PublicBackgroundItem → Option BackgroundRecord → List PublicBackgroundItem
push_projected requeued none = requeued
push_projected requeued (some r) = requeued ++ project_item r ∷ []

-- One round of the loop of `retryTerminal`, over a record of the map.
unfoldable pub retry_round :
    Bool
    → Option String
    → BackgroundRecord
    → List PublicBackgroundItem × BackgroundStateStore
    → List PublicBackgroundItem × BackgroundStateStore
unfolding update
retry_round failed_only run_id r (requeued, s) =
    let (o, s') = update r.item.item_id retry_patch s in
    if not (in_run run_id r)
    then (requeued, s)
    else if not (is_retryable failed_only r.status)
    then (requeued, s)
    else (push_projected requeued o, s')

unfoldable pub retry_rounds :
    Bool
    → Option String
    → List BackgroundRecord
    → List PublicBackgroundItem × BackgroundStateStore
    → List PublicBackgroundItem × BackgroundStateStore
retry_rounds failed_only run_id [] acc = acc
retry_rounds failed_only run_id (r ∷ rs) acc =
    retry_rounds failed_only run_id rs (retry_round failed_only run_id r acc)

-- `all()` is copied before the first update; a round changes only the record that it is at.
unfoldable pub retry_terminal :
    Bool → Option String → BackgroundStateStore → List PublicBackgroundItem × BackgroundStateStore
unfolding retry_rounds retry_round
retry_terminal failed_only run_id s = retry_rounds failed_only run_id (all s) ([], s)
