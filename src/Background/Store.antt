-- ===== src/Background/Store.antt =====
-- packages/core/src/background/state-store.ts: the persistent store. `files` is the directory of
-- item files: what `persist` wrote under each item's id. A write that fails is not modelled. The
-- text of a file is the JSON value that it parses to, or `none`. The two SHA-256 digests
-- are parameters: of the six texts of an idempotency key, and of a key, cut to 24 digits.
pub mod Claims
pub mod Disk
pub mod Reload
pub mod Order
use yuhi.Prelude.{
  ℕ, String, ◌+++◌, str_eq, Bool, true, false, not, ◌&&◌, ◌||◌, Option, none, some, get_or, List,
  [], ◌∷◌, map, filter, ltb, ◌==◌, if◌then◌else◌,
}
use yuhi.Prelude.Assoc.{lookup, insert, values}
use yuhi.Prelude.Sort.{sort}
use yuhi.Native.Settings.{Value}
use yuhi.Background.Normalize.{read_record}
use yuhi.Background.Types.{
  BackgroundPreparationKind, document_extraction, kind_name, BackgroundPreparationItem,
  BackgroundPreparationStatus, pending, kept_local, BackgroundReasonCode, background_pending,
  background_state_corrupt, IdempotencyInputs, EnqueueInput, PublicBackgroundItem,
  default_reason_for_status, BackgroundRecord, is_live, is_pending, is_processing, is_corrupt,
}

pub record Digests : Type 0 where
  pub of_material : List String → String
  pub of_key : String → String

pub record BackgroundStateStore : Type 0 where
  pub records : List (String × BackgroundRecord)
  pub by_key : List (String × String)
  pub files : List (String × BackgroundRecord)

pub record EnqueueOutcome : Type 0 where
  pub entry : BackgroundRecord
  pub deduped : Bool

unfoldable pub idempotency_key :
    Digests → String → String → BackgroundPreparationKind → IdempotencyInputs → String
idempotency_key digests context_id relpath kind inputs = digests.of_material (
    context_id
    ∷ relpath
    ∷ inputs.source_content_hash
    ∷ kind_name kind
    ∷ inputs.processor_version
    ∷ inputs.policy_hash
    ∷ [])

unfoldable pub persist : BackgroundRecord → BackgroundStateStore → BackgroundStateStore
persist r s = record s { files = insert r.item.item_id r s.files }

-- The empty text is false as a condition.
abbrev pub truthy : Option String → Option String
truthy none = none
truthy (some id) = if str_eq id "" then none else some id

abbrev pub has : List (String × BackgroundRecord) → Option String → Bool
has records none = false
has records (some id) = elim (lookup id records) [ none ↦ false | some r ↦ true ]

-- The first record of a key keeps it as long as its id is in the map.
unfoldable pub index : BackgroundRecord → BackgroundStateStore → BackgroundStateStore
index r s =
    let records = insert r.item.item_id r s.records in
    let claimed = record s {
      records = records;
      by_key = insert r.idempotency_key r.item.item_id s.by_key;
    } in
    if is_corrupt r.reason_code
    then record s { records = records }
    else if has records (truthy (lookup r.idempotency_key s.by_key))
    then record s { records = records }
    else claimed

abbrev find : BackgroundStateStore → Option String → Option BackgroundRecord
find s none = none
find s (some id) = lookup id s.records

abbrev if_live : Option BackgroundRecord → Option BackgroundRecord
if_live none = none
if_live (some r) = if is_live r.status then some r else none

-- The live or completed record that a new piece of work of this key dedupes to.
unfoldable pub duplicate : String → BackgroundStateStore → Option BackgroundRecord
duplicate key s = if_live (find s (truthy (lookup key s.by_key)))

-- The record of a new piece of work; `now` is the clock's reading.
unfoldable pub new_record : Digests → ℕ → EnqueueInput → String → BackgroundRecord
new_record digests now input key = record {
  item = record {
    item_id = get_or input.item_id (digests.of_key key);
    run_id = input.run_id;
    context_id = input.context_id;
    relpath = input.relpath;
    public_relpath = truthy input.public_relpath;
    document_id = truthy input.document_id;
    kind = input.kind;
    source_artifact_path = input.source_artifact_path;
    priority = get_or input.priority 0;
    created_at = get_or input.created_at now;
    original_shared_with_warning = input.original_shared_with_warning;
  };
  idempotency_key = key;
  idempotency = input.inputs;
  status = pending;
  reason_code = some background_pending;
  prepared_relpath = none;
  elapsed_ms = 0;
}

abbrev pub key_of : Digests → EnqueueInput → String
key_of digests input =
    idempotency_key digests input.context_id input.relpath input.kind input.inputs

abbrev pub store_new :
    BackgroundRecord → BackgroundStateStore → EnqueueOutcome × BackgroundStateStore
store_new r s = (record { entry = r; deduped = false }, persist r (index r s))

unfoldable pub enqueue :
    Digests → ℕ → EnqueueInput → BackgroundStateStore → EnqueueOutcome × BackgroundStateStore
enqueue digests now input s = elim (duplicate (key_of digests input) s) [
  | some r ↦ (record { entry = r; deduped = true }, s)
  | none ↦ store_new (new_record digests now input (key_of digests input)) s
]

-- A field that is `undefined` in the patch is left as it is.
pub record Patch : Type 0 where
  pub status : Option BackgroundPreparationStatus
  pub reason_code : Option BackgroundReasonCode
  pub prepared_relpath : Option String
  pub elapsed_ms : Option ℕ

abbrev pub if_given {ℓ} : {A : Type ℓ} → Option A → Option A → Option A
if_given none old = old
if_given (some a) old = some a

unfoldable pub patched : Patch → BackgroundRecord → BackgroundRecord
patched p r = record r {
  status = get_or p.status r.status;
  reason_code = if_given p.reason_code r.reason_code;
  prepared_relpath = if_given p.prepared_relpath r.prepared_relpath;
  elapsed_ms = get_or p.elapsed_ms r.elapsed_ms;
}

-- The map holds the record that is assigned to; it is then persisted under the id of its item.
unfoldable pub update :
    String → Patch → BackgroundStateStore → Option BackgroundRecord × BackgroundStateStore
unfolding patched
update item_id p s = elim (lookup item_id s.records) [
  | none ↦ (none, s)
  | some r ↦ (
    some (patched p r),
    persist (patched p r) (record s { records = insert item_id (patched p r) s.records }),
  )
]

unfoldable pub get : String → BackgroundStateStore → Option BackgroundRecord
get item_id s = lookup item_id s.records

unfoldable pub all : BackgroundStateStore → List BackgroundRecord
unfolding values
all s = values s.records

abbrev pub in_run : Option String → BackgroundRecord → Bool
in_run none r = true
in_run (some run_id) r = str_eq r.item.run_id run_id

-- `b.priority - a.priority || a.createdAt - b.createdAt` is negative.
abbrev pub runs_before : BackgroundRecord → BackgroundRecord → Bool
runs_before a b =
    ltb b.item.priority a.item.priority
    || (a.item.priority == b.item.priority && ltb a.item.created_at b.item.created_at)

unfoldable pub pending_records : Option String → BackgroundStateStore → List BackgroundRecord
unfolding all filter sort
pending_records run_id s =
    sort runs_before (filter (λ r. is_pending r.status && in_run run_id r) (all s))

unfoldable pub project_item : BackgroundRecord → PublicBackgroundItem
unfolding default_reason_for_status
project_item r = record {
  item_id = r.item.item_id;
  run_id = r.item.run_id;
  context_id = r.item.context_id;
  relpath = r.item.relpath;
  public_relpath = truthy r.item.public_relpath;
  document_id = truthy r.item.document_id;
  kind = r.item.kind;
  priority = r.item.priority;
  created_at = r.item.created_at;
  status = r.status;
  reason_code = if_given r.reason_code (default_reason_for_status r.status);
  prepared_relpath = r.prepared_relpath;
  original_shared_with_warning = r.item.original_shared_with_warning;
}

unfoldable pub public_projection : Option String → BackgroundStateStore → List PublicBackgroundItem
unfolding all filter project_item
public_projection run_id s = map project_item (filter (in_run run_id) (all s))

-- The safe record of a file that cannot be read as one.
unfoldable pub corrupt_record : ℕ → String → BackgroundRecord
corrupt_record now item_id = record {
  item = record {
    item_id = item_id;
    run_id = "";
    context_id = "";
    relpath = "";
    public_relpath = none;
    document_id = none;
    kind = document_extraction;
    source_artifact_path = "";
    priority = 0;
    created_at = now;
    original_shared_with_warning = false;
  };
  idempotency_key = "corrupt:" +++ item_id;
  idempotency = record { source_content_hash = ""; processor_version = ""; policy_hash = "" };
  status = kept_local;
  reason_code = some background_state_corrupt;
  prepared_relpath = none;
  elapsed_ms = 0;
}

-- One file of the directory: its name without `.json`, and the record that `normalizeRecord` makes
-- of it, if it does.
unfoldable pub load_entry :
    ℕ → String → Option BackgroundRecord → BackgroundStateStore → BackgroundStateStore
unfolding index persist corrupt_record
load_entry now item_id none s = let r = corrupt_record now item_id in index r (persist r s)
load_entry now item_id (some r) s =
    let reset = record r { status = pending; reason_code = some background_pending } in
    if is_processing r.status then index reset (persist reset s) else index r s

unfoldable pub load_entries :
    ℕ → List (String × Option Value) → BackgroundStateStore → BackgroundStateStore
unfolding load_entry read_record
load_entries now [] s = s
load_entries now ((item_id, parsed) ∷ entries) s =
    load_entries now entries (load_entry now item_id (read_record item_id parsed) s)

-- `load`, of the values that the texts of the files parse to: the files that hold records stay on disk until they are written over.
unfoldable pub load :
    ℕ → List (String × Option Value) → List (String × BackgroundRecord) → BackgroundStateStore
unfolding load_entries
load now entries files =
    load_entries now entries (record { records = []; by_key = []; files = files })
