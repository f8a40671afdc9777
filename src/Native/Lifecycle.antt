-- ===== src/Native/Lifecycle.antt =====
-- packages/context-gateway/src/native/lifecycle.ts: the validated state machine of a session and
-- the recorder that drives it. The two files that it writes are fields of the recorder: the event
-- log that `append` adds to, and the session record that `persist` overwrites. The clock is a
-- function from the number of the reading to its text, and `readings` counts them. A failing write,
-- which rejects the promise, is not modelled.
pub mod Traces
use yuhi.Prelude.{
  ℕ, suc, String, ◌+++◌, Bool, true, false, not, Option, none, some, get_or, List, [], ◌∷◌, ◌++◌,
  if◌then◌else◌, any, ◌==◌,
}
use yuhi.Native.State.{
  NativeSessionState, created, preparing, prepared, gateway_starting, gateway_ready,
  profile_provisioning, extension_installing, vscode_launching, vscode_started, vscode_attaching,
  vscode_attached, claude_activating, claude_ready, active, closing, closed, failed, orphaned,
  cleanup_failed, state_name, NativeSessionCloseReason, ClientSurface, native_gui, IntegrationPath,
  PublicSessionRecord, LifecycleEvent,
}

unfoldable pub allowed : NativeSessionState → List NativeSessionState
allowed created = preparing ∷ prepared ∷ failed ∷ closing ∷ []
allowed preparing = prepared ∷ failed ∷ closing ∷ []
allowed prepared = gateway_starting ∷ failed ∷ closing ∷ []
allowed gateway_starting = gateway_ready ∷ failed ∷ closing ∷ []
allowed gateway_ready = profile_provisioning ∷ failed ∷ closing ∷ []
allowed profile_provisioning = extension_installing ∷ vscode_launching ∷ failed ∷ closing ∷ []
allowed extension_installing = extension_installing ∷ vscode_launching ∷ failed ∷ closing ∷ []
allowed vscode_launching = vscode_started ∷ failed ∷ closing ∷ []
allowed vscode_started = vscode_attaching ∷ failed ∷ closing ∷ orphaned ∷ []
allowed vscode_attaching = vscode_attached ∷ failed ∷ closing ∷ orphaned ∷ []
allowed vscode_attached = claude_activating ∷ failed ∷ closing ∷ orphaned ∷ []
allowed claude_activating = claude_ready ∷ failed ∷ closing ∷ orphaned ∷ []
allowed claude_ready = active ∷ failed ∷ closing ∷ orphaned ∷ []
allowed active = closing ∷ failed ∷ orphaned ∷ []
allowed closing = closed ∷ cleanup_failed ∷ []
allowed closed = []
allowed failed = closing ∷ closed ∷ []
allowed orphaned = closing ∷ closed ∷ cleanup_failed ∷ []
allowed cleanup_failed = closing ∷ closed ∷ []

-- `===` on two states: the position in the union tells them apart.
abbrev pub index : NativeSessionState → ℕ
index created = 0
index preparing = 1
index prepared = 2
index gateway_starting = 3
index gateway_ready = 4
index profile_provisioning = 5
index extension_installing = 6
index vscode_launching = 7
index vscode_started = 8
index vscode_attaching = 9
index vscode_attached = 10
index claude_activating = 11
index claude_ready = 12
index active = 13
index closing = 14
index closed = 15
index failed = 16
index orphaned = 17
index cleanup_failed = 18

unfoldable pub same_state : NativeSessionState → NativeSessionState → Bool
same_state a b = index a == index b

unfoldable pub can_transition : NativeSessionState → NativeSessionState → Bool
unfolding allowed any same_state
can_transition from to = any (same_state to) (allowed from)

pub record LifecycleRecorderOptions : Type 0 where
  pub session_id : String
  pub workspace_hash : String
  pub source_workspace_id : String
  pub delivery_mode : String
  pub privacy_mode : Option String
  pub retrieval_mode : String
  pub client_surface : Option ClientSurface
  pub now : ℕ → String

pub record LifecycleRecorder : Type 0 where
  pub options : LifecycleRecorderOptions
  pub current : NativeSessionState
  pub created_at : String
  pub claude_extension_id : Option String
  pub claude_extension_version : Option String
  pub vscode_version : Option String
  pub integration_path : Option IntegrationPath
  pub close_reason : Option NativeSessionCloseReason
  pub readings : ℕ
  pub lifecycle_log : List LifecycleEvent
  pub session_record : Option PublicSessionRecord

-- The constructor reads the clock once.
unfoldable pub new_recorder : LifecycleRecorderOptions → LifecycleRecorder
new_recorder o = record {
  options = o;
  current = created;
  created_at = o.now 0;
  claude_extension_id = none;
  claude_extension_version = none;
  vscode_version = none;
  integration_path = none;
  close_reason = none;
  readings = 1;
  lifecycle_log = [];
  session_record = none;
}

-- `if (x !== undefined) this.y = x`
abbrev if_given {ℓ} : {A : Type ℓ} → Option A → Option A → Option A
if_given none old = old
if_given (some a) old = some a

unfoldable pub describe :
    LifecycleRecorder
    → Option String
    → Option String
    → Option String
    → Option IntegrationPath
    → LifecycleRecorder
describe r id version vscode path = record r {
  claude_extension_id = if_given id r.claude_extension_id;
  claude_extension_version = if_given version r.claude_extension_version;
  vscode_version = if_given vscode r.vscode_version;
  integration_path = if_given path r.integration_path;
}

-- `record()`, at the clock's next reading
unfoldable pub public_record : LifecycleRecorder → PublicSessionRecord
public_record r = record {
  schema_version = 1;
  session_id = r.options.session_id;
  state = r.current;
  client_surface = get_or r.options.client_surface native_gui;
  workspace_hash = r.options.workspace_hash;
  source_workspace_id = r.options.source_workspace_id;
  created_at = r.created_at;
  updated_at = r.options.now r.readings;
  delivery_mode = r.options.delivery_mode;
  privacy_mode = r.options.privacy_mode;
  retrieval_mode = r.options.retrieval_mode;
  claude_extension_id = r.claude_extension_id;
  claude_extension_version = r.claude_extension_version;
  vscode_version = r.vscode_version;
  integration_path = r.integration_path;
  close_reason = r.close_reason;
}

unfoldable pub persist : LifecycleRecorder → LifecycleRecorder
unfolding public_record
persist r = record r { session_record = some (public_record r); readings = suc r.readings }

unfoldable pub append :
    LifecycleRecorder → NativeSessionState → NativeSessionState → Option String → LifecycleRecorder
append r from to reason =
    let event : LifecycleEvent = record {
      ts = r.options.now r.readings;
      session_id = r.options.session_id;
      from = some from;
      to = to;
      reason = reason;
    } in
    record r { lifecycle_log = r.lifecycle_log ++ event ∷ []; readings = suc r.readings }

abbrev illegal_reason : NativeSessionState → NativeSessionState → String
illegal_reason from to = "illegal-transition:" +++ (state_name from +++ ("->" +++ state_name to))

-- The callback `onIllegalTransition` only reports, and is left out.
unfoldable pub transition :
    LifecycleRecorder
    → NativeSessionState
    → Option String
    → Option NativeSessionCloseReason
    → LifecycleRecorder
unfolding same_state can_transition append persist
transition r to reason why =
    if same_state r.current to
    then r
    else if not (can_transition r.current to)
    then persist (
        append (record r { current = failed }) r.current failed
          (some (illegal_reason r.current to)))
    else persist (
        append (record r { current = to; close_reason = if_given why r.close_reason }) r.current to
          reason)
