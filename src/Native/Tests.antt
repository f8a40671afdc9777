-- ===== src/Native/Tests.antt =====
-- The theorems on sessions at concrete sessions, locks, settings and directories.
use yuhi.Prelude.{
  ℕ, String, str_eq, ◌≡◌, refl, ◌↔◌, true, false, Option, none, some, List, [], ◌∷◌, map, arith,
  any, if◌then◌else◌, inr,
}
use yuhi.Native.State.{
  NativeSessionState, created, prepared, gateway_starting, gateway_ready, profile_provisioning,
  vscode_launching, vscode_started, vscode_attaching, vscode_attached, active, closing, native_gui,
  is_terminal, PublicSessionRecord,
}
use yuhi.Native.Lifecycle.{
  LifecycleRecorderOptions, LifecycleRecorder, new_recorder, transition, same_state, can_transition,
  append, persist, public_record, allowed,
}
use yuhi.Native.Lifecycle.Traces.{
  Call, transitioned, persisted, run, call, Chain, run-Chain, enters, recorded_active_attached,
  has_ended, run-has_ended,
}
use yuhi.Native.Lock.{SessionLock, held, LockEnvironment, LockFile, touch_lock, evaluate_lock}
use yuhi.Native.Lock.Liveness.{IsHeld, evaluate_lock-held_iff, touch_lock-held}
use yuhi.Native.Settings.{
  Value, str, arr, obj, Items, nil, cons, Fields, end, field, property, NativeGuiEnvironment,
  native_gui_environment, managed_entries, is_managed, written, items_of,
  merge_environment_variables,
}
use yuhi.Native.Settings.Unique.{merge-IsUnique}
use yuhi.Native.Settings.Merge.{IsUnique, entry_of, last_definition, entry_of-merge}
use yuhi.Native.SettingsFile.{claude_env_setting_key, values, object_of, apply_managed_settings}
use yuhi.Native.SettingsFile.Laws.{or_value, property-apply}
use yuhi.Native.Cleanup.{SessionDirectory}
use yuhi.Native.Recovery.{
  SessionHealth, finished, RecoveryEnvironment, discover, classify, SweepOptions,
  recover_stale_sessions,
}
use yuhi.Native.Recovery.Sweep.{
  swept, swept_unless_held, recover-keeps_held, stale-swept-finished, unreadable-swept-unreadable,
}

abbrev options : LifecycleRecorderOptions
options = record {
  session_id = "s1";
  workspace_hash = "w";
  source_workspace_id = "src";
  delivery_mode = "safe";
  privacy_mode = none;
  retrieval_mode = "local";
  client_surface = none;
  now = λ n. "t";
}

abbrev go : NativeSessionState → Call
go s = transitioned s none none

abbrev to_attached : List Call
to_attached =
    go prepared
    ∷ go gateway_starting
    ∷ go gateway_ready
    ∷ go profile_provisioning
    ∷ go vscode_launching
    ∷ go vscode_started
    ∷ go vscode_attaching
    ∷ go vscode_attached
    ∷ []

abbrev attached_record : PublicSessionRecord
attached_record = record {
  schema_version = 1;
  session_id = "s1";
  state = vscode_attached;
  client_surface = native_gui;
  workspace_hash = "w";
  source_workspace_id = "src";
  created_at = "t";
  updated_at = "t";
  delivery_mode = "safe";
  privacy_mode = none;
  retrieval_mode = "local";
  claude_extension_id = none;
  claude_extension_version = none;
  vscode_version = none;
  integration_path = none;
  close_reason = none;
}

run-Chain_example :
    Chain created
      (run (new_recorder options) to_attached).lifecycle_log
      (run (new_recorder options) to_attached).current
run-Chain_example = run-Chain options to_attached

recorded_active_attached_example :
    any (enters vscode_attached) (run (new_recorder options) to_attached).lifecycle_log ≡ true
unfolding run call transition same_state can_transition allowed any append persist public_record
    new_recorder
recorded_active_attached_example =
    recorded_active_attached options to_attached attached_record refl refl

-- A recorder that was asked for a state it cannot reach has failed.
abbrev failed_recorder : LifecycleRecorder
failed_recorder = transition (new_recorder options) active none none

run-has_ended_example :
    has_ended (run failed_recorder (go closing ∷ go active ∷ persisted ∷ [])).current ≡ true
unfolding transition same_state can_transition allowed any append persist new_recorder is_terminal
run-has_ended_example = run-has_ended failed_recorder (go closing ∷ go active ∷ persisted ∷ []) refl

abbrev lock : SessionLock
lock = record {
  schema_version = 1;
  session_id = "s1";
  workspace_hash = "w";
  owner_pid = 7;
  created_at = "t0";
  heartbeat_at = "t1";
  state = active;
}

abbrev parse : String → Option ℕ
parse s = if str_eq s "t1" then some 1000 else if str_eq s "t2" then some 20000 else none

abbrev at_20s : LockEnvironment
at_20s = record { now = 20000; is_process_alive = λ pid. true; parse_date = parse }

evaluate_lock-held_iff_example : (evaluate_lock (some lock) at_20s ≡ held lock) ↔ IsHeld at_20s lock
evaluate_lock-held_iff_example = evaluate_lock-held_iff at_20s lock

touch_lock-held_example :
    evaluate_lock (touch_lock (some lock) "t2") (record at_20s { now = 50000 })
    ≡ held (record lock { heartbeat_at = "t2" })
unfolding evaluate_lock same_state
touch_lock-held_example = touch_lock-held at_20s lock "t2" 50000 refl refl (omega arith)

abbrev entry : String → String → Value
entry n v = obj (field "name" (str n) (field "value" (str v) end))

abbrev user_items : Items
user_items =
    cons (entry "PATH" "a") (cons (entry "YUHI_SESSION_ID" "old") (cons (entry "PATH" "b") nil))

abbrev managed : NativeGuiEnvironment
managed = native_gui_environment "http://127.0.0.1:1" "s1" "/c" "safe" "strict" "local"

entry_of-merge_example :
    entry_of "PATH" (merge_environment_variables (some (arr user_items)) managed) ≡ (
      if is_managed "PATH"
      then entry_of "PATH" (map written (managed_entries managed))
      else last_definition "PATH" (items_of (some (arr user_items))))
entry_of-merge_example = entry_of-merge "PATH" (some (arr user_items)) managed

merge-IsUnique_example : IsUnique (merge_environment_variables (some (arr user_items)) managed)
merge-IsUnique_example = merge-IsUnique (some (arr user_items)) managed

abbrev settings : Fields
settings = field claude_env_setting_key (arr user_items) (field "theme" (str "dark") end)

abbrev theme : String → Fields
theme t = field "theme" (str t) end

property-apply_example :
    property "theme" (apply_managed_settings (some (obj settings)) managed (theme "light") end) ≡ (
      if str_eq claude_env_setting_key "theme"
      then some (
          arr (
            values (
              merge_environment_variables
                (property claude_env_setting_key (object_of (some (obj settings))))
                managed)))
      else or_value (property "theme" end) (
          or_value
            (property "theme" (object_of (some (obj settings))))
            (property "theme" (theme "light"))))
property-apply_example = property-apply "theme" (some (obj settings)) managed (theme "light") end

abbrev directory : LockFile → SessionDirectory
directory file = record {
  session_id = "s1";
  session_record = some attached_record;
  lock_file = file;
  endpoint = none;
  bootstrap_token_file = some "token";
  profile_settings = some (obj settings);
  recovered_reason = none;
  present = true;
}

abbrev environment : RecoveryEnvironment
environment = record { lock = at_20s; probe_gateway = none }

abbrev sweep : SweepOptions
sweep = record { env = environment; purge_finished = false; at = "t3"; throws = λ id step. none }

recover-keeps_held_example :
    (recover_stale_sessions sweep (directory (some lock) ∷ directory none ∷ [])).1
    ≡ map (swept_unless_held sweep) (directory (some lock) ∷ directory none ∷ [])
recover-keeps_held_example = recover-keeps_held sweep (directory (some lock) ∷ directory none ∷ [])

abbrev no_error : (step : yuhi.Native.Cleanup.CleanupStepName) → sweep.throws "s1" step ≡ none
no_error step = refl

stale-swept-finished_example :
    (discover environment (swept sweep (directory none))).health ≡ finished
unfolding discover classify evaluate_lock
stale-swept-finished_example =
    stale-swept-finished sweep (directory none) no_error attached_record environment refl refl

-- A directory that a launch left before it wrote a record.
abbrev empty_directory : SessionDirectory
empty_directory = record (directory none) { session_record = none }

unreadable-swept-unreadable_example :
    (discover environment (swept sweep empty_directory)).health ≡ SessionHealth.unreadable
unfolding discover classify evaluate_lock
unreadable-swept-unreadable_example =
    unreadable-swept-unreadable sweep empty_directory no_error environment refl (inr refl)
