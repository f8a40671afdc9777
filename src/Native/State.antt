-- ===== src/Native/State.antt =====
-- packages/context-gateway/src/native/types.ts: the vocabulary of a session. The delivery, privacy
-- and retrieval modes that a record carries are kept as the texts that the source's unions are.
use yuhi.Prelude.{ℕ, String, Bool, true, false, Option}

pub data NativeSessionState : Type 0 where
  created preparing prepared gateway_starting gateway_ready : NativeSessionState
  profile_provisioning extension_installing vscode_launching vscode_started : NativeSessionState
  vscode_attaching vscode_attached claude_activating claude_ready active : NativeSessionState
  closing closed failed orphaned cleanup_failed : NativeSessionState

-- How the source spells a state.
abbrev pub state_name : NativeSessionState → String
state_name created = "created"
state_name preparing = "preparing"
state_name prepared = "prepared"
state_name gateway_starting = "gateway-starting"
state_name gateway_ready = "gateway-ready"
state_name profile_provisioning = "profile-provisioning"
state_name extension_installing = "extension-installing"
state_name vscode_launching = "vscode-launching"
state_name vscode_started = "vscode-started"
state_name vscode_attaching = "vscode-attaching"
state_name vscode_attached = "vscode-attached"
state_name claude_activating = "claude-activating"
state_name claude_ready = "claude-ready"
state_name active = "active"
state_name closing = "closing"
state_name closed = "closed"
state_name failed = "failed"
state_name orphaned = "orphaned"
state_name cleanup_failed = "cleanup-failed"

-- `TERMINAL_STATES.includes(state)`
unfoldable pub is_terminal : NativeSessionState → Bool
is_terminal closed = true
is_terminal failed = true
is_terminal orphaned = true
is_terminal cleanup_failed = true
is_terminal _ = false

pub data NativeSessionCloseReason : Type 0 where
  user_request window_closed attach_timeout heartbeat_timeout : NativeSessionCloseReason
  gateway_failure extension_host_shutdown recovery_sweep startup_failure : NativeSessionCloseReason

pub data ClientSurface : Type 0 where
  cli dynamic_terminal native_gui : ClientSurface

pub data IntegrationPath : Type 0 where
  official_setting process_env_fallback : IntegrationPath

pub record PublicSessionRecord : Type 0 where
  pub schema_version : ℕ
  pub session_id : String
  pub state : NativeSessionState
  pub client_surface : ClientSurface
  pub workspace_hash : String
  pub source_workspace_id : String
  pub created_at : String
  pub updated_at : String
  pub delivery_mode : String
  pub privacy_mode : Option String
  pub retrieval_mode : String
  pub claude_extension_id : Option String
  pub claude_extension_version : Option String
  pub vscode_version : Option String
  pub integration_path : Option IntegrationPath
  pub close_reason : Option NativeSessionCloseReason

pub record LifecycleEvent : Type 0 where
  pub ts : String
  pub session_id : String
  pub from : Option NativeSessionState
  pub to : NativeSessionState
  pub reason : Option String
