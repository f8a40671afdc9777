-- ===== src/Native/Lock.antt =====
-- packages/context-gateway/src/native/session-lock.ts: the lock of a session. A lock file is the
-- lock that `readLock` reads from it, or `none` where it is missing or unreadable; its JSON text is
-- not modelled. Instants are milliseconds from the earliest date that `Date` can hold, so they are
-- natural numbers. `Date.parse` and the process table are in the environment.
pub mod Liveness
use yuhi.Prelude.{ℕ, ◌-◌, String, Bool, not, ◌||◌, Option, none, some, if◌then◌else◌, ltb}
use yuhi.Native.State.{NativeSessionState, closed, failed, orphaned}
use yuhi.Native.Lifecycle.{same_state}

abbrev pub heartbeat_timeout_ms : ℕ
heartbeat_timeout_ms = 30000

pub record SessionLock : Type 0 where
  pub schema_version : ℕ
  pub session_id : String
  pub workspace_hash : String
  pub owner_pid : ℕ
  pub created_at : String
  pub heartbeat_at : String
  pub state : NativeSessionState

pub data StaleReason : Type 0 where
  pid_gone heartbeat_expired terminal_state unreadable : StaleReason

pub data LockVerdict : Type 0 where
  free : LockVerdict
  held : SessionLock → LockVerdict
  stale : SessionLock → StaleReason → LockVerdict

pub record LockEnvironment : Type 0 where
  pub now : ℕ
  pub is_process_alive : ℕ → Bool
  pub parse_date : String → Option ℕ

abbrev pub LockFile : Type 0
LockFile = Option SessionLock

unfoldable pub write_lock : SessionLock → LockFile
write_lock lock = some lock

unfoldable pub touch_lock : LockFile → String → LockFile
touch_lock none at = none
touch_lock (some current) at = write_lock (record current { heartbeat_at = at })

unfoldable pub release_lock : LockFile → LockFile
release_lock file = none

-- The states at which `evaluateLock` calls a lock stale outright.
abbrev pub ended_in_lock : NativeSessionState → Bool
ended_in_lock s = same_state s closed || same_state s failed || same_state s orphaned

-- The tail of `evaluateLock`, once the date is parsed.
abbrev judge_heartbeat : LockEnvironment → SessionLock → Option ℕ → LockVerdict
judge_heartbeat env lock none = stale lock unreadable
judge_heartbeat env lock (some beat) =
    if ltb heartbeat_timeout_ms (env.now - beat) then stale lock heartbeat_expired else held lock

unfoldable pub evaluate_lock : LockFile → LockEnvironment → LockVerdict
evaluate_lock none env = free
evaluate_lock (some lock) env =
    if ended_in_lock lock.state
    then stale lock terminal_state
    else if not (env.is_process_alive lock.owner_pid)
    then stale lock pid_gone
    else judge_heartbeat env lock (env.parse_date lock.heartbeat_at)
