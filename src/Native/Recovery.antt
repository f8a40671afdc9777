-- ===== src/Native/Recovery.antt =====
-- packages/context-gateway/src/native/recovery.ts: classifying the sessions that are found on disk
-- and finishing those whose owner is gone. The sessions root is the list of its directories; the
-- probe of a gateway, and what each cleanup step throws in each directory, are parameters.
pub mod Sweep
use yuhi.Prelude.{
  str_eq, if◌then◌else◌, ℕ, String, ◌+++◌, Bool, true, false, not, ◌&&◌, Option, none, some, List,
  [], ◌∷◌, ◌++◌, map, if◌then◌else◌, length,
}
use yuhi.Native.State.{
  NativeSessionState, orphaned, is_terminal, recovery_sweep, PublicSessionRecord,
}
use yuhi.Native.Lock.{
  SessionLock, StaleReason, pid_gone, heartbeat_expired, terminal_state, LockVerdict,
  LockEnvironment, LockFile, evaluate_lock,
}
use yuhi.Native.Cleanup.{
  SessionDirectory, CleanupResult, Throws, cleanup_session, purge_session_directory,
}

pub data SessionHealth : Type 0 where
  live stale finished unreadable : SessionHealth

pub record DiscoveredSession : Type 0 where
  pub session_id : String
  pub layout : SessionDirectory
  pub session_record : Option PublicSessionRecord
  pub health : SessionHealth
  pub stale_reason : Option StaleReason
  pub gateway_reachable : Option Bool
  pub owner_pid : Option ℕ

-- `probe_gateway` answers false where the probe fails, as the caller's `catch` does.
pub record RecoveryEnvironment : Type 0 where
  pub lock : LockEnvironment
  pub probe_gateway : Option (String → Bool)

abbrev probe_at : (String → Bool) → Option String → Bool
probe_at probe none = false
probe_at probe (some url) = if str_eq url "" then false else probe (url +++ "/readyz")

unfoldable pub reachable : Option (String → Bool) → Option String → Option Bool
reachable none url = none
reachable (some probe) url = some (probe_at probe url)

abbrev pub record_is_terminal : Option PublicSessionRecord → Bool
record_is_terminal none = false
record_is_terminal (some r) = is_terminal r.state

abbrev pub is_held : LockVerdict → Bool
is_held (LockVerdict.held lock) = true
is_held _ = false

-- The last branch: no lock, so the owner of a non-terminal record died before releasing it.
abbrev pub without_lock : Option PublicSessionRecord → SessionHealth × Option StaleReason
without_lock none = (finished, none)
without_lock (some r) = if is_terminal r.state then (finished, none) else (stale, some pid_gone)

abbrev pub by_verdict :
    Option PublicSessionRecord → LockVerdict → SessionHealth × Option StaleReason
by_verdict r (LockVerdict.held lock) = (live, none)
by_verdict r (LockVerdict.stale lock why) = (stale, some why)
by_verdict r LockVerdict.free = without_lock r

abbrev pub neither : Option PublicSessionRecord → LockFile → Bool
neither none none = true
neither _ _ = false

unfoldable pub classify :
    Option PublicSessionRecord → LockFile → LockVerdict → SessionHealth × Option StaleReason
unfolding is_terminal
classify r lock verdict =
    if neither r lock
    then (SessionHealth.unreadable, none)
    else if record_is_terminal r && not (is_held verdict)
    then (finished, none)
    else by_verdict r verdict

-- `staleReason ?? "heartbeat-expired"` under a gateway that still answers.
abbrev pub with_gateway : SessionHealth → Option Bool → Option StaleReason → Option StaleReason
with_gateway stale (some true) none = some heartbeat_expired
with_gateway _ _ why = why

abbrev pub pid_of : LockFile → Option ℕ
pid_of none = none
pid_of (some lock) = some lock.owner_pid

-- One round of the loop of `discoverSessions`.
unfoldable pub discover : RecoveryEnvironment → SessionDirectory → DiscoveredSession
unfolding classify reachable
discover env d =
    let verdict = evaluate_lock d.lock_file env.lock in
    let gateway = reachable env.probe_gateway d.endpoint in
    let (health, why) = classify d.session_record d.lock_file verdict in
    record {
      session_id = d.session_id;
      layout = d;
      session_record = d.session_record;
      health = health;
      stale_reason = with_gateway health gateway why;
      gateway_reachable = gateway;
      owner_pid = pid_of d.lock_file;
    }

unfoldable pub discover_sessions :
    RecoveryEnvironment → List SessionDirectory → List DiscoveredSession
discover_sessions env root = map (discover env) root

abbrev pub stale_reason_name : StaleReason → String
stale_reason_name pid_gone = "pid-gone"
stale_reason_name heartbeat_expired = "heartbeat-expired"
stale_reason_name terminal_state = "terminal-state"
stale_reason_name StaleReason.unreadable = "unreadable"

-- `session.staleReason ?? "unreadable"`
abbrev pub recovery_reason : Option StaleReason → String
recovery_reason none = "unreadable"
recovery_reason (some why) = stale_reason_name why

abbrev pub mark : String → String → SessionDirectory → Option PublicSessionRecord → SessionDirectory
mark at reason d none = d
mark at reason d (some r) = if is_terminal r.state then d else record d {
  session_record =
      some (record r { state = orphaned; close_reason = some recovery_sweep; updated_at = at });
  recovered_reason = some reason;
}

-- The record is stamped with the time `at`.
unfoldable pub mark_recovered : String → String → SessionDirectory → SessionDirectory
unfolding is_terminal
mark_recovered at reason d = mark at reason d d.session_record

pub record RecoverySweepResult : Type 0 where
  pub inspected : ℕ
  pub recovered : List String
  pub failed : List String
  pub skipped_live : List String

-- What a sweep is given: the two options, the time, and what the steps of cleanup throw in each
-- session's directory.
pub record SweepOptions : Type 0 where
  pub env : RecoveryEnvironment
  pub purge_finished : Bool
  pub at : String
  pub throws : String → Throws

-- A stale or unreadable session: finish the shutdown, then mark the record if that succeeded.
unfoldable pub finish_shutdown : SweepOptions → DiscoveredSession → Bool × SessionDirectory
finish_shutdown o session =
    let (result, d) = cleanup_session (o.throws session.session_id) session.layout in
    (
      result.ok,
      if result.ok then mark_recovered o.at (recovery_reason session.stale_reason) d else d,
    )

abbrev pub report : Bool → String → RecoverySweepResult → RecoverySweepResult
report true id r = record r { recovered = r.recovered ++ id ∷ [] }
report false id r = record r { failed = r.failed ++ id ∷ [] }

abbrev pub sweep_health :
    SweepOptions
    → SessionHealth
    → DiscoveredSession
    → RecoverySweepResult
    → RecoverySweepResult × SessionDirectory
sweep_health o live session r =
    (record r { skipped_live = r.skipped_live ++ session.session_id ∷ [] }, session.layout)
sweep_health o finished session r =
    (r, if o.purge_finished then purge_session_directory session.layout else session.layout)
sweep_health o _ session r =
    let (ok, d) = finish_shutdown o session in (report ok session.session_id r, d)

-- One round of the loop of `recoverStaleSessions`: the result so far, and the directory afterwards.
unfoldable pub sweep_session :
    SweepOptions → DiscoveredSession → RecoverySweepResult → RecoverySweepResult × SessionDirectory
unfolding purge_session_directory
sweep_session o session r = sweep_health o session.health session r

unfoldable pub sweep_sessions :
    SweepOptions
    → List DiscoveredSession
    → RecoverySweepResult
    → RecoverySweepResult × List SessionDirectory
sweep_sessions o [] r = (r, [])
sweep_sessions o (session ∷ rest) r =
    let (r', d) = sweep_session o session r in
    let (r'', ds) = sweep_sessions o rest r' in (r'', d ∷ ds)

-- All sessions are discovered before the first is swept.
unfoldable pub recover_stale_sessions :
    SweepOptions → List SessionDirectory → RecoverySweepResult × List SessionDirectory
unfolding discover_sessions sweep_sessions
recover_stale_sessions o root =
    let sessions = discover_sessions o.env root in
    sweep_sessions o sessions
      (record { inspected = length sessions; recovered = []; failed = []; skipped_live = [] })
