-- ===== src/Native/Recovery/Sweep.antt =====
-- What a recovery sweep does to each session.
use yuhi.Prelude.{
  String, ◌≡◌, refl, ap, ◌∙◌, ◌⊎◌, ◌↔◌, Bool, true, none, some, List, [], ◌∷◌, arith, map,
  if◌then◌else◌, inl, inr, Bool-cases,
}
use yuhi.Native.State.{PublicSessionRecord}
use yuhi.Native.Lock.{evaluate_lock, release_lock}
use yuhi.Native.Cleanup.{
  SessionDirectory, CleanupStepName, stop_heartbeat, stop_attach_server, flush_evidence,
  close_gateway, clear_settings, revoke_token, release_lock_step, cleanup_session,
}
use yuhi.Native.Recovery.{
  SessionHealth, live, stale, finished, DiscoveredSession, RecoveryEnvironment, is_held,
  recovery_reason, record_is_terminal, discover, discover_sessions, RecoverySweepResult,
  SweepOptions, finish_shutdown, sweep_health, sweep_session, sweep_sessions,
  recover_stale_sessions, mark_recovered,
}

-- A session is live exactly when its lock is held, whatever its record says.
pub live_iff_held :
    (env : RecoveryEnvironment) (d : SessionDirectory)
    → ((discover env d).health ≡ live) ↔ (is_held (evaluate_lock d.lock_file env.lock) ≡ true)
unfolding discover evaluate_lock
live_iff_held env d = ground arith

abbrev nothing_yet : RecoverySweepResult
nothing_yet = record { inspected = 0; recovered = []; failed = []; skipped_live = [] }

-- The directory of a session after a sweep.
unfoldable pub swept : SweepOptions → SessionDirectory → SessionDirectory
unfolding sweep_session
swept o d = (sweep_session o (discover o.env d) nothing_yet).1

swept-any :
    (o : SweepOptions) (d : SessionDirectory) (r : RecoverySweepResult)
    → (sweep_session o (discover o.env d) r).1 ≡ swept o d
unfolding swept sweep_session
swept-any o d r =
    elim (discover o.env d).health
      as (λ h.
        (sweep_health o h (discover o.env d) r).1
        ≡ (sweep_health o h (discover o.env d) nothing_yet).1) [
          | live ↦ refl
          | stale ↦ refl
          | finished ↦ refl
          | SessionHealth.unreadable ↦ refl
        ]

discover-layout : (env : RecoveryEnvironment) (d : SessionDirectory) → (discover env d).layout ≡ d
unfolding discover
discover-layout env d = refl

discover-id :
    (env : RecoveryEnvironment) (d : SessionDirectory) → (discover env d).session_id ≡ d.session_id
unfolding discover
discover-id env d = refl

-- The two classes that a sweep shuts down.
abbrev IsShut : DiscoveredSession → Type 0
IsShut session = (session.health ≡ stale) ⊎ (session.health ≡ SessionHealth.unreadable)

swept_of_live :
    (o : SweepOptions) (d : SessionDirectory) → (discover o.env d).health ≡ live → swept o d ≡ d
unfolding swept sweep_session
swept_of_live o d h = rw (swept, sweep_session, h) (discover-layout o.env d)

-- Whether the lock of a directory is held.
abbrev pub lock_is_held : SweepOptions → SessionDirectory → Bool
lock_is_held o d = is_held (evaluate_lock d.lock_file o.env.lock)

-- The directory of a session after a sweep, unless its lock is held: then it is as it was.
abbrev pub swept_unless_held : SweepOptions → SessionDirectory → SessionDirectory
swept_unless_held o d = if lock_is_held o d then d else swept o d

swept-eq-unless_held : (o : SweepOptions) (d : SessionDirectory) → swept o d ≡ swept_unless_held o d
swept-eq-unless_held o d = elim (Bool-cases (lock_is_held o d)) [
  | inl held ↦ rw held (swept_of_live o d ((live_iff_held o.env d).1 held))
  | inr free ↦ rw free
]

sweep_sessions-map :
    (o : SweepOptions) (root : List SessionDirectory) (r : RecoverySweepResult)
    → (sweep_sessions o (map (discover o.env) root) r).1 ≡ map (swept_unless_held o) root
unfolding sweep_sessions
sweep_sessions-map o [] r = refl
sweep_sessions-map o (d ∷ ds) r = cc (
  swept-any o d r,
  swept-eq-unless_held o d,
  sweep_sessions-map o ds (sweep_session o (discover o.env d) r).0,
)

-- A recovery leaves the directory of every session whose lock is held exactly as it was; each other
-- directory becomes what a sweep of it alone makes of it.
pub recover-keeps_held :
    (o : SweepOptions) (root : List SessionDirectory)
    → (recover_stale_sessions o root).1 ≡ map (swept_unless_held o) root
unfolding recover_stale_sessions discover_sessions
recover-keeps_held o root = sweep_sessions-map o root _

discover-finished :
    (env : RecoveryEnvironment) (d : SessionDirectory)
    → d.lock_file ≡ none
    → record_is_terminal d.session_record ≡ true
    → (discover env d).health ≡ finished
unfolding discover evaluate_lock
discover-finished env d h k = ground arith

discover-unreadable :
    (env : RecoveryEnvironment) (d : SessionDirectory)
    → d.lock_file ≡ none
    → d.session_record ≡ none
    → (discover env d).health ≡ SessionHealth.unreadable
unfolding discover evaluate_lock
discover-unreadable env d h k = ground arith

module _ (at reason : String) (d : SessionDirectory) where
  mark_recovered-lock_file : (mark_recovered at reason d).lock_file ≡ d.lock_file
  unfolding mark_recovered
  mark_recovered-lock_file = ground arith

  mark_recovered-terminal :
      {r : PublicSessionRecord}
      → d.session_record ≡ some r
      → record_is_terminal (mark_recovered at reason d).session_record ≡ true
  unfolding mark_recovered
  mark_recovered-terminal e = ground arith

  mark_recovered-none : d.session_record ≡ none → (mark_recovered at reason d).session_record ≡ none
  unfolding mark_recovered
  mark_recovered-none e = ground arith

module _ (o : SweepOptions) (d : SessionDirectory)
    (quiet : (step : CleanupStepName) → o.throws d.session_id step ≡ none) where
  cleanup_quiet :
      ((cleanup_session (o.throws d.session_id) d).0.ok ≡ true)
      × ((cleanup_session (o.throws d.session_id) d).1.lock_file ≡ none)
      × ((cleanup_session (o.throws d.session_id) d).1.session_record ≡ d.session_record)
  unfolding cleanup_session release_lock
  cleanup_quiet = ground (
    arith,
    quiet stop_heartbeat,
    quiet stop_attach_server,
    quiet flush_evidence,
    quiet close_gateway,
    quiet clear_settings,
    quiet revoke_token,
    quiet release_lock_step,
  )

  -- The directory that the cleanup leaves, before its record is marked.
  abbrev tidied : SessionDirectory
  tidied = (cleanup_session (o.throws d.session_id) d).1

  finish_quiet :
      (session : DiscoveredSession)
      → session.layout ≡ d
      → session.session_id ≡ d.session_id
      → finish_shutdown o session
        ≡ (true, mark_recovered o.at (recovery_reason session.stale_reason) tidied)
  unfolding finish_shutdown
  finish_quiet session e f = rw (e, f, cleanup_quiet.0)

  sweep_session-shut :
      (session : DiscoveredSession)
      → IsShut session
      → session.layout ≡ d
      → session.session_id ≡ d.session_id
      → (sweep_session o session nothing_yet).1
        ≡ mark_recovered o.at (recovery_reason session.stale_reason) tidied
  unfolding sweep_session finish_shutdown
  sweep_session-shut session (inl h) e f =
      rw (sweep_session, h) (ap (λ p. p.1) (finish_quiet session e f))
  sweep_session-shut session (inr h) e f =
      rw (sweep_session, h) (ap (λ p. p.1) (finish_quiet session e f))

  swept_of_shut :
      IsShut (discover o.env d)
      → swept o d ≡ mark_recovered o.at (recovery_reason (discover o.env d).stale_reason) tidied
  unfolding swept
  swept_of_shut h =
      sweep_session-shut (discover o.env d) h (discover-layout o.env d) (discover-id o.env d)

  -- A stale session that has a record, whose cleanup throws nothing, is finished for every later
  -- sweep, at any time and under any environment.
  pub stale-swept-finished :
      (r : PublicSessionRecord) (later : RecoveryEnvironment)
      → d.session_record ≡ some r
      → (discover o.env d).health ≡ stale
      → (discover later (swept o d)).health ≡ finished
  stale-swept-finished r later recorded h = rw (swept_of_shut (inl h)) (
      discover-finished later _ (mark_recovered-lock_file o.at _ tidied ∙ cleanup_quiet.1)
        (mark_recovered-terminal o.at _ tidied (cleanup_quiet.2 ∙ recorded)))

  -- A session without a lock or a record is unreadable again after a sweep that shut it down, whose
  -- cleanup threw nothing: every later sweep shuts it down once more.
  pub unreadable-swept-unreadable :
      (later : RecoveryEnvironment)
      → d.session_record ≡ none
      → IsShut (discover o.env d)
      → (discover later (swept o d)).health ≡ SessionHealth.unreadable
  unreadable-swept-unreadable later unrecorded h = rw (swept_of_shut h) (
      discover-unreadable later _ (mark_recovered-lock_file o.at _ tidied ∙ cleanup_quiet.1)
        (mark_recovered-none o.at _ tidied (cleanup_quiet.2 ∙ unrecorded)))
