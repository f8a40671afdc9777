-- ===== src/Native/Cleanup.antt =====
-- packages/context-gateway/src/native/cleanup.ts: the shutdown of a session, step by step. A step
-- that throws is recorded with the name of its error; what the hooks do is outside the
-- session's directory.
use yuhi.Prelude.{String, Bool, false, not, Option, none, some, List, [], ◌∷◌, all, is_some}
use yuhi.Native.State.{PublicSessionRecord}
use yuhi.Native.Lock.{LockFile, release_lock}
use yuhi.Native.Settings.{Value}
use yuhi.Native.SettingsFile.{clear_managed_settings}

-- The files of a session's directory, as the program reads them. `present` is whether the directory
-- still stands; `recovered_reason` is the field that a recovery adds to the public record.
pub record SessionDirectory : Type 0 where
  pub session_id : String
  pub session_record : Option PublicSessionRecord
  pub lock_file : LockFile
  pub endpoint : Option String
  pub bootstrap_token_file : Option String
  pub profile_settings : Option Value
  pub recovered_reason : Option String
  pub present : Bool

pub data CleanupStepName : Type 0 where
  stop_heartbeat stop_attach_server flush_evidence close_gateway : CleanupStepName
  clear_settings revoke_token release_lock_step : CleanupStepName

pub record CleanupStepResult : Type 0 where
  pub step : CleanupStepName
  pub ok : Bool
  pub error : Option String

pub record CleanupResult : Type 0 where
  pub ok : Bool
  pub steps : List CleanupStepResult

-- What each step throws, if it throws: a hook that is absent throws nothing.
abbrev pub Throws : Type 0
Throws = CleanupStepName → Option String

unfoldable pub attempt : Throws → CleanupStepName → CleanupStepResult
attempt throws step = record { step = step; ok = not (is_some (throws step)); error = throws step }

abbrev unless_thrown {ℓ} : {A : Type ℓ} → Option String → A → A → A
unless_thrown none done old = done
unless_thrown (some e) done old = old

-- Every step is attempted, whatever the steps before it did.
unfoldable pub cleanup_session : Throws → SessionDirectory → CleanupResult × SessionDirectory
unfolding attempt all
cleanup_session throws d =
    let steps : List CleanupStepResult =
      attempt throws stop_heartbeat
      ∷ attempt throws stop_attach_server
      ∷ attempt throws flush_evidence
      ∷ attempt throws close_gateway
      ∷ attempt throws clear_settings
      ∷ attempt throws revoke_token
      ∷ attempt throws release_lock_step
      ∷ [] in
    (
      record { ok = all (λ s. s.ok) steps; steps = steps },
      record d {
        profile_settings =
            unless_thrown (throws clear_settings) (clear_managed_settings d.profile_settings)
              d.profile_settings;
        bootstrap_token_file = unless_thrown (throws revoke_token) none d.bootstrap_token_file;
        lock_file = unless_thrown (throws release_lock_step) (release_lock d.lock_file) d.lock_file;
      },
    )

unfoldable pub purge_session_directory : SessionDirectory → SessionDirectory
purge_session_directory d = record d {
  session_record = none;
  lock_file = none;
  endpoint = none;
  bootstrap_token_file = none;
  profile_settings = none;
  recovered_reason = none;
  present = false;
}
