-- ===== src/Native/Lock/Liveness.antt =====
-- When a lock counts as held.
use yuhi.Prelude.{
  ℕ, ◌+◌, ◌≤◌, ◌≡◌, ◌≢◌, ◌↔◌, true, false, String, some, arith, inl, inr, Option-cases,
}
use yuhi.Native.State.{NativeSessionState, closed, failed, orphaned}
use yuhi.Native.Lifecycle.{same_state}
use yuhi.Native.Lock.{
  heartbeat_timeout_ms, SessionLock, held, LockEnvironment, write_lock, touch_lock, ended_in_lock,
  evaluate_lock,
}

-- What must be true of a lock that is held.
abbrev pub IsHeld : LockEnvironment → SessionLock → Type 0
IsHeld env lock =
    (lock.state ≢ closed)
    × (lock.state ≢ failed)
    × (lock.state ≢ orphaned)
    × (env.is_process_alive lock.owner_pid ≡ true)
    × (beat : ℕ) × (env.parse_date lock.heartbeat_at ≡ some beat)
    × (env.now ≤ beat + 30000)

open_state :
    (s : NativeSessionState)
    → ended_in_lock s ≡ false
    → (s ≢ closed) × (s ≢ failed) × (s ≢ orphaned)
unfolding same_state
open_state s h = (
  λ e. absurd (ground (arith, h, e)),
  λ e. absurd (ground (arith, h, e)),
  λ e. absurd (ground (arith, h, e)),
)

not_ended :
    (s : NativeSessionState) → s ≢ closed → s ≢ failed → s ≢ orphaned → ended_in_lock s ≡ false
unfolding same_state
not_ended s a b c = ground (arith, a, b, c)

IsHeld-of_held :
    (env : LockEnvironment) (lock : SessionLock)
    → evaluate_lock (some lock) env ≡ held lock
    → IsHeld env lock
unfolding evaluate_lock
IsHeld-of_held env lock h = elim (Option-cases (env.parse_date lock.heartbeat_at)) [
  | inl unread ↦ absurd (ground arith)
  | inr (beat, e) ↦
      let (a, b, c) = open_state lock.state (ground arith) in
      (a, b, c, ground arith, beat, e, ground arith)
]

held-of_IsHeld :
    (env : LockEnvironment) (lock : SessionLock)
    → IsHeld env lock
    → evaluate_lock (some lock) env ≡ held lock
unfolding evaluate_lock
held-of_IsHeld env lock (a, b, c, alive, beat, e, near) = ground (arith, not_ended lock.state a b c)

-- A lock is judged held exactly when its state is not closed, failed or orphaned, its owner is
-- alive, and its heartbeat is a date not more than 30000 milliseconds ago, whatever the workspace hash.
pub evaluate_lock-held_iff :
    (env : LockEnvironment) (lock : SessionLock)
    → (evaluate_lock (some lock) env ≡ held lock) ↔ IsHeld env lock
evaluate_lock-held_iff env lock = (IsHeld-of_held env lock, held-of_IsHeld env lock)

-- A held lock that is touched now is still held at any later time within the timeout, as long as
-- its owner lives and the written time is read back as it was.
pub touch_lock-held :
    (env : LockEnvironment) (lock : SessionLock) (at : String) (later : ℕ)
    → evaluate_lock (some lock) env ≡ held lock
    → env.parse_date at ≡ some env.now
    → later ≤ env.now + heartbeat_timeout_ms
    → evaluate_lock (touch_lock (some lock) at) (record env { now = later })
      ≡ held (record lock { heartbeat_at = at })
unfolding evaluate_lock touch_lock write_lock
touch_lock-held env lock at later h e k = ground arith
