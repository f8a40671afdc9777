-- ===== src/Native/Lifecycle/Traces.antt =====
-- What holds of a session recorder over every sequence of calls of its methods.
use yuhi.Prelude.{
  String, ◌≡◌, refl, ◌⊎◌, inl, inr, Bool, true, false, ◌||◌, Option, some, List, [], ◌∷◌, ◌++◌,
  arith, any, Bool-cases,
}
use yuhi.Native.State.{
  NativeSessionState, created, vscode_attached, claude_activating, claude_ready, active, closing,
  failed, is_terminal, NativeSessionCloseReason, IntegrationPath, PublicSessionRecord,
  LifecycleEvent,
}
use yuhi.Native.Lifecycle.{
  can_transition, same_state, LifecycleRecorderOptions, LifecycleRecorder, new_recorder, describe,
  persist, append, transition,
}

-- The methods of the recorder that change it.
pub data Call : Type 0 where
  transitioned : NativeSessionState → Option String → Option NativeSessionCloseReason → Call
  described : Option String → Option String → Option String → Option IntegrationPath → Call
  persisted : Call

unfoldable pub call : LifecycleRecorder → Call → LifecycleRecorder
call r (transitioned to reason why) = transition r to reason why
call r (described id version vscode path) = describe r id version vscode path
call r persisted = persist r

unfoldable pub run : LifecycleRecorder → List Call → LifecycleRecorder
run r [] = r
run r (c ∷ cs) = run (call r c) cs

-- An event of the log leaves the state that it names by an allowed edge, or enters `failed`.
abbrev pub Edge : NativeSessionState → LifecycleEvent → Type 0
Edge s e = (e.from ≡ some s) × ((can_transition s e.to ≡ true) ⊎ (e.to ≡ failed))

-- The events lead from the first state to the second, each from where the one before it went.
abbrev pub Chain : NativeSessionState → List LifecycleEvent → NativeSessionState → Type 0
Chain s [] t = s ≡ t
Chain s (e ∷ es) t = Edge s e × Chain e.to es t

Chain-snoc :
    (s t : NativeSessionState) (es : List LifecycleEvent) (e : LifecycleEvent)
    → Chain s es t
    → Edge t e
    → Chain s (es ++ e ∷ []) e.to
Chain-snoc s t [] e h g = ground arith
Chain-snoc s t (d ∷ es) e (first, h) g = (first, Chain-snoc d.to t es e h g)

-- What is true of a recorder between two calls.
record Inv (r : LifecycleRecorder) : Type 0 where
  replayed : Chain created r.lifecycle_log r.current
  on_disk : (p : PublicSessionRecord) → r.session_record ≡ some p → p.state ≡ r.current

new_recorder-Inv : (o : LifecycleRecorderOptions) → Inv (new_recorder o)
unfolding new_recorder
new_recorder-Inv o = record { replayed = refl; on_disk = λ p e. cc }

moved-Inv :
    (r : LifecycleRecorder) (to : NativeSessionState) (reason : Option String)
    (why : Option NativeSessionCloseReason)
    → Inv r
    → (can_transition r.current to ≡ true) ⊎ (to ≡ failed)
    → Inv (persist (append (record r { current = to; close_reason = why }) r.current to reason))
unfolding persist append
moved-Inv r to reason why h g = record {
  replayed = Chain-snoc created r.current r.lifecycle_log _ h.replayed (refl, g);
  on_disk = λ p e. ground arith;
}

transition-Inv :
    (r : LifecycleRecorder) (to : NativeSessionState) (reason : Option String)
    (why : Option NativeSessionCloseReason)
    → Inv r
    → Inv (transition r to reason why)
unfolding transition
transition-Inv r to reason why h = elim (Bool-cases (same_state r.current to)) [
  | inl same ↦ rw same h
  | inr moving ↦ elim (Bool-cases (can_transition r.current to)) [
    | inl legal ↦ rw (moving, legal) (moved-Inv r to reason _ h (inl legal))
    | inr illegal ↦ rw (moving, illegal) (moved-Inv r failed _ r.close_reason h (inr refl))
  ]
]

call-Inv : (r : LifecycleRecorder) (c : Call) → Inv r → Inv (call r c)
unfolding call describe persist
call-Inv r (transitioned to reason why) h = transition-Inv r to reason why h
call-Inv r (described id version vscode path) h = record {
  replayed = h.replayed;
  on_disk = h.on_disk;
}
call-Inv r persisted h = record { replayed = h.replayed; on_disk = λ p e. ground arith }

run-Inv : (r : LifecycleRecorder) (cs : List Call) → Inv r → Inv (run r cs)
unfolding run
run-Inv r [] h = h
run-Inv r (c ∷ cs) h = run-Inv (call r c) cs (call-Inv r c h)

-- Whatever is asked of a new recorder, its log is a chain of allowed edges, or of edges into
-- `failed`, that leads from `created` to the current state.
pub run-Chain :
    (o : LifecycleRecorderOptions) (cs : List Call)
    → Chain created (run (new_recorder o) cs).lifecycle_log (run (new_recorder o) cs).current
run-Chain o cs = (run-Inv (new_recorder o) cs (new_recorder-Inv o)).replayed

-- The states that follow the attachment of the window.
abbrev pub follows_attachment : NativeSessionState → Bool
follows_attachment vscode_attached = true
follows_attachment claude_activating = true
follows_attachment claude_ready = true
follows_attachment active = true
follows_attachment _ = false

abbrev pub enters : NativeSessionState → LifecycleEvent → Bool
enters s e = same_state s e.to

edge-attached :
    (s t : NativeSessionState)
    → follows_attachment s ≡ false
    → (can_transition s t ≡ true) ⊎ (t ≡ failed)
    → (same_state vscode_attached t ≡ true) ⊎ (follows_attachment t ≡ false)
unfolding can_transition
edge-attached s t h g = ground arith

Chain-attached :
    (s t : NativeSessionState) (es : List LifecycleEvent)
    → follows_attachment s ≡ false
    → follows_attachment t ≡ true
    → Chain s es t
    → any (enters vscode_attached) es ≡ true
unfolding any
Chain-attached s t [] h k c = ground arith
Chain-attached s t (e ∷ es) h k (edge, c) = elim (edge-attached s e.to h edge.1) [
  | inl here ↦ rw here
  | inr later ↦ ground (arith, Chain-attached e.to t es later k c)
]

-- A session record on disk that reports `active`, or any state after the attachment, is of a
-- session whose log holds the event by which its window attached.
pub recorded_active_attached :
    (o : LifecycleRecorderOptions) (cs : List Call) (p : PublicSessionRecord)
    → (run (new_recorder o) cs).session_record ≡ some p
    → follows_attachment p.state ≡ true
    → any (enters vscode_attached) (run (new_recorder o) cs).lifecycle_log ≡ true
recorded_active_attached o cs p e k =
    let inv = run-Inv (new_recorder o) cs (new_recorder-Inv o) in
    Chain-attached created (run (new_recorder o) cs).current _ refl (rw (← inv.on_disk p e) k)
      inv.replayed

-- A session that is being torn down, or that has ended.
abbrev pub has_ended : NativeSessionState → Bool
has_ended s = same_state s closing || is_terminal s

edge-has_ended :
    (s t : NativeSessionState) → has_ended s ≡ true → can_transition s t ≡ true → has_ended t ≡ true
unfolding can_transition is_terminal
edge-has_ended s t h g = ground arith

transition-has_ended :
    (r : LifecycleRecorder) (to : NativeSessionState) (reason : Option String)
    (why : Option NativeSessionCloseReason)
    → has_ended r.current ≡ true
    → has_ended (transition r to reason why).current ≡ true
unfolding transition append persist is_terminal
transition-has_ended r to reason why h = elim (Bool-cases (same_state r.current to)) [
  | inl same ↦ rw same h
  | inr moving ↦ elim (Bool-cases (can_transition r.current to)) [
    | inl legal ↦ rw (moving, legal) (edge-has_ended r.current to h legal)
    | inr illegal ↦ rw (moving, illegal) refl
  ]
]

-- Once a session is closing or in a terminal state, no sequence of calls brings it back to a state
-- of starting, attaching or running.
pub run-has_ended :
    (r : LifecycleRecorder) (cs : List Call)
    → has_ended r.current ≡ true
    → has_ended (run r cs).current ≡ true
unfolding run call describe persist
run-has_ended r [] h = h
run-has_ended r (transitioned to reason why ∷ cs) h =
    run-has_ended (transition r to reason why) cs (transition-has_ended r to reason why h)
run-has_ended r (described id version vscode path ∷ cs) h =
    run-has_ended (describe r id version vscode path) cs h
run-has_ended r (persisted ∷ cs) h = run-has_ended (persist r) cs h
