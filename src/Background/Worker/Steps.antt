-- ===== src/Background/Worker/Steps.antt =====
-- The interleavings of a run, and the bounds that hold in all of them.
use yuhi.Prelude.{ℕ, ◌≡◌, String, Bool, Option, none, some, List, [], ◌∷◌, ◌++◌}
use yuhi.Background.Types.{BackgroundRecord}
use yuhi.Background.Store.{BackgroundStateStore, pending_records}
use yuhi.Background.Worker.{
  WorkerConfig, WorkerState, visit, launch, TaskOutcome, settle, retire, abort,
}

-- One step of a run of the worker, or of another user of its store, who may do anything to it.
module _ (config : WorkerConfig) (run_id : Option String) where
  pub data Step (w : WorkerState) : WorkerState → Type 0 where
    begun :
        w.pass ≡ []
        → w.reserved ≡ none
        → Step w (record w { pass = pending_records run_id w.store })
    visited :
        (elapsed : ℕ) (is_cancelled : String → Bool) (r : BackgroundRecord)
        (rest : List BackgroundRecord)
        → w.pass ≡ r ∷ rest
        → w.reserved ≡ none
        → Step w (visit config elapsed is_cancelled r rest w)
    launched : (r : BackgroundRecord) → w.reserved ≡ some r → Step w (launch r w)
    settled :
        (before after : List BackgroundRecord) (r : BackgroundRecord) (cancel_seen : Bool)
        (outcome : TaskOutcome)
        → w.in_flight ≡ before ++ r ∷ after
        → Step w (settle r (before ++ after) cancel_seen outcome w)
    retired :
        (before after : List (BackgroundRecord × Bool)) (r : BackgroundRecord) (opened : Bool)
        → w.finished ≡ before ++ (r, opened) ∷ after
        → Step w (retire r opened (before ++ after) w)
    stopped : w.pass ≡ [] → w.reserved ≡ none → Step w (abort run_id w)
    elsewhere : (s : BackgroundStateStore) → Step w (record w { store = s })

  -- The states that a run reaches from one state.
  pub data Reaches (w : WorkerState) : WorkerState → Type 0 where
    start : Reaches w w
    next : {v u : WorkerState} → Reaches w v → Step v u → Reaches w u
