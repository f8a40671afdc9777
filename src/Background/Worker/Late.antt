-- ===== src/Background/Worker/Late.antt =====
-- Late results and the circuit breaker.
use yuhi.Prelude.{
  subst, ℕ, ◌≤◌, ◌≡◌, refl, ap, ◌∙◌, String, eq_iff, Bool, true, false, Option, none, some, List,
  ◌∷◌, ◌++◌, arith,
}
use yuhi.Prelude.Assoc.{lookup}
use yuhi.Background.Types.{summarize_local, BackgroundRecord}
use yuhi.Background.Store.{BackgroundStateStore, Patch, get}
use yuhi.Background.Queue.{cancel}
use yuhi.Background.Queue.Moves.{lookup-cancel}
use yuhi.Background.Worker.{
  WorkerConfig, is_summarize, WorkerState, visit, launch, TaskOutcome, settle, retire, abort,
  has_moved, finalize,
}
use yuhi.Background.Worker.Steps.{
  Step, begun, visited, launched, settled, retired, stopped, elsewhere, Reaches, start, next,
}
use yuhi.Background.Worker.Bounds.{running, running-insert, running-snoc}

has_moved-cancel :
    (id : String) (s : BackgroundStateStore) (current : BackgroundRecord)
    → lookup id s.records ≡ some current
    → has_moved (get id (cancel id s).1) ≡ true
unfolding get
has_moved-cancel id s current h = ground (arith, lookup-cancel id id s, h, eq_iff id id)

-- Cancellation wins: once an item of the store is cancelled, whatever its task still writes, a
-- publication included, changes nothing in the store.
pub finalize-cancel :
    (r : BackgroundRecord) (p : Patch) (s : BackgroundStateStore) (current : BackgroundRecord)
    → lookup r.item.item_id s.records ≡ some current
    → finalize r p (cancel r.item.item_id s).1 ≡ (cancel r.item.item_id s).1
unfolding finalize
finalize-cancel r p s current h = rw (has_moved-cancel r.item.item_id s current h)

-- No reservation of a summary is being written.
abbrev pub NoneReserved : Option BackgroundRecord → Type 0
NoneReserved none = Unit
NoneReserved (some r) = is_summarize r.item.kind ≡ false

-- The circuit is open, no summary is about to start, and no more of them run than so many.
pub record IsOpen (most : ℕ) (w : WorkerState) : Type 0 where
  pub open_circuit : w.summarize_circuit_open ≡ true
  pub reserved : NoneReserved w.reserved
  pub summaries : running summarize_local w.in_flight ≤ most

module _ (config : WorkerConfig) (run_id : Option String) (most : ℕ) where
  visit-IsOpen :
      (elapsed : ℕ) (is_cancelled : String → Bool) (r : BackgroundRecord)
      (rest : List BackgroundRecord) (w : WorkerState)
      → w.reserved ≡ none
      → IsOpen most w
      → IsOpen most (visit config elapsed is_cancelled r rest w)
  unfolding visit
  visit-IsOpen elapsed is_cancelled r rest w e h = record {
    open_circuit = ground (arith, h.open_circuit);
    reserved = ground (arith, h.open_circuit, h.reserved);
    summaries = ground (arith, h.summaries);
  }

  launch-IsOpen :
      (w : WorkerState) (r : BackgroundRecord)
      → is_summarize r.item.kind ≡ false
      → IsOpen most w
      → IsOpen most (launch r w)
  unfolding launch
  launch-IsOpen w r k h = record {
    open_circuit = h.open_circuit;
    reserved = tt;
    summaries = ground (arith, h.summaries, running-snoc summarize_local w.in_flight r);
  }

  settle-IsOpen :
      (w : WorkerState) (before after : List BackgroundRecord) (r : BackgroundRecord)
      (cancel_seen : Bool) (outcome : TaskOutcome)
      → w.in_flight ≡ before ++ r ∷ after
      → IsOpen most w
      → IsOpen most (settle r (before ++ after) cancel_seen outcome w)
  unfolding settle
  settle-IsOpen w before after r cancel_seen outcome e h = record {
    open_circuit = h.open_circuit;
    reserved = h.reserved;
    summaries = omega (
      arith,
      h.summaries,
      running-insert summarize_local before after r,
      ap (running summarize_local) e,
    );
  }

  retire-IsOpen :
      (w : WorkerState) (r : BackgroundRecord) (opened : Bool)
      (others : List (BackgroundRecord × Bool))
      → IsOpen most w
      → IsOpen most (retire r opened others w)
  unfolding retire
  retire-IsOpen w r opened others h = record {
    open_circuit = ground (arith, h.open_circuit);
    reserved = h.reserved;
    summaries = h.summaries;
  }

  same-IsOpen :
      (w v : WorkerState)
      → v.summarize_circuit_open ≡ w.summarize_circuit_open
      → v.reserved ≡ w.reserved
      → v.in_flight ≡ w.in_flight
      → IsOpen most w
      → IsOpen most v
  same-IsOpen w v c e i h = record {
    open_circuit = c ∙ h.open_circuit;
    reserved = rw e h.reserved;
    summaries = omega (arith, h.summaries, ap (running summarize_local) i);
  }

  Step-IsOpen : (w v : WorkerState) → Step config run_id w v → IsOpen most w → IsOpen most v
  unfolding abort
  Step-IsOpen w _ (begun e f) h = same-IsOpen w _ refl refl refl h
  Step-IsOpen w _ (visited elapsed is_cancelled r rest e f) h =
      visit-IsOpen elapsed is_cancelled r rest w f h
  Step-IsOpen w _ (launched r e) h = launch-IsOpen w r (subst NoneReserved e h.reserved) h
  Step-IsOpen w _ (settled before after r cancel_seen outcome e) h =
      settle-IsOpen w before after r cancel_seen outcome e h
  Step-IsOpen w _ (retired before after r opened e) h = retire-IsOpen w r opened (before ++ after) h
  Step-IsOpen w _ (stopped e f) h = same-IsOpen w _ refl refl refl h
  Step-IsOpen w _ (elsewhere s) h = same-IsOpen w _ refl refl refl h

  -- Once the circuit is open and no summary is about to start, none ever starts: in every
  -- interleaving the circuit stays open and no more summaries run than did.
  pub Reaches-IsOpen :
      (w v : WorkerState) → Reaches config run_id w v → IsOpen most w → IsOpen most v
  Reaches-IsOpen w _ start h = h
  Reaches-IsOpen w _ (next {v} {u} earlier step) h =
      Step-IsOpen v u step (Reaches-IsOpen w v earlier h)
