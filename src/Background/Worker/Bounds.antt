-- ===== src/Background/Worker/Bounds.antt =====
-- The limits that hold throughout a run, whatever the interleaving.
use yuhi.Prelude.{
  subst, ℕ, ◌+◌, ◌≤◌, ◌<◌, ◌≡◌, refl, ap, String, Bool, true, Option, none, some, List, [], ◌∷◌,
  ◌++◌, arith, if◌then◌else◌,
}
use yuhi.Background.Types.{BackgroundPreparationKind, BackgroundRecord}
use yuhi.Background.Store.{BackgroundStateStore}
use yuhi.Background.Worker.{
  WorkerConfig, same_kind, WorkerState, new_worker, limit, visit, launch, TaskOutcome, settle,
  retire, abort,
}
use yuhi.Background.Worker.Steps.{
  Step, begun, visited, launched, settled, retired, stopped, elsewhere, Reaches, start, next,
}

abbrev one : BackgroundPreparationKind → BackgroundRecord → ℕ
one kind r = if same_kind r.item.kind kind then 1 else 0

-- The number of tasks of a kind, among those with an outcome to come and those that are finished.
abbrev pub running : BackgroundPreparationKind → List BackgroundRecord → ℕ
running kind [] = 0
running kind (r ∷ rs) = one kind r + running kind rs

abbrev pub ending_tasks : BackgroundPreparationKind → List (BackgroundRecord × Bool) → ℕ
ending_tasks kind [] = 0
ending_tasks kind ((r, opened) ∷ rs) = one kind r + ending_tasks kind rs

pub running-insert :
    (kind : BackgroundPreparationKind) (before after : List BackgroundRecord) (r : BackgroundRecord)
    → running kind (before ++ r ∷ after) ≡ one kind r + running kind (before ++ after)
running-insert kind [] after r = refl
running-insert kind (x ∷ before) after r = omega (arith, running-insert kind before after r)

pub running-snoc :
    (kind : BackgroundPreparationKind) (rs : List BackgroundRecord) (r : BackgroundRecord)
    → running kind (rs ++ r ∷ []) ≡ one kind r + running kind rs
running-snoc kind [] r = refl
running-snoc kind (x ∷ rs) r = omega (arith, running-snoc kind rs r)

ending_tasks-insert :
    (kind : BackgroundPreparationKind) (before after : List (BackgroundRecord × Bool))
    (r : BackgroundRecord) (opened : Bool)
    → ending_tasks kind (before ++ (r, opened) ∷ after)
      ≡ one kind r + ending_tasks kind (before ++ after)
ending_tasks-insert kind [] after r opened = refl
ending_tasks-insert kind ((x, o) ∷ before) after r opened =
    omega (arith, ending_tasks-insert kind before after r opened)

-- There is room for one more task of the record's kind, and one more call.
abbrev HasRoom : WorkerConfig → WorkerState → Option BackgroundRecord → Type 0
HasRoom config w none = Unit
HasRoom config w (some r) =
    (w.active r.item.kind < limit config r.item.kind) × (w.calls_made < config.max_calls)

-- The counters are right and within their limits.
pub record IsBounded (config : WorkerConfig) (w : WorkerState) : Type 0 where
  pub counted :
      (kind : BackgroundPreparationKind)
      → w.active kind ≡ running kind w.in_flight + ending_tasks kind w.finished
  pub limited : (kind : BackgroundPreparationKind) → w.active kind ≤ limit config kind
  pub called : w.calls_made ≤ config.max_calls
  pub room : HasRoom config w w.reserved

same_kind-eq : (a b : BackgroundPreparationKind) → same_kind a b ≡ true → a ≡ b
same_kind-eq a b h = ground arith

module _ (config : WorkerConfig) where
  new_worker-IsBounded : (s : BackgroundStateStore) → IsBounded config (new_worker s)
  unfolding new_worker
  new_worker-IsBounded s = record {
    counted = λ kind. refl;
    limited = λ kind. omega arith;
    called = omega arith;
    room = tt;
  }

  visit-room :
      (elapsed : ℕ) (is_cancelled : String → Bool) (r : BackgroundRecord)
      (rest : List BackgroundRecord) (w : WorkerState)
      → w.reserved ≡ none
      → HasRoom config w (visit config elapsed is_cancelled r rest w).reserved
  unfolding visit
  visit-room elapsed is_cancelled r rest w h = ground arith

  visit-frame :
      (elapsed : ℕ) (is_cancelled : String → Bool) (r : BackgroundRecord)
      (rest : List BackgroundRecord) (w : WorkerState)
      → let v = visit config elapsed is_cancelled r rest w in
        (v.active ≡ w.active)
        × (v.calls_made ≡ w.calls_made)
        × (v.in_flight ≡ w.in_flight)
        × (v.finished ≡ w.finished)
  unfolding visit
  visit-frame elapsed is_cancelled r rest w = ground arith

  launch-IsBounded :
      (w : WorkerState) (r : BackgroundRecord)
      → IsBounded config w
      → HasRoom config w (some r)
      → IsBounded config (launch r w)
  unfolding launch
  launch-IsBounded w r h (a, c) = record {
    counted = λ kind. ground (arith, h.counted kind, running-snoc kind w.in_flight r);
    limited = λ kind. ground (arith, h.limited kind, same_kind-eq r.item.kind kind, a);
    called = omega (arith, c);
    room = tt;
  }

  settle-IsBounded :
      (w : WorkerState) (before after : List BackgroundRecord) (r : BackgroundRecord)
      (cancel_seen : Bool) (outcome : TaskOutcome)
      → w.in_flight ≡ before ++ r ∷ after
      → IsBounded config w
      → IsBounded config (settle r (before ++ after) cancel_seen outcome w)
  unfolding settle
  settle-IsBounded w before after r cancel_seen outcome e h = record {
    counted = λ kind.
        omega (arith, h.counted kind, running-insert kind before after r, ap (running kind) e);
    limited = h.limited;
    called = h.called;
    room = h.room;
  }

  less-room :
      (w v : WorkerState) (o : Option BackgroundRecord)
      → ((kind : BackgroundPreparationKind) → v.active kind ≤ w.active kind)
      → v.calls_made ≡ w.calls_made
      → HasRoom config w o
      → HasRoom config v o
  less-room w v none h c k = tt
  less-room w v (some r) h c (a, b) = (omega (arith, h r.item.kind, a), omega (arith, c, b))

  retire-IsBounded :
      (w : WorkerState) (before after : List (BackgroundRecord × Bool)) (r : BackgroundRecord)
      (opened : Bool)
      → w.finished ≡ before ++ (r, opened) ∷ after
      → IsBounded config w
      → IsBounded config (retire r opened (before ++ after) w)
  unfolding retire
  retire-IsBounded w before after r opened e h = record {
    counted = λ kind. ground (
      arith,
      h.counted kind,
      ending_tasks-insert kind before after r opened,
      ap (ending_tasks kind) e,
    );
    limited = λ kind. ground (arith, h.limited kind);
    called = h.called;
    room =
        less-room w (retire r opened (before ++ after) w) w.reserved (λ kind. ground arith) refl
          h.room;
  }

  -- A state that differs in its store and its pass alone.
  framed-IsBounded :
      (w v : WorkerState)
      → (v.active ≡ w.active)
        × (v.calls_made ≡ w.calls_made)
        × (v.in_flight ≡ w.in_flight)
        × (v.finished ≡ w.finished)
      → IsBounded config w
      → HasRoom config w v.reserved
      → IsBounded config v
  framed-IsBounded w v (a, c, i, f) h k = record {
    counted = λ kind.
        omega (
          arith,
          h.counted kind,
          ap (λ g. g kind) a,
          ap (running kind) i,
          ap (ending_tasks kind) f,
        );
    limited = λ kind. omega (arith, h.limited kind, ap (λ g. g kind) a);
    called = omega (arith, c, h.called);
    room = less-room w v v.reserved (λ kind. omega (arith, ap (λ g. g kind) a)) c k;
  }

  Step-IsBounded :
      (run_id : Option String) (w v : WorkerState)
      → Step config run_id w v
      → IsBounded config w
      → IsBounded config v
  unfolding abort
  Step-IsBounded run_id w _ (begun e f) h = framed-IsBounded w _ (refl, refl, refl, refl) h h.room
  Step-IsBounded run_id w _ (visited elapsed is_cancelled r rest e f) h =
      framed-IsBounded w _ (visit-frame elapsed is_cancelled r rest w) h
        (visit-room elapsed is_cancelled r rest w f)
  Step-IsBounded run_id w _ (launched r e) h =
      launch-IsBounded w r h (subst (HasRoom config w) e h.room)
  Step-IsBounded run_id w _ (settled before after r cancel_seen outcome e) h =
      settle-IsBounded w before after r cancel_seen outcome e h
  Step-IsBounded run_id w _ (retired before after r opened e) h =
      retire-IsBounded w before after r opened e h
  Step-IsBounded run_id w _ (stopped e f) h = framed-IsBounded w _ (refl, refl, refl, refl) h h.room
  Step-IsBounded run_id w _ (elsewhere s) h = framed-IsBounded w _ (refl, refl, refl, refl) h h.room

  Reaches-IsBounded :
      (run_id : Option String) (w v : WorkerState)
      → Reaches config run_id w v
      → IsBounded config w
      → IsBounded config v
  Reaches-IsBounded run_id w _ start h = h
  Reaches-IsBounded run_id w _ (next {v} {u} earlier step) h =
      Step-IsBounded run_id v u step (Reaches-IsBounded run_id w v earlier h)

  -- In every interleaving of a run that starts afresh, the tasks that run are counted right, no kind
  -- has more of them than its limit, and no more calls are made than the budget allows.
  pub run-IsBounded :
      (run_id : Option String) (s : BackgroundStateStore) (w : WorkerState)
      → Reaches config run_id (new_worker s) w
      → IsBounded config w
  run-IsBounded run_id s w r = Reaches-IsBounded run_id (new_worker s) w r (new_worker-IsBounded s)
