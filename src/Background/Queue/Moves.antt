-- ===== src/Background/Queue/Moves.antt =====
-- What the queue's operations do to each record.
use yuhi.Prelude.{
  String, str_eq, eq_iff, ◌≡◌, ◌||◌, Option, none, some, arith, if◌then◌else◌, inl, inr,
  Option-cases, Bool-cases,
}
use yuhi.Prelude.Assoc.{lookup, lookup-insert}
use yuhi.Background.Types.{
  pending, cancelled, background_pending, background_cancelled, BackgroundRecord, is_pending,
  is_processing, is_completed,
}
use yuhi.Background.Store.{BackgroundStateStore, persist, Patch, patched, update}
use yuhi.Background.Queue.{cancel, cancel_patch, retry, retry_patch}

abbrev pub map_record :
    (BackgroundRecord → BackgroundRecord) → Option BackgroundRecord → Option BackgroundRecord
map_record f none = none
map_record f (some r) = some (f r)

-- An update changes the record under its id and no other.
pub lookup-update :
    (id j : String) (p : Patch) (s : BackgroundStateStore)
    → lookup j (update id p s).1.records
      ≡ (if str_eq id j then map_record (patched p) (lookup j s.records) else lookup j s.records)
unfolding update persist
lookup-update id j p s = elim (Option-cases (lookup id s.records)) [
  | inl absent ↦ rw (update, absent) (ground (arith, absent, eq_iff id j))
  | inr (r, found) ↦
      rw (update, found)
        (ground (arith, found, eq_iff id j, lookup-insert id j (patched p r) s.records))
]

-- A record after it was cancelled: only pending and running work is.
abbrev pub cancelled_record : BackgroundRecord → BackgroundRecord
cancelled_record r =
    if is_pending r.status || is_processing r.status
    then record r { status = cancelled; reason_code = some background_cancelled }
    else r

-- A record after it was retried: completed work is left alone. A published path is kept.
abbrev pub retried_record : BackgroundRecord → BackgroundRecord
retried_record r =
    if is_completed r.status
    then r
    else record r { status = pending; reason_code = some background_pending; elapsed_ms = 0 }

-- Cancelling an item marks its record if it is pending or running; a record in a terminal state,
-- and every other record, stay as they are.
pub lookup-cancel :
    (id j : String) (s : BackgroundStateStore)
    → lookup j (cancel id s).1.records ≡ (
        if str_eq id j
        then map_record cancelled_record (lookup j s.records)
        else lookup j s.records)
unfolding cancel patched
lookup-cancel id j s = elim (Option-cases (lookup id s.records)) [
  | inl absent ↦ rw (cancel, absent) (ground (arith, absent, eq_iff id j))
  | inr (r, found) ↦ elim (Bool-cases (is_pending r.status || is_processing r.status)) [
    | inl live ↦
        rw (cancel, found, live, lookup-update id j cancel_patch s)
          (ground (arith, found, live, eq_iff id j))
    | inr ended ↦ rw (cancel, found, ended) (ground (arith, found, ended, eq_iff id j))
  ]
]

-- Retrying an item makes its record pending with no time spent, unless it is completed: a record
-- that a worker is running is reset too, and a published path is kept. Every other record stays.
pub lookup-retry :
    (id j : String) (s : BackgroundStateStore)
    → lookup j (retry id s).1.records
      ≡ (if str_eq id j then map_record retried_record (lookup j s.records) else lookup j s.records)
unfolding retry patched
lookup-retry id j s = elim (Option-cases (lookup id s.records)) [
  | inl absent ↦ rw (retry, absent) (ground (arith, absent, eq_iff id j))
  | inr (r, found) ↦ elim (Bool-cases (is_completed r.status)) [
    | inl done ↦ rw (retry, found, done) (ground (arith, found, done, eq_iff id j))
    | inr other ↦
        rw (retry, found, other, lookup-update id j retry_patch s)
          (ground (arith, found, other, eq_iff id j))
  ]
]
