-- ===== src/Background/Store/Reload.antt =====
-- What a restart recovers from the item files.
use yuhi.Prelude.{
  ℕ, String, eq_iff, ◌≡◌, refl, ap, ◌∙◌, Option, none, some, List, [], ◌∷◌, map, arith,
  if◌then◌else◌, inl, inr, Option-cases, All,
}
use yuhi.Prelude.Assoc.{lookup, insert, lookup-insert}
use yuhi.Native.Settings.{Value}
use yuhi.Background.Normalize.{json_of}
use yuhi.Background.Normalize.RoundTrip.{read_record-json_of}
use yuhi.Background.Types.{
  pending, background_pending, EnqueueInput, BackgroundRecord, is_processing,
}
use yuhi.Background.Store.{
  Digests, BackgroundStateStore, persist, duplicate, new_record, key_of, enqueue, Patch, patched,
  update, load_entry, load_entries, load,
}
use yuhi.Background.Store.Disk.{IsMirrored, index-records, enqueue-IsMirrored, update-IsMirrored}

abbrev Files : Type 0
Files = List (String × BackgroundRecord)

-- No two files have one name.
abbrev pub IsDistinct : List (String × BackgroundRecord) → Type 0
IsDistinct [] = Unit
IsDistinct ((id, r) ∷ m) = (lookup id m ≡ none) × IsDistinct m

abbrev pub IsNamed : String × BackgroundRecord → Type 0
IsNamed (id, r) = r.item.item_id ≡ id

-- Each file is named after the item of its record, and no two have one name.
abbrev pub IsFiled : List (String × BackgroundRecord) → Type 0
IsFiled m = IsDistinct m × All IsNamed m

insert-IsFiled :
    (r : BackgroundRecord) (m : Files) → IsFiled m → IsFiled (insert r.item.item_id r m)
unfolding insert lookup
insert-IsFiled r [] h = ((refl, tt), (refl, tt))
insert-IsFiled r ((id, x) ∷ m) h = ground (
  arith,
  insert-IsFiled r m,
  eq_iff id r.item.item_id,
  eq_iff r.item.item_id id,
  lookup-insert r.item.item_id id r m,
)

-- If the files of a store are named after their items, with no name twice, then they are after work
-- is enqueued.
pub enqueue-IsFiled :
    (digests : Digests) (now : ℕ) (input : EnqueueInput) (s : BackgroundStateStore)
    → IsFiled s.files
    → IsFiled (enqueue digests now input s).1.files
unfolding persist enqueue
enqueue-IsFiled digests now input s h = elim (Option-cases (duplicate (key_of digests input) s)) [
  | inr (r, old) ↦ rw (enqueue, old) h
  | inl fresh ↦
      rw (enqueue, fresh, (index-records (new_record digests now input (key_of digests input)) s).1)
        (insert-IsFiled (new_record digests now input (key_of digests input)) s.files h)
]

-- If the files of a store are named after their items, with no name twice, then they are after an
-- update.
pub update-IsFiled :
    (item_id : String) (p : Patch) (s : BackgroundStateStore)
    → IsFiled s.files
    → IsFiled (update item_id p s).1.files
unfolding persist update
update-IsFiled item_id p s h = elim (Option-cases (lookup item_id s.records)) [
  | inl absent ↦ rw (update, absent) h
  | inr (r, found) ↦ rw (update, found) (insert-IsFiled (patched p r) s.files h)
]

-- If the files of a store hold its records and are named after their items, with no name twice, then
-- the same holds after any work is enqueued, and after any record is updated.
pub files_keep_up :
    (digests : Digests) (now : ℕ) (input : EnqueueInput) (item_id : String) (p : Patch)
    (s : BackgroundStateStore)
    → IsMirrored s
    → IsFiled s.files
    → (IsMirrored (enqueue digests now input s).1 × IsFiled (enqueue digests now input s).1.files)
      × (IsMirrored (update item_id p s).1 × IsFiled (update item_id p s).1.files)
files_keep_up digests now input item_id p s m f = (
  (enqueue-IsMirrored digests now input s m, enqueue-IsFiled digests now input s f),
  (update-IsMirrored item_id p s m, update-IsFiled item_id p s f),
)

-- What a record is after a restart: work that was under way is pending again.
abbrev pub recovered : BackgroundRecord → BackgroundRecord
recovered r =
    if is_processing r.status
    then record r { status = pending; reason_code = some background_pending }
    else r

-- A file, as the JSON value that was written to it.
abbrev pub written : String × BackgroundRecord → String × Option Value
written (id, r) = (id, some (json_of r))

abbrev pub or_else : Option BackgroundRecord → Option BackgroundRecord → Option BackgroundRecord
or_else none old = old
or_else (some r) old = some (recovered r)

load_entry-records :
    (now : ℕ) (id : String) (r : BackgroundRecord) (s : BackgroundStateStore)
    → (load_entry now id (some r) s).records ≡ insert r.item.item_id (recovered r) s.records
unfolding load_entry
load_entry-records now id r s = ground arith

load_entries-written :
    (now : ℕ) (j : String) (r : BackgroundRecord) (m : Files) (s : BackgroundStateStore)
    → load_entries now (map written ((j, r) ∷ m)) s
      ≡ load_entries now (map written m) (load_entry now j (some r) s)
unfolding load_entries
load_entries-written now j r m s =
    ap (λ o. load_entries now (map written m) (load_entry now j o s)) (read_record-json_of j r)

load_entries-lookup :
    (now : ℕ) (id : String) (m : Files) (s : BackgroundStateStore)
    → IsFiled m
    → lookup id (load_entries now (map written m) s).records
      ≡ or_else (lookup id m) (lookup id s.records)
unfolding lookup
load_entries-lookup now id [] s h = unfold load_entries in refl
load_entries-lookup now id ((j, r) ∷ m) s ((fresh, d), (named, n)) =
    rw (load_entries-written now j r m s) (
      ground (
        arith,
        load_entries-lookup now id m (load_entry now j (some r) s) (d, n),
        load_entry-records now j r s,
        lookup-insert r.item.item_id id (recovered r) s.records,
        eq_iff j id,
        eq_iff r.item.item_id id,
      ))

-- A process that restarts on the files of a store, each of which parses to the JSON value that was
-- written of its record and is named after its item, and reads them by `normalizeRecord`, finds every record that the store held, under the same id, with work that was under way
-- pending again, and no other record.
pub reload_recovers :
    (now : ℕ) (s : BackgroundStateStore) (id : String)
    → IsMirrored s
    → IsFiled s.files
    → lookup id (load now (map written s.files) s.files).records
      ≡ or_else (lookup id s.records) none
unfolding load lookup
reload_recovers now s id m h =
    load_entries-lookup now id s.files _ h ∙ ap (λ o. or_else o none) (m.on_disk id)
