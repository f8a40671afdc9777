-- ===== src/Background/Store/Disk.antt =====
-- The directory of item files against the records in memory.
use yuhi.Prelude.{ℕ, String, eq_iff, ◌≡◌, refl, ap, some, arith, inl, inr, Option-cases}
use yuhi.Prelude.Assoc.{lookup, insert, lookup-insert}
use yuhi.Background.Types.{EnqueueInput, BackgroundRecord}
use yuhi.Background.Store.{
  Digests, BackgroundStateStore, persist, index, duplicate, new_record, key_of, enqueue, Patch,
  patched, update,
}

-- Every record is held under the id of its item, and the file of an id holds the record of the id.
pub record IsMirrored (s : BackgroundStateStore) : Type 0 where
  pub keyed :
      (id : String) (r : BackgroundRecord) → lookup id s.records ≡ some r → r.item.item_id ≡ id
  pub on_disk : (id : String) → lookup id s.files ≡ lookup id s.records

-- Writing a record to memory and to disk under its own id.
write-IsMirrored :
    (s t : BackgroundStateStore) (r : BackgroundRecord)
    → IsMirrored s
    → t.records ≡ insert r.item.item_id r s.records
    → t.files ≡ insert r.item.item_id r s.files
    → IsMirrored t
write-IsMirrored s t r m e f = record {
  keyed = λ id x h. ground (
    arith,
    m.keyed id x,
    lookup-insert r.item.item_id id r s.records,
    eq_iff r.item.item_id id,
    ap (lookup id) e,
  );
  on_disk = λ id. ground (
    arith,
    m.on_disk id,
    lookup-insert r.item.item_id id r s.records,
    lookup-insert r.item.item_id id r s.files,
    ap (lookup id) e,
    ap (lookup id) f,
  );
}

pub index-records :
    (r : BackgroundRecord) (s : BackgroundStateStore)
    → ((index r s).records ≡ insert r.item.item_id r s.records) × ((index r s).files ≡ s.files)
unfolding index
index-records r s = ground arith

-- Enqueueing work in a store whose files hold its records leaves a store whose files hold its
-- records.
pub enqueue-IsMirrored :
    (digests : Digests) (now : ℕ) (input : EnqueueInput) (s : BackgroundStateStore)
    → IsMirrored s
    → IsMirrored (enqueue digests now input s).1
unfolding enqueue persist
enqueue-IsMirrored digests now input s m =
    elim (Option-cases (duplicate (key_of digests input) s)) [
      | inr (r, old) ↦ rw (enqueue, old) m
      | inl fresh ↦
          rw (enqueue, fresh)
            (write-IsMirrored s _ (new_record digests now input (key_of digests input)) m
              (index-records (new_record digests now input (key_of digests input)) s).0
              (ap (insert _ _)
                (index-records (new_record digests now input (key_of digests input)) s).1))
    ]

-- Updating a record, or an id that has none, of a store whose files hold its records leaves a store
-- whose files hold its records.
pub update-IsMirrored :
    (item_id : String) (p : Patch) (s : BackgroundStateStore)
    → IsMirrored s
    → IsMirrored (update item_id p s).1
unfolding update persist
update-IsMirrored item_id p s m = elim (Option-cases (lookup item_id s.records)) [
  | inl absent ↦ rw (update, absent) m
  | inr (r, found) ↦
      rw (update, found) (write-IsMirrored s _ (patched p r) m (rw (m.keyed item_id r found)) refl)
]
