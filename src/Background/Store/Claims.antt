-- ===== src/Background/Store/Claims.antt =====
-- When enqueueing dedupes, and when it does not.
use yuhi.Prelude.{
  ℕ, String, str_eq, eq_iff, ◌≡◌, refl, sym, subst, ◌∙◌, ◌≢◌, true, false, none, some, arith, inl,
  inr, Option-cases,
}
use yuhi.Prelude.Assoc.{lookup, lookup-insert}
use yuhi.Background.Types.{EnqueueInput, BackgroundRecord, is_live, is_corrupt}
use yuhi.Background.Store.{
  Digests, BackgroundStateStore, persist, index, duplicate, new_record, store_new, key_of, enqueue,
}

-- Every key that is claimed is claimed by the id that is derived from it, and no derived id is
-- empty.
pub record IsDerived (digests : Digests) (s : BackgroundStateStore) : Type 0 where
  pub claimed : (key id : String) → lookup key s.by_key ≡ some id → id ≡ digests.of_key key
  pub named : (key : String) → str_eq (digests.of_key key) "" ≡ false

index-claim :
    (digests : Digests) (s : BackgroundStateStore) (r : BackgroundRecord)
    → IsDerived digests s
    → r.item.item_id ≡ digests.of_key r.idempotency_key
    → is_corrupt r.reason_code ≡ false
    → lookup r.idempotency_key (index r s).by_key ≡ some r.item.item_id
unfolding index
index-claim digests s r d e h = elim (Option-cases (lookup r.idempotency_key s.by_key)) [
  | inl free ↦ ground (
    arith,
    lookup-insert r.idempotency_key r.idempotency_key r.item.item_id s.by_key,
    eq_iff r.idempotency_key r.idempotency_key,
  )
  | inr (id, taken) ↦ ground (
    arith,
    d.claimed r.idempotency_key id,
    d.named r.idempotency_key,
    lookup-insert r.item.item_id id r s.records,
    eq_iff r.item.item_id id,
    lookup-insert r.idempotency_key r.idempotency_key r.item.item_id s.by_key,
    eq_iff r.idempotency_key r.idempotency_key,
  )
]

index-record :
    (s : BackgroundStateStore) (r : BackgroundRecord)
    → lookup r.item.item_id (index r s).records ≡ some r
unfolding index
index-record s r = ground (
  arith,
  lookup-insert r.item.item_id r.item.item_id r s.records,
  eq_iff r.item.item_id r.item.item_id,
)

-- A piece of work that names no id of its own.
abbrev pub IsUnnamed : EnqueueInput → Type 0
IsUnnamed input = input.item_id ≡ none

new_record-id :
    (digests : Digests) (now : ℕ) (input : EnqueueInput) (key : String)
    → IsUnnamed input
    → (new_record digests now input key).item.item_id ≡ digests.of_key key
unfolding new_record
new_record-id digests now input key h = rw h

-- A live record that is claimed under its key is what the key dedupes to.
duplicate_of_claim :
    (key id : String) (s : BackgroundStateStore) (r : BackgroundRecord)
    → lookup key s.by_key ≡ some id
    → str_eq id "" ≡ false
    → lookup id s.records ≡ some r
    → is_live r.status ≡ true
    → duplicate key s ≡ some r
unfolding duplicate
duplicate_of_claim key id s r c n l v = rw (c, n, l, v)

module _ (digests : Digests) (now : ℕ) (input : EnqueueInput) (s : BackgroundStateStore) where
  enqueue_of_duplicate :
      (r : BackgroundRecord)
      → duplicate (key_of digests input) s ≡ some r
      → enqueue digests now input s ≡ (record { entry = r; deduped = true }, s)
  unfolding enqueue
  enqueue_of_duplicate r h = rw (enqueue, h)

  pub enqueue_of_new :
      duplicate (key_of digests input) s ≡ none
      → enqueue digests now input s
        ≡ store_new (new_record digests now input (key_of digests input)) s
  unfolding enqueue
  enqueue_of_new h = rw (enqueue, h)

  -- After new work was stored, its key dedupes to its record.
  store_new-duplicate :
      IsDerived digests s
      → IsUnnamed input
      → duplicate
          (key_of digests input)
          (store_new (new_record digests now input (key_of digests input)) s).1
        ≡ some (new_record digests now input (key_of digests input))
  unfolding persist
  store_new-duplicate d u =
      let k = key_of digests input in
      let r = new_record digests now input k in
      let i : r.item.item_id ≡ digests.of_key k = new_record-id digests now input k u in
      duplicate_of_claim k r.item.item_id (persist r (index r s)) r
        (unfold new_record in index-claim digests s r d i refl)
        (subst (λ id. str_eq id "" ≡ false) (sym i) (d.named k)) (index-record s r)
        (unfold new_record in refl)

-- In a store where every claimed key is claimed by the id derived from it, work that names no id is
-- enqueued once: after the first call, a second one for the same key, at
-- whatever time and of whatever run or priority, returns the first call's record and changes
-- nothing.
pub enqueue_twice :
    (digests : Digests) (now later : ℕ) (first second : EnqueueInput) (s : BackgroundStateStore)
    → IsDerived digests s
    → IsUnnamed first
    → key_of digests second ≡ key_of digests first
    → enqueue digests later second (enqueue digests now first s).1 ≡ (
      record { entry = (enqueue digests now first s).0.entry; deduped = true },
      (enqueue digests now first s).1,
    )
enqueue_twice digests now later first second s d u same =
    elim (Option-cases (duplicate (key_of digests first) s)) [
      | inr (r, old) ↦
          rw (enqueue_of_duplicate digests now first s r old)
            (enqueue_of_duplicate digests later second s r (rw same old))
      | inl fresh ↦ rw (enqueue_of_new digests now first s fresh) (
          enqueue_of_duplicate digests later second _ _
            (rw same (store_new-duplicate digests now first s d u)))
    ]

index-IsDerived :
    (digests : Digests) (s : BackgroundStateStore) (r : BackgroundRecord)
    → r.item.item_id ≡ digests.of_key r.idempotency_key
    → IsDerived digests s
    → IsDerived digests (persist r (index r s))
unfolding index persist
index-IsDerived digests s r e d = record {
  claimed = λ key id h. ground (
    arith,
    h,
    e,
    d.claimed key id,
    eq_iff r.idempotency_key key,
    lookup-insert r.idempotency_key key r.item.item_id s.by_key,
  );
  named = d.named;
}

-- Enqueueing work that names no id keeps every claimed key claimed by the id derived from it.
pub enqueue-IsDerived :
    (digests : Digests) (now : ℕ) (input : EnqueueInput) (s : BackgroundStateStore)
    → IsUnnamed input
    → IsDerived digests s
    → IsDerived digests (enqueue digests now input s).1
enqueue-IsDerived digests now input s u d =
    let k = key_of digests input in
    let r = new_record digests now input k in
    elim (Option-cases (duplicate k s)) [
      | inr (old, h) ↦ rw (enqueue_of_duplicate digests now input s old h) d
      | inl fresh ↦
          rw (enqueue_of_new digests now input s fresh) (
            index-IsDerived digests s r (unfold new_record in new_record-id digests now input k u)
              d)
    ]

duplicate_of_dead :
    (key id : String) (s : BackgroundStateStore) (r : BackgroundRecord)
    → lookup key s.by_key ≡ some id
    → str_eq id "" ≡ false
    → lookup id s.records ≡ some r
    → is_live r.status ≡ false
    → duplicate key s ≡ none
unfolding duplicate
duplicate_of_dead key id s r c n l v = rw (c, n, l, v)

-- A key that another record still claims is not claimed anew.
index-taken :
    (s : BackgroundStateStore) (r other : BackgroundRecord) (old : String)
    → is_corrupt r.reason_code ≡ false
    → lookup r.idempotency_key s.by_key ≡ some old
    → str_eq old "" ≡ false
    → lookup old s.records ≡ some other
    → r.item.item_id ≢ old
    → (lookup r.idempotency_key (index r s).by_key ≡ some old)
      × (lookup old (index r s).records ≡ some other)
unfolding index
index-taken s r other old q c n l ne =
    ground (arith, lookup-insert r.item.item_id old r s.records, eq_iff r.item.item_id old)

-- An explicit id defeats this. Where the record that claims a key is not live any more, work of that
-- key under another id is stored and is live, but the key does not dedupe to it: the next work of
-- the same key is stored once more.
pub renamed_enqueue_not_deduped :
    (digests : Digests) (now : ℕ) (input : EnqueueInput) (s : BackgroundStateStore)
    (old id : String) (dead : BackgroundRecord)
    → lookup (key_of digests input) s.by_key ≡ some old
    → str_eq old "" ≡ false
    → lookup old s.records ≡ some dead
    → is_live dead.status ≡ false
    → input.item_id ≡ some id
    → old ≢ id
    → let s' = (enqueue digests now input s).1 in
      (lookup id s'.records ≡ some (new_record digests now input (key_of digests input)))
      × (duplicate (key_of digests input) s' ≡ none)
unfolding new_record persist
renamed_enqueue_not_deduped digests now input s old id dead c n l v e ne =
    let k = key_of digests input in
    let r = new_record digests now input k in
    let i : r.item.item_id ≡ id = rw e in
    let kept = index-taken s r dead old refl c n l (λ same. ne (sym same ∙ i)) in
    rw (enqueue_of_new digests now input s (duplicate_of_dead k old s dead c n l v)) (
      subst (λ j. lookup j (index r s).records ≡ some r) i (index-record s r),
      unfold persist in duplicate_of_dead k old (persist r (index r s)) dead kept.0 n kept.1 v,
    )
