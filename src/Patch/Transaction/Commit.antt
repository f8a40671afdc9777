-- ===== src/Patch/Transaction/Commit.antt =====
-- A patch that is reported as applied is in place, touches nothing else, and can be taken back.
use yuhi.Prelude.{
  ℕ, suc, String, Bool, true, not, ◌&&◌, ◌||◌, Option, none, some, is_some, List, [], ◌∷◌, ◌++◌,
  all, All, append-nil, append_assoc, eq_iff, ◌≡◌, ◌≢◌, refl, sym, ap, subst, ◌∙◌, arith, inl, inr,
  Bool-cases,
}
use yuhi.Prelude.Assoc.{lookup, lookup-insert}
use yuhi.Patch.Types.{Relpath, PatchChange}
use yuhi.Patch.Tree.{Bytes, Tree, Sha256}
use yuhi.Patch.Apply.{Review, validate_change, mutate}
use yuhi.Patch.Apply.Restore.{Remembers}
use yuhi.Patch.Records.{applied, PrivateRoot, patch_dir}
use yuhi.Patch.Transaction.{
  ApplyFaults, mutate_all, attempt, Attempt, mutate_if_backed_up, backup_all, empty_tree,
  all_verified, in_place, roll_back, conclude, preflight, refused, relpaths, in_directory,
  applied_record, Outcome, apply_patch_atomically,
}
use yuhi.Patch.Transaction.Backup.{IsFree, preflight-IsFree}
use yuhi.Patch.Transaction.Rollback.{Accounts, IsUnchangedBut, begun, attempt-Accounts}

-- A run that did not stop has made every change.
mutate_all-made :
    (sha : Sha256) (review : Review) (faults : ApplyFaults) (n : ℕ) (changes : List PatchChange)
    (prepared source : Tree) (made : List PatchChange)
    → let p = mutate_all sha review faults n changes prepared source made in
      p.ok ≡ true → begun p ≡ made ++ changes
unfolding mutate_all
mutate_all-made sha review faults n [] prepared source made ok = sym (append-nil made)
mutate_all-made sha review faults n (change ∷ changes) prepared source made ok =
    let w = mutate sha (faults.mutation n) change prepared source in
    let ih =
      mutate_all-made sha review faults (suc n) changes prepared w.tree (made ++ change ∷ []) in
    elim (Bool-cases
      (faults.validation n || not (validate_change sha review change source prepared))) [
        | inl stop ↦ absurd (ground (arith, ok, stop))
        | inr go ↦ elim (Bool-cases w.ok) [
          | inl went ↦
              rw (go, went) (ih (rw (go, went) at ok) ∙ append_assoc made (change ∷ []) changes)
          | inr broken ↦ absurd (ground (arith, ok, go, broken))
        ]
      ]

attempt-made :
    (sha : Sha256) (review : Review) (faults : ApplyFaults) (exists : Bool)
    (changes : List PatchChange) (source prepared : Tree)
    → let a = attempt sha review faults exists changes source prepared in
      a.progress.ok ≡ true → begun a.progress ≡ changes
unfolding attempt mutate_if_backed_up
attempt-made sha review faults exists changes source prepared ok =
    let b = backup_all sha faults.backup 0 changes source empty_tree in
    elim (Bool-cases (exists || faults.make_directory)) [
      | inl fault ↦ absurd (ground (arith, ok, fault))
      | inr made ↦ elim (Bool-cases faults.make_backup) [
        | inl fault ↦ absurd (ground (arith, ok, made, fault))
        | inr ready ↦ elim (Bool-cases b.ok) [
          | inl backed ↦
              rw (made, ready, backed)
                (mutate_all-made sha review faults 0 changes prepared source []
                  (rw (made, ready, backed) at ok))
          | inr broken ↦ absurd (ground (arith, ok, made, ready, broken))
        ]
      ]
    ]

-- What success means: every change is in place, the rest is as it was, and the record and the
-- backup that an undo needs are kept.
pub record Applies (sha : Sha256) (unread : Relpath → Bool) (patch_id directory : String)
    (changes : List PatchChange) (source : Tree) (outcome : Outcome) : Type 0 where
  pub verified : all (in_place sha outcome.source) changes ≡ true
  pub elsewhere : IsUnchangedBut source outcome.source changes
  pub backup : Tree
  pub remembers : All (Remembers source backup) changes
  pub recorded :
      lookup directory outcome.privately
      ≡ some (record {
        backup = backup;
        stored = some (applied_record sha unread patch_id changes outcome.source);
      })

conclude-Applies :
    (sha : Sha256) (faults : ApplyFaults) (directory patch_id : String) (changes : List PatchChange)
    (a : Attempt) (privately : PrivateRoot) (source : Tree)
    → Accounts (Remembers source a.backup) source a.progress
    → (a.progress.ok ≡ true → begun a.progress ≡ changes)
    → let out = conclude sha faults directory patch_id changes a privately in
      out.result.status ≡ applied
      → Applies sha faults.observation patch_id directory changes source out
unfolding conclude all_verified roll_back
conclude-Applies sha faults directory patch_id changes a privately source known made st =
    elim (Bool-cases (all_verified sha faults changes a && not faults.save)) [
      | inl finished ↦
          let e : begun a.progress ≡ changes = made (ground (arith, finished)) in
          rw (finished) (record {
            verified = ground (arith, finished);
            elsewhere = subst (λ cs. IsUnchangedBut source a.progress.tree cs) e known.away;
            backup = a.backup;
            remembers = subst (λ cs. All (Remembers source a.backup) cs) e known.all_known;
            recorded = ground (
              arith,
              lookup-insert directory directory
                  (record {
                    backup = a.backup;
                    stored =
                        some
                          (applied_record sha faults.observation patch_id changes a.progress.tree);
                  })
                  privately,
              eq_iff directory directory,
            );
          })
      | inr gave_up ↦ absurd (ground (arith, st, gave_up))
    ]

applied_in-Applies :
    (sha : Sha256) (review : Review) (faults : ApplyFaults) (patch_id : String)
    (changes : List PatchChange) (source prepared : Tree) (privately : PrivateRoot)
    (directory : Option String) (outcome : Outcome)
    → All (IsFree source) changes
    → in_directory sha review faults patch_id changes source prepared privately directory
      ≡ some outcome
    → outcome.result.status ≡ applied
    → (dir : String) × (directory ≡ some dir)
      × Applies sha faults.observation patch_id dir changes source outcome
applied_in-Applies sha review faults patch_id changes source prepared privately none outcome free e
      st =
    absurd (ground (arith, e))
applied_in-Applies sha review faults patch_id changes source prepared privately (some directory)
      outcome free e st =
    let exists = is_some (lookup directory privately) in
    let a = attempt sha review faults exists changes source prepared in
    let e' : conclude sha faults directory patch_id changes a privately ≡ outcome = cc e in
    (
      directory,
      refl,
      subst
          (λ o.
            o.result.status ≡ applied
            → Applies sha faults.observation patch_id directory changes source o)
          e'
          (conclude-Applies sha faults directory patch_id changes a privately source
            (attempt-Accounts sha review faults exists changes source prepared free)
            (attempt-made sha review faults exists changes source prepared))
          st,
    )

-- If no bytes have the digest "missing", then wherever the file system throws, an application that answers
-- `applied` has verified every change in the tree it leaves, has changed no other place, and has kept the
-- record and a backup of what was at the places of the changes.
pub apply_patch_atomically-applied :
    (sha : Sha256) (review : Review) (fold : Relpath → Relpath) (faults : ApplyFaults)
    (patch_id : String) (changes : List PatchChange) (source prepared : Tree)
    (privately : PrivateRoot) (outcome : Outcome)
    → ((b : Bytes) → sha b ≢ "missing")
    → apply_patch_atomically sha review fold faults patch_id changes source prepared privately
      ≡ some outcome
    → outcome.result.status ≡ applied
    → (directory : String) × (patch_dir patch_id ≡ some directory)
      × Applies sha faults.observation patch_id directory changes source outcome
unfolding apply_patch_atomically preflight
apply_patch_atomically-applied sha review fold faults patch_id changes source prepared privately
      outcome h e st =
    elim (Bool-cases (preflight sha review fold faults changes source prepared)) [
      | inl checked ↦
          applied_in-Applies sha review faults patch_id changes source prepared privately
            (patch_dir patch_id) outcome
            (preflight-IsFree sha review changes source prepared h (ground (arith, checked)))
            (rw (checked) at e) st
      | inr stopped_early ↦
          let result = refused patch_id (relpaths changes) in
          let early : Outcome = record {
            source = source;
            privately = privately;
            result = result;
          } in
          let e' : early ≡ outcome = cc (rw (stopped_early) at e) in
          absurd (ground (arith, st, ap (λ o. o.result.status) e'))
    ]
