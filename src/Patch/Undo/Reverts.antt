-- ===== src/Patch/Undo/Reverts.antt =====
-- Applying a patch and taking it back gives the tree that was there.
use yuhi.Prelude.{
  String, Bool, true, false, ◌||◌, Option, none, some, List, [], ◌∷◌, filter-All, any, All, ◌≡◌,
  ◌≢◌, refl, subst, arith, if◌then◌else◌, inl, inr, Bool-cases,
}
use yuhi.Text.{same_refl}
use yuhi.Patch.Types.{Relpath, PatchChange}
use yuhi.Patch.Tree.{Bytes, Tree, Sha256, Written}
use yuhi.Patch.Apply.{Review}
use yuhi.Patch.Apply.Restore.{Remembers}
use yuhi.Patch.Records.{applied, undone, PrivateRoot}
use yuhi.Patch.Transaction.{
  ApplyFaults, relpaths, includes, Progress, empty_tree, applied_record, Outcome,
  apply_patch_atomically,
}
use yuhi.Patch.Transaction.Rollback.{IsUnchangedBut, IsUnchangedBut-reverse, All-reverse}
use yuhi.Patch.Transaction.Commit.{apply_patch_atomically-applied}
use yuhi.Patch.Undo.{
  UndoFaults, undoing, all_still_in_place, capture_all, undo_all, Undoing, roll_back_undo,
  finish_undo, with_capture, begin_undo, undo_stored, undo_patch,
}
use yuhi.Patch.Undo.Laws.{undo_all-restores}

finish_undo-undone :
    (sha : Sha256) (faults : UndoFaults) (u : Undoing) (captured : Tree) (p : Progress)
    (privately : PrivateRoot)
    → let out = finish_undo sha faults u captured p privately in
      out.result.status ≡ undone → (p.ok ≡ true) × (out.source ≡ p.tree)
unfolding finish_undo roll_back_undo
finish_undo-undone sha faults u captured p privately st = elim (Bool-cases p.ok) [
  | inl went ↦ elim (Bool-cases (faults.save || faults.cleanup)) [
    | inl fault ↦ absurd (ground (arith, st, went, fault))
    | inr saved ↦ (went, rw (went, saved) refl)
  ]
  | inr broken ↦ absurd (ground (arith, st, broken))
]

-- What an outcome says of the tree before the patch.
abbrev Reverts : Tree → Option Outcome → Type 0
Reverts original out =
    (outcome : Outcome)
    → out ≡ some outcome
    → outcome.result.status ≡ undone
    → (asked : Relpath) → outcome.source asked ≡ original asked

Reverts-some :
    (original : Tree) (made : Outcome)
    → (made.result.status ≡ undone → (asked : Relpath) → made.source asked ≡ original asked)
    → Reverts original (some made)
Reverts-some original made h outcome e =
    let e' : made ≡ outcome = cc e in
    subst (λ o. o.result.status ≡ undone → (asked : Relpath) → o.source asked ≡ original asked) e' h

Reverts-none : (original : Tree) → Reverts original none
Reverts-none original outcome e = absurd (ground (arith, e))

with_capture-reverts :
    (sha : Sha256) (faults : UndoFaults) (u : Undoing) (source original : Tree)
    (privately : PrivateRoot) (w : Written)
    → All (Remembers original u.backup) u.ordered
    → IsUnchangedBut original source u.ordered
    → let out = with_capture sha faults u source privately w in
      out.result.status ≡ undone → (asked : Relpath) → out.source asked ≡ original asked
with_capture-reverts sha faults u source original privately w remembers away st asked =
    let p = undo_all sha faults.restore 0 u.ordered u.backup source [] in
    elim (Bool-cases w.ok) [
      | inl went ↦
          let (ok, e) = finish_undo-undone sha faults u w.tree p privately (rw (went) at st) in
          rw (went, e)
            (undo_all-restores sha faults.restore 0 u.ordered original u.backup source [] remembers
              away ok asked)
      | inr broken ↦ absurd (ground (arith, st, broken))
    ]

begin_undo-Reverts :
    (sha : Sha256) (faults : UndoFaults) (u : Undoing) (changes : List PatchChange)
    (source original : Tree) (privately : PrivateRoot) (answer : Option Bool)
    → All (Remembers original u.backup) u.ordered
    → IsUnchangedBut original source u.ordered
    → Reverts original (begin_undo sha faults u changes source privately answer)
begin_undo-Reverts sha faults u changes source original privately none remembers away =
    Reverts-none original
begin_undo-Reverts sha faults u changes source original privately (some false) remembers away =
    Reverts-some original _ (λ st. absurd (ground (arith, st)))
begin_undo-Reverts sha faults u changes source original privately (some true) remembers away =
    Reverts-some original _ (
      with_capture-reverts sha faults u source original privately
        (capture_all sha faults.capture 0 changes source empty_tree) remembers away)

weaken :
    (path : Relpath) (paths : List Relpath) (changes : List PatchChange)
    → All (λ change. includes paths change.relpath ≡ true) changes
    → All (λ change. includes (path ∷ paths) change.relpath ≡ true) changes
unfolding any
weaken path paths [] k = tt
weaken path paths (change ∷ changes) (k, ks) = (ground (arith, k), weaken path paths changes ks)

relpaths-All :
    (changes : List PatchChange)
    → All (λ change. includes (relpaths changes) change.relpath ≡ true) changes
unfolding any
relpaths-All [] = tt
relpaths-All (change ∷ changes) = (
  ground (arith, same_refl change.relpath),
  weaken change.relpath (relpaths changes) changes (relpaths-All changes),
)

undo_stored-Reverts :
    (sha : Sha256) (unread : Relpath → Bool) (faults : UndoFaults) (patch_id directory : String)
    (changes : List PatchChange) (source original : Tree) (privately : PrivateRoot) (backup : Tree)
    → All (Remembers original backup) changes
    → IsUnchangedBut original source changes
    → Reverts original (
        undo_stored sha faults patch_id directory source privately backup
          (applied_record sha unread patch_id changes source))
undo_stored-Reverts sha unread faults patch_id directory changes source original privately backup
      remembers away =
    rw
      (filter-All (λ change. includes (relpaths changes) change.relpath) changes
        (relpaths-All changes))
      (begin_undo-Reverts sha faults
        (undoing patch_id directory backup (applied_record sha unread patch_id changes source)
          changes)
        changes source original privately
        (if faults.check then none else all_still_in_place sha source changes)
        (All-reverse (Remembers original backup) changes remembers)
        (IsUnchangedBut-reverse original source changes away))

-- If no bytes have the digest "missing", then wherever the file system throws, where a patch is applied and
-- then undone, and both say so, every place of the source tree is as it was before.
pub undo_patch-apply_patch_atomically :
    (sha : Sha256) (review : Review) (fold : Relpath → Relpath) (faults : ApplyFaults)
    (undo_faults : UndoFaults) (patch_id : String) (changes : List PatchChange)
    (source prepared : Tree) (privately : PrivateRoot) (outcome after : Outcome)
    → ((b : Bytes) → sha b ≢ "missing")
    → apply_patch_atomically sha review fold faults patch_id changes source prepared privately
      ≡ some outcome
    → outcome.result.status ≡ applied
    → undo_patch sha undo_faults patch_id outcome.source outcome.privately ≡ some after
    → after.result.status ≡ undone
    → (asked : Relpath) → after.source asked ≡ source asked
unfolding undo_patch
undo_patch-apply_patch_atomically sha review fold faults undo_faults patch_id changes source
      prepared privately outcome after h e st u =
    let (directory, named, a) =
      apply_patch_atomically-applied sha review fold faults patch_id changes source prepared
        privately outcome h e st in
    undo_stored-Reverts sha faults.observation undo_faults patch_id directory changes outcome.source
      source outcome.privately a.backup a.remembers a.elsewhere after (rw (named, a.recorded) at u)
