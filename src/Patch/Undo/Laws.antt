-- ===== src/Patch/Undo/Laws.antt =====
-- What an undo leaves: the tree before the patch where it succeeds, else the tree it found, unless it says that
-- a recovery is required.
use yuhi.Prelude.{
  ℕ, suc, String, Bool, true, false, not, ◌||◌, Option, none, some, List, [], ◌∷◌, ◌++◌, reverse,
  any, filter, All, ◌≡◌, ◌≢◌, refl, subst, ◌∙◌, arith, if◌then◌else◌, inl, inr, Bool-cases,
  Option-cases,
}
use yuhi.Prelude.Assoc.{lookup}
use yuhi.Patch.Types.{Relpath, PatchChange}
use yuhi.Patch.Tree.{Bytes, Tree, Sha256}
use yuhi.Patch.Apply.{RestoreFault, restore}
use yuhi.Patch.Apply.Restore.{touches, restore-other, Remembers}
use yuhi.Patch.Records.{
  undone, undo_rollback_failed, StoredPatchRecord, PatchDirectory, PrivateRoot, patch_dir,
}
use yuhi.Patch.Transaction.{includes, Progress, empty_tree, Outcome}
use yuhi.Patch.Transaction.Rollback.{
  IsUnchangedBut, IsUnchangedBut-reverse, take_back-All, take_back_one, restore-TakesBack,
  any-append, begun, Accounts, All-append, All-reverse, length-reverse,
}
use yuhi.Patch.Undo.{
  UndoFaults, undone_record, keeping, undoing, all_still_in_place, capture_all, undo_all, redo,
  redo_all, Undoing, roll_back_undo, finish_undo, with_capture, begin_undo, undo_stored,
  undo_directory, undo_named, undo_patch, is_applied,
}
use yuhi.Patch.Undo.Redo.{Captures, redo-TakesBack}
use yuhi.Patch.Undo.Capture.{IsGone, capture_all-Captures, all_still_in_place-IsGone}

undo_step :
    (sha : Sha256) (fault : RestoreFault) (change : PatchChange) (made : List PatchChange)
    (current backup tree : Tree)
    → IsUnchangedBut current tree made
    → IsUnchangedBut current (restore sha fault change backup tree).tree (made ++ change ∷ [])
unfolding any
undo_step sha fault change made current backup tree away asked h =
    let split = any-append (λ c. touches c asked) made (change ∷ []) in
    restore-other sha fault change backup tree asked (ground (arith, h, split))
    ∙ away asked (ground (arith, h, split))

-- What an undo has touched is in the list that it puts back.
undo_all-Accounts :
    (P : PatchChange → Type 0) (sha : Sha256) (fault : ℕ → RestoreFault) (n : ℕ)
    (changes : List PatchChange) (current backup source : Tree) (made : List PatchChange)
    → All P made
    → All P changes
    → IsUnchangedBut current source made
    → Accounts P current (undo_all sha fault n changes backup source made)
unfolding undo_all
undo_all-Accounts P sha fault n [] current backup source made ms cs away = record {
  all_known = ms;
  away = away;
}
undo_all-Accounts P sha fault n (change ∷ changes) current backup source made ms (c, cs) away =
    let w = restore sha (fault n) change backup source in
    let away' = undo_step sha (fault n) change made current backup source away in
    let ms' = All-append P made (change ∷ []) ms (c, tt) in
    let ih =
      undo_all-Accounts P sha fault (suc n) changes current backup w.tree (made ++ change ∷ []) ms'
        cs away' in
    elim (Bool-cases w.ok) [
      | inl ok ↦ rw (ok) ih
      | inr broken ↦ rw (broken) (record { all_known = ms'; away = away' })
    ]

-- An undo that did not stop has restored everything.
pub undo_all-restores :
    (sha : Sha256) (fault : ℕ → RestoreFault) (n : ℕ) (changes : List PatchChange)
    (original backup source : Tree) (made : List PatchChange)
    → All (Remembers original backup) changes
    → IsUnchangedBut original source changes
    → let p = undo_all sha fault n changes backup source made in
      p.ok ≡ true → (asked : Relpath) → p.tree asked ≡ original asked
unfolding undo_all
undo_all-restores sha fault n [] original backup source made ms away ok asked =
    away asked (unfold any in refl)
undo_all-restores sha fault n (change ∷ changes) original backup source made (m, ms) away ok asked =
    let w = restore sha (fault n) change backup source in
    let step = λ (k : ℕ) (c : PatchChange) (t : Tree). restore sha (fault k) c backup t in
    elim (Bool-cases w.ok) [
      | inl went ↦ rw (went) (
          undo_all-restores sha fault (suc n) changes original backup w.tree (made ++ change ∷ [])
            ms
            (take_back_one (Remembers original backup) original step
              (restore-TakesBack sha fault original backup) n change changes source m went away)
            (rw (went) at ok) asked)
      | inr broken ↦ absurd (ground (arith, ok, broken))
    ]

roll_back_undo-current :
    (sha : Sha256) (faults : UndoFaults) (u : Undoing) (captured : Tree) (p : Progress)
    (r : StoredPatchRecord) (privately : PrivateRoot) (current : Tree)
    → Accounts (Captures current captured) current p
    → let out = roll_back_undo sha faults u captured p r privately in
      out.result.status ≢ undo_rollback_failed
      → (asked : Relpath) → out.source asked ≡ current asked
unfolding roll_back_undo redo_all
roll_back_undo-current sha faults u captured p r privately current known st asked =
    let attempted = begun p in
    take_back-All (Captures current captured) current
      (λ n change tree. redo sha (faults.redo n) change captured tree)
      (redo-TakesBack sha faults.redo current captured) 0 (reverse attempted) p.tree
      (All-reverse (Captures current captured) attempted known.all_known)
      (IsUnchangedBut-reverse current p.tree attempted known.away)
      (ground (arith, st, length-reverse attempted)) asked

finish_undo-current :
    (sha : Sha256) (faults : UndoFaults) (u : Undoing) (captured : Tree) (p : Progress)
    (privately : PrivateRoot) (current : Tree)
    → Accounts (Captures current captured) current p
    → let out = finish_undo sha faults u captured p privately in
      out.result.status ≢ undone
      → out.result.status ≢ undo_rollback_failed
      → (asked : Relpath) → out.source asked ≡ current asked
unfolding finish_undo
finish_undo-current sha faults u captured p privately current known st ok asked =
    let back = λ (r : StoredPatchRecord) (root : PrivateRoot).
      roll_back_undo-current sha faults u captured p r root current known in
    elim (Bool-cases p.ok) [
      | inl went ↦ elim (Bool-cases (faults.save || faults.cleanup)) [
        | inl fault ↦
            rw (went, fault)
              (back (undone_record u.stored)
                (keeping (not faults.save) u (undone_record u.stored) privately)
                (rw (went, fault) at ok) asked)
        | inr saved ↦ absurd (ground (arith, st, went, saved))
      ]
      | inr broken ↦ rw (broken) (back u.stored privately (rw (broken) at ok) asked)
    ]

with_capture-current :
    (sha : Sha256) (faults : UndoFaults) (u : Undoing) (changes : List PatchChange) (source : Tree)
    (privately : PrivateRoot)
    → u.ordered ≡ reverse changes
    → All (IsGone source) changes
    → let out =
        with_capture sha faults u source privately
          (capture_all sha faults.capture 0 changes source empty_tree) in
      out.result.status ≢ undone
      → out.result.status ≢ undo_rollback_failed
      → (asked : Relpath) → out.source asked ≡ source asked
with_capture-current sha faults u changes source privately o gone st ok asked =
    let w = capture_all sha faults.capture 0 changes source empty_tree in
    elim (Bool-cases w.ok) [
      | inl went ↦
          let captures =
            capture_all-Captures sha faults.capture 0 changes source empty_tree gone went in
          let known =
            undo_all-Accounts (Captures source w.tree) sha faults.restore 0 u.ordered source
              u.backup source [] tt (rw (o) (All-reverse (Captures source w.tree) changes captures))
              (λ place h. refl) in
          rw (went) (
            finish_undo-current sha faults u w.tree
              (undo_all sha faults.restore 0 u.ordered u.backup source []) privately source known
              (rw (went) at st) (rw (went) at ok) asked)
      | inr broken ↦ rw (broken) refl
    ]

-- What an outcome says of the tree that an undo found.
abbrev IsKept : Tree → Option Outcome → Type 0
IsKept source out =
    (outcome : Outcome)
    → out ≡ some outcome
    → outcome.result.status ≢ undone
    → outcome.result.status ≢ undo_rollback_failed
    → (asked : Relpath) → outcome.source asked ≡ source asked

IsKept-some :
    (source : Tree) (made : Outcome)
    → (made.result.status ≢ undone
        → made.result.status ≢ undo_rollback_failed
        → (asked : Relpath) → made.source asked ≡ source asked)
    → IsKept source (some made)
IsKept-some source made h outcome e =
    let e' : made ≡ outcome = cc e in
    subst
      (λ o.
        o.result.status ≢ undone
        → o.result.status ≢ undo_rollback_failed
        → (asked : Relpath) → o.source asked ≡ source asked)
      e' h

IsKept-none : (source : Tree) → IsKept source none
IsKept-none source outcome e = absurd (ground (arith, e))

begin_undo-IsKept :
    (sha : Sha256) (faults : UndoFaults) (u : Undoing) (changes : List PatchChange) (source : Tree)
    (privately : PrivateRoot) (answer : Option Bool)
    → ((b : Bytes) → sha b ≢ "missing")
    → u.ordered ≡ reverse changes
    → (answer ≡ some true → all_still_in_place sha source changes ≡ some true)
    → IsKept source (begin_undo sha faults u changes source privately answer)
begin_undo-IsKept sha faults u changes source privately none h o e = IsKept-none source
begin_undo-IsKept sha faults u changes source privately (some false) h o e =
    IsKept-some source _ (λ st ok asked. refl)
begin_undo-IsKept sha faults u changes source privately (some true) h o e = IsKept-some source _ (
    with_capture-current sha faults u changes source privately o
      (all_still_in_place-IsGone sha changes source h (e refl)))

undo_stored-IsKept :
    (sha : Sha256) (faults : UndoFaults) (patch_id directory : String) (source : Tree)
    (privately : PrivateRoot) (backup : Tree) (r : StoredPatchRecord)
    → ((b : Bytes) → sha b ≢ "missing")
    → IsKept source (undo_stored sha faults patch_id directory source privately backup r)
undo_stored-IsKept sha faults patch_id directory source privately backup r h =
    let changes = filter (λ change. includes r.applied change.relpath) r.changes in
    elim (Bool-cases (is_applied r.status)) [
      | inr other ↦ rw (other) (IsKept-some source _ (λ st ok asked. refl))
      | inl still ↦ rw (still) (
          begin_undo-IsKept sha faults (undoing patch_id directory backup r changes) changes source
            privately (if faults.check then none else all_still_in_place sha source changes) h refl
            (λ e. ground (arith, e)))
    ]

undo_directory-IsKept :
    (sha : Sha256) (faults : UndoFaults) (patch_id directory : String) (source : Tree)
    (privately : PrivateRoot) (kept : Option PatchDirectory)
    → ((b : Bytes) → sha b ≢ "missing")
    → IsKept source (undo_directory sha faults patch_id directory source privately kept)
undo_directory-IsKept sha faults patch_id directory source privately none h = IsKept-none source
undo_directory-IsKept sha faults patch_id directory source privately (some kept) h =
    elim (Option-cases kept.stored) [
      | inl nothing ↦ rw (nothing) (IsKept-none source)
      | inr (r, e) ↦
          rw (e) (undo_stored-IsKept sha faults patch_id directory source privately kept.backup r h)
    ]

undo_named-IsKept :
    (sha : Sha256) (faults : UndoFaults) (patch_id : String) (source : Tree)
    (privately : PrivateRoot) (directory : Option String)
    → ((b : Bytes) → sha b ≢ "missing")
    → IsKept source (undo_named sha faults patch_id source privately directory)
undo_named-IsKept sha faults patch_id source privately none h = IsKept-none source
undo_named-IsKept sha faults patch_id source privately (some directory) h =
    undo_directory-IsKept sha faults patch_id directory source privately
      (lookup directory privately) h

-- If no bytes have the digest "missing", then wherever the file system throws, an undo that answers neither
-- `undone` nor that its rollback failed leaves every place of the source tree as it found it.
pub undo_patch-kept :
    (sha : Sha256) (faults : UndoFaults) (patch_id : String) (source : Tree)
    (privately : PrivateRoot) (outcome : Outcome)
    → ((b : Bytes) → sha b ≢ "missing")
    → undo_patch sha faults patch_id source privately ≡ some outcome
    → outcome.result.status ≢ undone
    → outcome.result.status ≢ undo_rollback_failed
    → (asked : Relpath) → outcome.source asked ≡ source asked
unfolding undo_patch
undo_patch-kept sha faults patch_id source privately outcome h =
    undo_named-IsKept sha faults patch_id source privately (patch_dir patch_id) h outcome
