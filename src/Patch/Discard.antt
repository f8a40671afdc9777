-- ===== src/Patch/Discard.antt =====
-- packages/core/src/patch/apply.ts: the history of the patches, and `discardPreparedChanges`, which puts the files of
-- a baseline back into the prepared tree. It stops at the first change that throws.
use yuhi.Prelude.{
  ℕ, suc, String, Bool, true, false, not, ◌&&◌, ◌||◌, Option, none, some, List, [], ◌∷◌, any, ◌≡◌,
  refl, ◌∙◌, arith, if◌then◌else◌, inl, inr, Bool-cases,
}
use yuhi.Prelude.Sort.{sort}
use yuhi.Text.{text_before}
use yuhi.Patch.Types.{
  Relpath, PreparedRepresentation, background_artifact, PatchChange, is_added, is_renamed,
}
use yuhi.Patch.Paths.{contained}
use yuhi.Patch.Tree.{Tree, missing, Sha256, no_symlink, Written, written, put, atomic_write}
use yuhi.Patch.Apply.{origin_relpath, RestoreFault, clear_and_write}
use yuhi.Patch.Apply.Restore.{touches, stands_at, clear_and_write-other}
use yuhi.Patch.Records.{RecordStatus, StoredPatchRecord, PatchDirectory, PrivateRoot}

pub record PatchHistoryEntry : Type 0 where
  pub patch_id : String
  pub status : RecordStatus
  pub files : List Relpath

abbrev name_before : String × PatchDirectory → String × PatchDirectory → Bool
name_before a b = text_before a.0 b.0

abbrev entry_of : Option StoredPatchRecord → List PatchHistoryEntry → List PatchHistoryEntry
entry_of none rest = rest
entry_of (some r) rest =
    record { patch_id = r.patch_id; status = r.status; files = r.applied } ∷ rest

abbrev history_of : List (String × PatchDirectory) → List PatchHistoryEntry
history_of [] = []
history_of ((name, directory) ∷ rest) = entry_of directory.stored (history_of rest)

-- A directory without a record that can be read is left out.
unfoldable pub patch_history : PrivateRoot → List PatchHistoryEntry
unfolding sort text_before
patch_history privately = history_of (sort name_before privately)

abbrev is_artifact : PreparedRepresentation → Bool
is_artifact background_artifact = true
is_artifact _ = false

abbrev discard_there :
    Sha256 → RestoreFault → PatchChange → Tree → Option Relpath → Option Relpath → Tree → Written
discard_there sha fault change baseline (some origin) (some target) prepared =
    if not (is_added change.kind) && not (no_symlink baseline (origin_relpath change) false)
    then written
        (if is_renamed change.kind && not fault.remove
          then put target missing prepared
          else prepared)
        false
    else clear_and_write sha fault (is_added change.kind || is_renamed change.kind)
        (not (is_added change.kind)) baseline (origin_relpath change) change.before_hash target
        origin prepared
discard_there sha fault change baseline _ _ prepared = written prepared false

unfoldable pub discard_one : Sha256 → RestoreFault → PatchChange → Tree → Tree → Written
unfolding origin_relpath contained put atomic_write no_symlink
discard_one sha fault change baseline prepared =
    if is_artifact change.representation
    then written prepared true
    else if fault.at_start
        || not (no_symlink prepared change.relpath true)
        || not (no_symlink prepared (origin_relpath change) true)
    then written prepared false
    else discard_there sha fault change baseline (contained (origin_relpath change))
        (contained change.relpath) prepared

-- The answer, where nothing throws.
unfoldable pub discarded : List PatchChange → List Relpath
discarded [] = []
discarded (change ∷ changes) =
    let rest = discarded changes in
    if is_artifact change.representation then rest else change.relpath ∷ rest

unfoldable pub discard_prepared_changes :
    Sha256 → (ℕ → RestoreFault) → ℕ → List PatchChange → Tree → Tree → Written
unfolding discard_one
discard_prepared_changes sha fault n [] baseline prepared = written prepared true
discard_prepared_changes sha fault n (change ∷ changes) baseline prepared =
    let w = discard_one sha (fault n) change baseline prepared in
    let rest = discard_prepared_changes sha fault (suc n) changes baseline w.tree in
    if w.ok then rest else written w.tree false

discard_there-other :
    (sha : Sha256) (fault : RestoreFault) (change : PatchChange) (baseline : Tree)
    (origin target : Option Relpath) (prepared : Tree) (asked : Relpath)
    → stands_at target asked ≡ false
    → stands_at origin asked ≡ false
    → (discard_there sha fault change baseline origin target prepared).tree asked ≡ prepared asked
unfolding put
discard_there-other sha fault change baseline none target prepared asked h k = refl
discard_there-other sha fault change baseline (some origin) none prepared asked h k = refl
discard_there-other sha fault change baseline (some origin) (some target) prepared asked h k =
    elim (Bool-cases
      (not (is_added change.kind) && not (no_symlink baseline (origin_relpath change) false))) [
        | inl linked ↦ ground (arith, linked, h)
        | inr safe ↦ rw (safe) (
            clear_and_write-other sha fault (is_added change.kind || is_renamed change.kind)
              (not (is_added change.kind)) baseline (origin_relpath change) change.before_hash
              target origin prepared asked h k)
      ]

discard_one-other :
    (sha : Sha256) (fault : RestoreFault) (change : PatchChange) (baseline prepared : Tree)
    (asked : Relpath)
    → touches change asked ≡ false
    → (discard_one sha fault change baseline prepared).tree asked ≡ prepared asked
unfolding discard_one touches
discard_one-other sha fault change baseline prepared asked h = ground (
  arith,
  discard_there-other sha fault change baseline (contained (origin_relpath change))
      (contained change.relpath) prepared asked,
)

-- Discarding changes touches none but their places in the prepared tree.
pub discard_prepared_changes-other :
    (sha : Sha256) (fault : ℕ → RestoreFault) (n : ℕ) (changes : List PatchChange)
    (baseline prepared : Tree) (asked : Relpath)
    → any (λ change. touches change asked) changes ≡ false
    → (discard_prepared_changes sha fault n changes baseline prepared).tree asked ≡ prepared asked
unfolding discard_prepared_changes any
discard_prepared_changes-other sha fault n [] baseline prepared asked h = refl
discard_prepared_changes-other sha fault n (change ∷ changes) baseline prepared asked h =
    let w = discard_one sha (fault n) change baseline prepared in
    let here = discard_one-other sha (fault n) change baseline prepared asked (ground (arith, h)) in
    let rest =
      discard_prepared_changes-other sha fault (suc n) changes baseline w.tree asked
        (ground (arith, h)) in
    elim (Bool-cases w.ok) [ inl ok ↦ rw (ok) (rest ∙ here) | inr broken ↦ rw (broken) here ]
