-- ===== src/Patch/Undo.antt =====
-- packages/core/src/patch/apply.ts: taking back an applied patch (`undoPatch`), from its record and backup. The
-- record's source root is the tree at hand.
pub mod Redo
pub mod Capture
pub mod Laws
pub mod Reverts
use yuhi.Prelude.{
  ℕ, suc, String, str_eq, Bool, true, false, not, ◌&&◌, ◌||◌, Option, none, some, List, [], ◌∷◌,
  ◌++◌, map, filter, any, length, drop, reverse, ◌==◌, if◌then◌else◌,
}
use yuhi.Prelude.Assoc.{lookup, insert}
use yuhi.Text.{same}
use yuhi.Patch.Types.{
  Relpath, PatchChange, patch_undone, patch_undo_conflict, is_deleted, is_renamed,
}
use yuhi.Patch.Paths.{contained}
use yuhi.Patch.Tree.{
  Tree, missing, put, Sha256, hash_is, no_symlink, WriteFault, Written, written, atomic_write,
}
use yuhi.Patch.Apply.{origin_relpath, hash_at, RestoreFault, restore, clear_and_write}
use yuhi.Patch.Records.{
  OperationStatus, undone, undo_rolled_back, undo_rollback_failed, conflict, failed,
  PatchOperationResult, RecordStatus, undo_recovery_required, TransactionStatus, StoredPatchRecord,
  PatchDirectory, PrivateRoot, patch_dir,
}
use yuhi.Patch.Transaction.{
  relpaths, includes, empty_tree, Recovered, take_back, with_current, Progress, stopped, Outcome,
}

pub record UndoFaults : Type 0 where
  -- reading a file for the check, or making the recovery directory
  pub check : Bool
  pub capture : ℕ → WriteFault
  pub restore : ℕ → RestoreFault
  pub save : Bool
  pub cleanup : Bool
  pub redo : ℕ → RestoreFault
  pub save_rollback : Bool
  pub cleanup_rollback : Bool

abbrev check_origin : Option String → Option Bool
check_origin none = none
check_origin origin = some (hash_is origin (some "missing"))

abbrev pub check_place : PatchChange → Option String → Option String → Option Bool
check_place change none origin = none
check_place change (some hash) origin =
    let expected = if is_deleted change.kind then some "missing" else change.after_hash in
    if not (hash_is (some hash) expected)
    then some false
    else if is_renamed change.kind
    then check_origin origin
    else some true

-- Whether a change still is in place: none where reading it throws.
unfoldable pub still_in_place : Sha256 → Tree → PatchChange → Option Bool
unfolding hash_at origin_relpath
still_in_place sha source change =
    check_place change (hash_at sha source change.relpath)
      (hash_at sha source (origin_relpath change))

abbrev pub and_then : Option Bool → Option Bool → Option Bool
and_then none rest = none
and_then (some false) rest = some false
and_then (some true) rest = rest

unfoldable pub all_still_in_place : Sha256 → Tree → List PatchChange → Option Bool
unfolding still_in_place
all_still_in_place sha source [] = some true
all_still_in_place sha source (change ∷ changes) =
    and_then (still_in_place sha source change) (all_still_in_place sha source changes)

abbrev pub capture_there :
    Sha256 → WriteFault → PatchChange → Tree → Tree → Option Relpath → Written
capture_there sha fault change source captured none = written captured false
capture_there sha fault change source captured (some place) =
    atomic_write sha fault (source place) place change.after_hash
      (no_symlink source change.relpath false) captured

unfoldable pub capture : Sha256 → WriteFault → PatchChange → Tree → Tree → Written
unfolding contained atomic_write no_symlink
capture sha fault change source captured =
    if is_deleted change.kind
    then written captured true
    else capture_there sha fault change source captured (contained change.relpath)

-- The state after the patch, kept before the first change is taken back.
unfoldable pub capture_all :
    Sha256 → (ℕ → WriteFault) → ℕ → List PatchChange → Tree → Tree → Written
unfolding capture
capture_all sha fault n [] source captured = written captured true
capture_all sha fault n (change ∷ changes) source captured =
    let w = capture sha (fault n) change source captured in
    let rest = capture_all sha fault (suc n) changes source w.tree in
    if w.ok then rest else written w.tree false

unfoldable pub undo_all :
    Sha256 → (ℕ → RestoreFault) → ℕ → List PatchChange → Tree → Tree → List PatchChange → Progress
unfolding restore
undo_all sha fault n [] backup source done = record {
  tree = source;
  made = done;
  in_progress = none;
  ok = true;
}
undo_all sha fault n (change ∷ changes) backup source done =
    let w = restore sha (fault n) change backup source in
    let rest = undo_all sha fault (suc n) changes backup w.tree (done ++ change ∷ []) in
    if w.ok then rest else stopped w.tree done (some change)

-- What a change had put in place goes back there.
abbrev pub redo_there :
    Sha256 → RestoreFault → PatchChange → Tree → Tree → Option Relpath → Option Relpath → Written
redo_there sha fault change captured source (some origin) (some place) =
    clear_and_write sha fault (is_deleted change.kind || is_renamed change.kind)
      (not (is_deleted change.kind)) captured change.relpath change.after_hash origin place source
redo_there sha fault change captured source _ _ = written source false

unfoldable pub redo : Sha256 → RestoreFault → PatchChange → Tree → Tree → Written
unfolding origin_relpath contained atomic_write put no_symlink
redo sha fault change captured source =
    if fault.at_start
      || not (no_symlink source change.relpath true)
      || not (no_symlink source (origin_relpath change) true)
    then written source false
    else redo_there sha fault change captured source (contained (origin_relpath change))
        (contained change.relpath)

unfoldable pub redo_all : Sha256 → (ℕ → RestoreFault) → List PatchChange → Tree → Tree → Recovered
unfolding redo take_back
redo_all sha fault changes captured source =
    take_back (λ n change tree. redo sha (fault n) change captured tree) 0 changes source

abbrev conflicting : String → List Relpath → Option Bool → PatchOperationResult
conflicting patch_id pending recovery_required = record {
  status = conflict;
  patch_id = patch_id;
  applied = [];
  pending = pending;
  rolled_back = [];
  reason_code = some patch_undo_conflict;
  recovery_required = recovery_required;
}

abbrev not_begun : String → List PatchChange → PatchOperationResult
not_begun patch_id ordered = record {
  status = failed;
  patch_id = patch_id;
  applied = [];
  pending = relpaths ordered;
  rolled_back = [];
  reason_code = some patch_undo_conflict;
  recovery_required = none;
}

abbrev taken_back : String → List PatchChange → PatchOperationResult
taken_back patch_id changes = record {
  status = undone;
  patch_id = patch_id;
  applied = relpaths changes;
  pending = [];
  rolled_back = [];
  reason_code = some patch_undone;
  recovery_required = none;
}

abbrev stopped_undo :
    String → List PatchChange → List PatchChange → Recovered → Bool → PatchOperationResult
stopped_undo patch_id ordered attempted r incomplete = record {
  status = if incomplete then undo_rollback_failed else undo_rolled_back;
  patch_id = patch_id;
  applied = relpaths attempted;
  pending = relpaths (drop (length attempted) ordered);
  rolled_back = r.rolled_back;
  reason_code = some patch_undo_conflict;
  recovery_required = some incomplete;
}

-- Only the two states of a record change.
abbrev in_state : RecordStatus → TransactionStatus → StoredPatchRecord → StoredPatchRecord
in_state status transaction r = record {
  patch_id = r.patch_id;
  changes = r.changes;
  applied = r.applied;
  status = status;
  transaction_status = transaction;
  attempted = r.attempted;
  rolled_back = r.rolled_back;
  rollback_failed = r.rollback_failed;
  final_observed_hashes = r.final_observed_hashes;
}

abbrev pub undone_record : StoredPatchRecord → StoredPatchRecord
undone_record r = in_state RecordStatus.undone TransactionStatus.undone r

-- The undo of one patch: where it is kept, its record as it is in memory, and what is to be done.
pub record Undoing : Type 0 where
  pub patch_id : String
  pub directory : String
  pub backup : Tree
  pub stored : StoredPatchRecord
  pub ordered : List PatchChange

abbrev pub keeping : Bool → Undoing → StoredPatchRecord → PrivateRoot → PrivateRoot
keeping saved u r privately =
    if saved
    then insert u.directory (record { backup = u.backup; stored = some r }) privately
    else privately

-- The states that the rollback of an undo leaves. The status stays as it is in memory where the rollback is complete.
abbrev rolled_back_record : Bool → StoredPatchRecord → StoredPatchRecord
rolled_back_record true r = in_state undo_recovery_required TransactionStatus.undo_rollback_failed r
rolled_back_record false r = in_state r.status TransactionStatus.undo_rolled_back r

-- The inner `catch` block. Where the recovery directory cannot be removed, the outer one answers.
unfoldable pub roll_back_undo :
    Sha256 → UndoFaults → Undoing → Tree → Progress → StoredPatchRecord → PrivateRoot → Outcome
unfolding redo_all insert drop
roll_back_undo sha faults u captured p r privately =
    let attempted = with_current p.made p.in_progress in
    let recovered = redo_all sha faults.redo (reverse attempted) captured p.tree in
    let incomplete = not (length recovered.rolled_back == length attempted) in
    record {
      source = recovered.tree;
      privately = keeping (not faults.save_rollback) u (rolled_back_record incomplete r) privately;
      result =
          if not incomplete && faults.cleanup_rollback
          then not_begun u.patch_id u.ordered
          else stopped_undo u.patch_id u.ordered attempted recovered incomplete;
    }

-- The record is marked in memory before it is saved.
unfoldable pub finish_undo : Sha256 → UndoFaults → Undoing → Tree → Progress → PrivateRoot → Outcome
unfolding roll_back_undo insert
finish_undo sha faults u captured p privately =
    let saved = keeping (not faults.save) u (undone_record u.stored) privately in
    if not p.ok
    then roll_back_undo sha faults u captured p u.stored privately
    else if faults.save || faults.cleanup
    then roll_back_undo sha faults u captured p (undone_record u.stored) saved
    else record { source = p.tree; privately = saved; result = taken_back u.patch_id p.made }

abbrev pub with_capture : Sha256 → UndoFaults → Undoing → Tree → PrivateRoot → Written → Outcome
with_capture sha faults u source privately w =
    if w.ok
    then finish_undo sha faults u w.tree
        (undo_all sha faults.restore 0 u.ordered u.backup source []) privately
    else record { source = source; privately = privately; result = not_begun u.patch_id u.ordered }

-- From the answer of the check on.
abbrev pub begin_undo :
    Sha256
    → UndoFaults
    → Undoing
    → List PatchChange
    → Tree
    → PrivateRoot
    → Option Bool
    → Option Outcome
begin_undo sha faults u changes source privately none = none
begin_undo sha faults u changes source privately (some false) = some (record {
  source = source;
  privately = privately;
  result = conflicting u.patch_id (relpaths changes) none;
})
begin_undo sha faults u changes source privately (some true) = some (
    with_capture sha faults u source privately
      (capture_all sha faults.capture 0 changes source empty_tree))

abbrev pub is_applied : RecordStatus → Bool
is_applied RecordStatus.applied = true
is_applied _ = false

abbrev needs_recovery : RecordStatus → Bool
needs_recovery undo_recovery_required = true
needs_recovery _ = false

abbrev pub undoing : String → String → Tree → StoredPatchRecord → List PatchChange → Undoing
undoing patch_id directory backup r changes = record {
  patch_id = patch_id;
  directory = directory;
  backup = backup;
  stored = r;
  ordered = reverse changes;
}

abbrev pub undo_stored :
    Sha256
    → UndoFaults
    → String
    → String
    → Tree
    → PrivateRoot
    → Tree
    → StoredPatchRecord
    → Option Outcome
undo_stored sha faults patch_id directory source privately backup r =
    let changes = filter (λ change. includes r.applied change.relpath) r.changes in
    let answer = if faults.check then none else all_still_in_place sha source changes in
    if not (is_applied r.status)
    then some (record {
      source = source;
      privately = privately;
      result = conflicting patch_id r.applied (some (needs_recovery r.status));
    })
    else begin_undo sha faults (undoing patch_id directory backup r changes) changes source
        privately answer

abbrev pub undo_directory :
    Sha256
    → UndoFaults
    → String
    → String
    → Tree
    → PrivateRoot
    → Option PatchDirectory
    → Option Outcome
undo_directory sha faults patch_id directory source privately none = none
undo_directory sha faults patch_id directory source privately (some kept) = elim kept.stored [
  | none ↦ none
  | some r ↦ undo_stored sha faults patch_id directory source privately kept.backup r
]

abbrev pub undo_named :
    Sha256 → UndoFaults → String → Tree → PrivateRoot → Option String → Option Outcome
undo_named sha faults patch_id source privately none = none
undo_named sha faults patch_id source privately (some directory) =
    undo_directory sha faults patch_id directory source privately (lookup directory privately)

-- None where it throws: at an id that names no directory, without a record, or at a file that cannot be read.
unfoldable pub undo_patch : Sha256 → UndoFaults → String → Tree → PrivateRoot → Option Outcome
unfolding patch_dir lookup filter any same all_still_in_place capture_all undo_all finish_undo
undo_patch sha faults patch_id source privately =
    undo_named sha faults patch_id source privately (patch_dir patch_id)
