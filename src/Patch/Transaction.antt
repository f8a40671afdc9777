-- ===== src/Patch/Transaction.antt =====
-- packages/core/src/patch/apply.ts: the transaction of `applyPatchAtomically`, with its backup, its
-- verification and its way back.
pub mod Backup
pub mod Rollback
pub mod Commit
use yuhi.Prelude.{
  ℕ, suc, String, ◌+++◌, str_eq, Bool, true, false, not, ◌&&◌, ◌||◌, Option, none, some, List, [],
  ◌∷◌, ◌++◌, map, filter, any, all, length, drop, reverse, ◌==◌, leb, is_some, if◌then◌else◌,
  starts_with,
}
use yuhi.Prelude.Assoc.{lookup, insert}
use yuhi.Text.{codes, same, begins}
use yuhi.Patch.Types.{
  Relpath, PatchChange, PatchReasonCode, patch_applied, patch_apply_failed, is_deleted, is_renamed,
}
use yuhi.Patch.Records.{
  applied, failed, OperationStatus, PatchOperationResult, RecordStatus, TransactionStatus,
  apply_failed, StoredPatchRecord, PatchDirectory, PrivateRoot, patch_dir,
}
use yuhi.Patch.Paths.{slashed}
use yuhi.Patch.Tree.{Tree, missing, Sha256, hash_is, WriteFault, Written, written}
use yuhi.Patch.Apply.{
  Review, origin_relpath, hash_at, validate_change, backup_change, MutationFault, mutate,
  RestoreFault, restore,
}

pub record ApplyFaults : Type 0 where
  -- the check of the private boundary, or reading a file, before anything is written
  pub preflight : Bool
  -- the directories of the patch
  pub make_directory : Bool
  pub make_backup : Bool
  pub backup : ℕ → WriteFault
  -- reading a file at the check beside the mutation
  pub validation : ℕ → Bool
  pub mutation : ℕ → MutationFault
  -- reading a file at the final verification
  pub verification : Bool
  pub save : Bool
  pub restore : ℕ → RestoreFault
  pub save_failure : Bool
  -- reading a place for the hashes of the record
  pub observation : Relpath → Bool

abbrev pub relpath_of : PatchChange → Relpath
relpath_of change = change.relpath

abbrev pub relpaths : List PatchChange → List Relpath
relpaths changes = map relpath_of changes

-- `relpaths.includes(relpath)`
abbrev pub includes : List Relpath → Relpath → Bool
includes paths path = any (same path) paths

-- The paths that have come up are `seen`; `fold` is `normalize("NFC")` and lower case.
unfoldable pub aliases_differ : (Relpath → Relpath) → List Relpath → List PatchChange → Bool
unfolding slashed same any
aliases_differ fold seen [] = true
aliases_differ fold seen (change ∷ changes) =
    let alias = fold (slashed change.relpath) in
    not (includes seen alias) && aliases_differ fold (alias ∷ seen) changes

abbrev pub empty_tree : Tree
empty_tree place = missing

unfoldable pub backup_all : Sha256 → (ℕ → WriteFault) → ℕ → List PatchChange → Tree → Tree → Written
unfolding backup_change
backup_all sha fault n [] source backup = written backup true
backup_all sha fault n (change ∷ changes) source backup =
    let w = backup_change sha (fault n) change source backup in
    let rest = backup_all sha fault (suc n) changes source w.tree in
    if w.ok then rest else written w.tree false

-- The source tree, the changes made, the one under way, and whether none has thrown.
pub record Progress : Type 0 where
  pub tree : Tree
  pub made : List PatchChange
  pub in_progress : Option PatchChange
  pub ok : Bool

abbrev pub stopped : Tree → List PatchChange → Option PatchChange → Progress
stopped tree made change = record { tree = tree; made = made; in_progress = change; ok = false }

unfoldable pub mutate_all :
    Sha256 → Review → ApplyFaults → ℕ → List PatchChange → Tree → Tree → List PatchChange → Progress
unfolding validate_change mutate
mutate_all sha review faults n [] prepared source made = record {
  tree = source;
  made = made;
  in_progress = none;
  ok = true;
}
mutate_all sha review faults n (change ∷ changes) prepared source made =
    let w = mutate sha (faults.mutation n) change prepared source in
    let rest = mutate_all sha review faults (suc n) changes prepared w.tree (made ++ change ∷ []) in
    if faults.validation n || not (validate_change sha review change source prepared)
    then stopped source made none
    else if w.ok
    then rest
    else stopped w.tree made (some change)

-- The final verification of one change.
unfoldable pub in_place : Sha256 → Tree → PatchChange → Bool
unfolding hash_at origin_relpath
in_place sha source change =
    let resulting = hash_at sha source change.relpath in
    (if is_deleted change.kind
      then hash_is resulting (some "missing")
      else hash_is resulting change.after_hash)
    && (not (is_renamed change.kind)
        || hash_is (hash_at sha source (origin_relpath change)) (some "missing"))

pub record Attempt : Type 0 where
  pub owns_directory : Bool
  pub backup : Tree
  pub progress : Progress

unfoldable pub mutate_if_backed_up :
    Sha256 → Review → ApplyFaults → List PatchChange → Tree → Tree → Written → Attempt
unfolding mutate_all
mutate_if_backed_up sha review faults changes source prepared w = record {
  owns_directory = true;
  backup = w.tree;
  progress =
      if w.ok
      then mutate_all sha review faults 0 changes prepared source []
      else stopped source [] none;
}

-- The `try` block, up to the final verification. An existing directory is not used again.
unfoldable pub attempt :
    Sha256 → Review → ApplyFaults → Bool → List PatchChange → Tree → Tree → Attempt
unfolding backup_all mutate_if_backed_up
attempt sha review faults exists changes source prepared =
    if exists || faults.make_directory
    then record { owns_directory = false; backup = empty_tree; progress = stopped source [] none }
    else if faults.make_backup
    then record { owns_directory = true; backup = empty_tree; progress = stopped source [] none }
    else mutate_if_backed_up sha review faults changes source prepared
        (backup_all sha faults.backup 0 changes source empty_tree)

-- The tree, and the changes that were taken back.
pub record Recovered : Type 0 where
  pub tree : Tree
  pub rolled_back : List Relpath

abbrev pub also : Bool → Relpath → Recovered → Recovered
also ok path rest = record {
  tree = rest.tree;
  rolled_back = if ok then path ∷ rest.rolled_back else rest.rolled_back;
}

-- Every change in turn is taken back, whether or not those before it could be.
unfoldable pub take_back :
    (ℕ → PatchChange → Tree → Written) → ℕ → List PatchChange → Tree → Recovered
take_back step n [] source = record { tree = source; rolled_back = [] }
take_back step n (change ∷ changes) source =
    let w = step n change source in also w.ok change.relpath (take_back step (suc n) changes w.tree)

unfoldable pub recover : Sha256 → (ℕ → RestoreFault) → List PatchChange → Tree → Tree → Recovered
unfolding restore take_back
recover sha fault changes backup source =
    take_back (λ n change tree. restore sha (fault n) change backup tree) 0 changes source

abbrev pub with_current : List PatchChange → Option PatchChange → List PatchChange
with_current made none = made
with_current made (some change) = made ++ change ∷ []

-- `observed[relpath] = …`
unfoldable pub observe : Relpath → String → List (Relpath × String) → List (Relpath × String)
unfolding same
observe path hash [] = (path, hash) ∷ []
observe path hash ((other, old) ∷ rest) =
    let further = observe path hash rest in
    if same other path then (other, hash) ∷ rest else (other, old) ∷ further

abbrev or_unavailable : Option String → String
or_unavailable none = "unavailable"
or_unavailable (some hash) = hash

abbrev hash_or_unavailable : Sha256 → (Relpath → Bool) → Tree → Relpath → String
hash_or_unavailable sha unread source path =
    if unread path then "unavailable" else or_unavailable (hash_at sha source path)

unfoldable pub observe_final_hashes :
    Sha256
    → (Relpath → Bool)
    → Tree
    → List PatchChange
    → List (Relpath × String)
    → List (Relpath × String)
unfolding observe hash_at origin_relpath
observe_final_hashes sha unread source [] observed = observed
observe_final_hashes sha unread source (change ∷ changes) observed =
    let origin = origin_relpath change in
    let first =
      observe change.relpath (hash_or_unavailable sha unread source change.relpath) observed in
    observe_final_hashes sha unread source changes
      (observe origin (hash_or_unavailable sha unread source origin) first)

-- The source tree and the private root that an operation leaves, and its result.
pub record Outcome : Type 0 where
  pub source : Tree
  pub privately : PrivateRoot
  pub result : PatchOperationResult

abbrev pub refused : String → List Relpath → PatchOperationResult
refused patch_id pending = record {
  status = failed;
  patch_id = patch_id;
  applied = [];
  pending = pending;
  rolled_back = [];
  reason_code = some patch_apply_failed;
  recovery_required = none;
}

abbrev pub succeeded : String → List Relpath → PatchOperationResult
succeeded patch_id paths = record {
  status = applied;
  patch_id = patch_id;
  applied = paths;
  pending = [];
  rolled_back = [];
  reason_code = some patch_applied;
  recovery_required = none;
}

abbrev pub applied_record :
    Sha256 → (Relpath → Bool) → String → List PatchChange → Tree → StoredPatchRecord
applied_record sha unread patch_id changes source = record {
  patch_id = patch_id;
  changes = changes;
  applied = relpaths changes;
  status = RecordStatus.applied;
  transaction_status = TransactionStatus.applied;
  attempted = relpaths changes;
  rolled_back = [];
  rollback_failed = [];
  final_observed_hashes = observe_final_hashes sha unread source changes [];
}

abbrev pub all_back : Recovered → List PatchChange → Bool
all_back r recovery = length r.rolled_back == length recovery

abbrev pub failed_record :
    Sha256
    → (Relpath → Bool)
    → String
    → List PatchChange
    → List PatchChange
    → Recovered
    → StoredPatchRecord
failed_record sha unread patch_id changes recovery r = record {
  patch_id = patch_id;
  changes = changes;
  applied = relpaths recovery;
  status = apply_failed;
  transaction_status =
      if all_back r recovery
      then TransactionStatus.rolled_back
      else TransactionStatus.rollback_failed;
  attempted = relpaths recovery;
  rolled_back = r.rolled_back;
  rollback_failed = filter (λ path. not (includes r.rolled_back path)) (relpaths recovery);
  final_observed_hashes = observe_final_hashes sha unread r.tree changes [];
}

-- Some changes may have been made: `all.slice(recovery.length)` were not.
abbrev pub gave_up : String → List PatchChange → List PatchChange → Recovered → PatchOperationResult
gave_up patch_id changes recovery r = record {
  status = failed;
  patch_id = patch_id;
  applied = relpaths recovery;
  pending = drop (length recovery) (relpaths changes);
  rolled_back = r.rolled_back;
  reason_code = some patch_apply_failed;
  recovery_required = some (not (all_back r recovery));
}

abbrev keep_record : Bool → String → StoredPatchRecord → Tree → PrivateRoot → PrivateRoot
keep_record saved directory stored backup privately =
    insert directory (record { backup = backup; stored = if saved then some stored else none })
      privately

-- The `catch` block.
unfoldable pub roll_back :
    Sha256 → ApplyFaults → String → String → List PatchChange → Attempt → PrivateRoot → Outcome
unfolding recover insert filter any same observe_final_hashes drop
roll_back sha faults directory patch_id changes a privately =
    let recovery = with_current a.progress.made a.progress.in_progress in
    let r = recover sha faults.restore (reverse recovery) a.backup a.progress.tree in
    let result = gave_up patch_id changes recovery r in
    record {
      source = r.tree;
      privately =
          if a.owns_directory
          then keep_record (not faults.save_failure) directory
              (failed_record sha faults.observation patch_id changes recovery r) a.backup privately
          else privately;
      result = result;
    }

unfoldable pub all_verified : Sha256 → ApplyFaults → List PatchChange → Attempt → Bool
unfolding in_place all
all_verified sha faults changes a =
    a.progress.ok && not faults.verification && all (in_place sha a.progress.tree) changes

unfoldable pub conclude :
    Sha256 → ApplyFaults → String → String → List PatchChange → Attempt → PrivateRoot → Outcome
unfolding all_verified roll_back insert observe_final_hashes
conclude sha faults directory patch_id changes a privately =
    let result = succeeded patch_id (relpaths changes) in
    if all_verified sha faults changes a && not faults.save
    then record {
      source = a.progress.tree;
      privately =
          keep_record true directory
            (applied_record sha faults.observation patch_id changes a.progress.tree) a.backup
            privately;
      result = result;
    }
    else roll_back sha faults directory patch_id changes a privately

-- What is checked before anything is written.
unfoldable pub preflight :
    Sha256 → Review → (Relpath → Relpath) → ApplyFaults → List PatchChange → Tree → Tree → Bool
unfolding aliases_differ validate_change all
preflight sha review fold faults changes source prepared =
    not faults.preflight
    && aliases_differ fold [] changes
    && all (λ change. validate_change sha review change source prepared) changes

abbrev pub in_directory :
    Sha256
    → Review
    → ApplyFaults
    → String
    → List PatchChange
    → Tree
    → Tree
    → PrivateRoot
    → Option String
    → Option Outcome
in_directory sha review faults patch_id changes source prepared privately none = none
in_directory sha review faults patch_id changes source prepared privately (some directory) =
    let exists = is_some (lookup directory privately) in
    some (
      conclude sha faults directory patch_id changes
        (attempt sha review faults exists changes source prepared) privately)

-- None where it throws, at an id that names no directory.
unfoldable pub apply_patch_atomically :
    Sha256
    → Review
    → (Relpath → Relpath)
    → ApplyFaults
    → String
    → List PatchChange
    → Tree
    → Tree
    → PrivateRoot
    → Option Outcome
unfolding preflight attempt conclude lookup patch_dir
apply_patch_atomically sha review fold faults patch_id changes source prepared privately =
    if preflight sha review fold faults changes source prepared
    then in_directory sha review faults patch_id changes source prepared privately
        (patch_dir patch_id)
    else some (record {
      source = source;
      privately = privately;
      result = refused patch_id (relpaths changes);
    })
