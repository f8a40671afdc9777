-- ===== src/Patch/Apply.antt =====
-- packages/core/src/patch/apply.ts: applying a reviewed patch to the source tree, all of it or nothing. Other
-- writers of the trees are not modelled, and the hooks of the tests are left out; whatever the file
-- system throws is an oracle. `review` is the policy of validator.ts.
pub mod Restore
use yuhi.Prelude.{
  ℕ, suc, String, str_eq, Bool, true, false, not, ◌&&◌, ◌||◌, Option, none, some, List, [], ◌∷◌,
  ◌++◌, map, filter, any, all, length, drop, ◌==◌, is_some, get_or, if◌then◌else◌,
}
use yuhi.Text.{same}
use yuhi.Patch.Types.{
  Relpath, PatchChange, PatchChangeKind, added, renamed, mode_changed, binary,
  PatchApplyEligibility, is_full, is_added, is_deleted, is_renamed, is_blocked, needs_review,
}
use yuhi.Patch.Paths.{safe_relpath, contained, slashed}
use yuhi.Patch.Tree.{
  Bytes, Entry, missing, file, Tree, put, Sha256, entry_hash, hash_is, is_missing, no_symlink,
  WriteFault, Written, written, atomic_write,
}

-- `validatePatchChange`, on the change and the bytes before and after it.
abbrev pub Review : Type 0
Review = PatchChange → Option Bytes → Option Bytes → PatchApplyEligibility

unfoldable pub origin_relpath : PatchChange → Relpath
origin_relpath change =
    if is_renamed change.kind then get_or change.previous_relpath [] else change.relpath

abbrev pub hash_there : Sha256 → Tree → Option Relpath → Option String
hash_there sha tree none = none
hash_there sha tree (some place) = entry_hash sha (tree place)

-- `fileHash(contained(root, relpath))`
unfoldable pub hash_at : Sha256 → Tree → Relpath → Option String
unfolding contained entry_hash
hash_at sha tree relpath = hash_there sha tree (contained relpath)

abbrev bytes_of : Entry → Option Bytes
bytes_of (file bytes) = some bytes
bytes_of _ = none

abbrev bytes_there : Tree → Option Relpath → Option Bytes
bytes_there tree none = none
bytes_there tree (some place) = bytes_of (tree place)

-- `readRegularFile(contained(root, relpath))`
unfoldable pub bytes_at : Tree → Relpath → Option Bytes
unfolding contained
bytes_at tree relpath = bytes_there tree (contained relpath)

-- A hash that is given and not empty.
abbrev known : Option String → Bool
known none = false
known (some hash) = not (str_eq hash "")

abbrev pub says_missing : Option String → Bool
says_missing hash = hash_is hash (some "missing")

abbrev unsupported : PatchChangeKind → Bool
unsupported binary = true
unsupported mode_changed = true
unsupported _ = false

abbrev rehashes : Sha256 → Option Bytes → Option String → Bool
rehashes sha none expected = true
rehashes sha (some bytes) expected = hash_is (some (sha bytes)) expected

abbrev granted : PatchApplyEligibility → PatchApplyEligibility → Bool
granted verdict confirmed =
    not (is_blocked verdict) && (not (needs_review verdict) || needs_review confirmed)

-- The last part of `validateChange`, on the bytes that it reads.
unfoldable pub policy_agrees : Sha256 → Review → PatchChange → Tree → Tree → Bool
unfolding bytes_at origin_relpath
policy_agrees sha review change source prepared =
    let before = if is_added change.kind then none else bytes_at source (origin_relpath change) in
    let after = if is_deleted change.kind then none else bytes_at prepared change.relpath in
    (is_added change.kind || is_some before)
    && (is_deleted change.kind || is_some after)
    && rehashes sha before change.before_hash
    && rehashes sha after change.after_hash
    && granted (review change before after) change.apply_eligibility

-- Whether the source still is as the change found it.
unfoldable pub source_agrees : Sha256 → PatchChange → Tree → Bool
unfolding hash_at origin_relpath
source_agrees sha change source =
    let current = hash_at sha source (origin_relpath change) in
    (if is_added change.kind
      then says_missing current
      else known change.before_hash && hash_is current change.before_hash)
    && (not (is_renamed change.kind) || says_missing (hash_at sha source change.relpath))

-- The first part of `validateChange`: what the change is, and where it leads.
unfoldable pub change_allowed : PatchChange → Tree → Bool
unfolding origin_relpath no_symlink safe_relpath
change_allowed change source =
    let origin = origin_relpath change in
    not (unsupported change.kind)
    && is_full change.representation
    && not (is_blocked change.apply_eligibility)
    && safe_relpath change.relpath
    && safe_relpath origin
    && no_symlink source origin true
    && no_symlink source change.relpath true

-- Whether the prepared file still is the one that was reviewed.
unfoldable pub prepared_agrees : Sha256 → PatchChange → Tree → Bool
unfolding hash_at no_symlink
prepared_agrees sha change prepared =
    is_deleted change.kind
    || (no_symlink prepared change.relpath false
        && known change.after_hash
        && hash_is (hash_at sha prepared change.relpath) change.after_hash)

-- Whether `validateChange` does not throw.
unfoldable pub validate_change : Sha256 → Review → PatchChange → Tree → Tree → Bool
unfolding change_allowed source_agrees prepared_agrees policy_agrees
validate_change sha review change source prepared =
    change_allowed change source
    && source_agrees sha change source
    && prepared_agrees sha change prepared
    && policy_agrees sha review change source prepared

-- `backupChange`
abbrev pub backup_there : Sha256 → WriteFault → PatchChange → Tree → Tree → Option Relpath → Written
backup_there sha fault change source backup none = written backup false
backup_there sha fault change source backup (some place) =
    let w =
      atomic_write sha fault (source place) place change.before_hash
        (no_symlink source (origin_relpath change) false) backup in
    written w.tree (w.ok && hash_is (entry_hash sha (w.tree place)) change.before_hash)

unfoldable pub backup_change : Sha256 → WriteFault → PatchChange → Tree → Tree → Written
unfolding origin_relpath contained atomic_write entry_hash no_symlink
backup_change sha fault change source backup =
    if is_added change.kind
    then written backup true
    else backup_there sha fault change source backup (contained (origin_relpath change))

-- What the file system throws while one change is made.
pub record MutationFault : Type 0 where
  pub at_start : Bool
  pub write : WriteFault
  pub behind_write : Bool
  pub unlink : Bool

-- `fs.unlink`, which throws where nothing is.
unfoldable pub unlink : Bool → Relpath → Tree → Written
unfolding put
unlink fault place tree =
    if fault || is_missing (tree place)
    then written tree false
    else written (put place missing tree) true

abbrev pub mutate_there :
    Sha256 → MutationFault → PatchChange → Tree → Tree → Option Relpath → Option Relpath → Written
mutate_there sha fault change prepared source (some origin) (some place) =
    if is_deleted change.kind
    then unlink fault.unlink origin source
    else let w =
        atomic_write sha fault.write (prepared place) place change.after_hash
          (no_symlink source change.relpath true && no_symlink prepared change.relpath false)
          source in
      if w.ok && not fault.behind_write
      then (if is_renamed change.kind
          then unlink fault.unlink origin w.tree
          else written w.tree true)
      else written w.tree false
mutate_there sha fault change prepared source _ _ = written source false

unfoldable pub mutate : Sha256 → MutationFault → PatchChange → Tree → Tree → Written
unfolding origin_relpath contained atomic_write unlink no_symlink
mutate sha fault change prepared source =
    if fault.at_start
      || not (no_symlink source (origin_relpath change) true)
      || not (no_symlink source change.relpath true)
    then written source false
    else mutate_there sha fault change prepared source (contained (origin_relpath change))
        (contained change.relpath)

pub record RestoreFault : Type 0 where
  pub at_start : Bool
  pub remove : Bool
  pub write : WriteFault

-- The file at a place of `from` goes to that place of the tree; `guard` is checked beside the rename.
abbrev pub write_back :
    Sha256 → RestoreFault → Tree → Relpath → Option String → Relpath → Tree → Written
write_back sha fault from guard expected place tree =
    atomic_write sha fault.write (from place) place expected (no_symlink tree guard true) tree

-- One place is cleared, and a file is put back at another, each where it is asked for.
abbrev pub clear_and_write :
    Sha256
    → RestoreFault
    → Bool
    → Bool
    → Tree
    → Relpath
    → Option String
    → Relpath
    → Relpath
    → Tree
    → Written
clear_and_write sha fault clears writes from guard expected cleared place tree =
    let rest = if clears then put cleared missing tree else tree in
    if clears && fault.remove
    then written tree false
    else if writes
    then write_back sha fault from guard expected place rest
    else written rest true

abbrev pub restore_there :
    Sha256 → RestoreFault → PatchChange → Tree → Tree → Option Relpath → Option Relpath → Written
restore_there sha fault change backup source (some origin) (some place) =
    clear_and_write sha fault (is_added change.kind || is_renamed change.kind)
      (not (is_added change.kind)) backup (origin_relpath change) change.before_hash place origin
      source
restore_there sha fault change backup source _ _ = written source false

unfoldable pub restore : Sha256 → RestoreFault → PatchChange → Tree → Tree → Written
unfolding origin_relpath contained atomic_write put no_symlink
restore sha fault change backup source =
    if fault.at_start
      || not (no_symlink source change.relpath true)
      || not (no_symlink source (origin_relpath change) true)
    then written source false
    else restore_there sha fault change backup source (contained (origin_relpath change))
        (contained change.relpath)
