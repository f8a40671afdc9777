-- ===== src/Patch/Tests.antt =====
-- Runs of the patch review: hunks, an applied patch, one that fails midway, and an undo.
use yuhi.Prelude.{
  ℕ, get_or, length, any, String, Bool, true, false, Option, none, some, is_some, List, [], ◌∷◌,
  take, ◌≡◌, ◌≢◌, refl, ap, arith, if◌then◌else◌, ◌==◌,
}
use yuhi.Text.{codes}
use yuhi.Patch.Paths.{leads_inside}
use yuhi.Patch.Types.{
  Relpath, PatchChange, PatchChangeKind, PreparedSnapshotFile, PreparedSnapshot, added, modified,
  eligible, full,
}
use yuhi.Patch.Tree.{Bytes, missing, file, Tree, put, no_fault, before_rename, Sha256}
use yuhi.Patch.Apply.{Review, MutationFault, RestoreFault}
use yuhi.Patch.Records.{applied, failed, undone, undo_rolled_back, undo_rollback_failed}
use yuhi.Patch.Transaction.{ApplyFaults, Outcome, refused, apply_patch_atomically}
use yuhi.Patch.Transaction.Rollback.{apply_patch_atomically-failed}
use yuhi.Patch.Transaction.Commit.{Applies, apply_patch_atomically-applied}
use yuhi.Patch.Records.{patch_dir}
use yuhi.Patch.Undo.{UndoFaults, undo_patch}
use yuhi.Patch.Undo.Laws.{undo_patch-kept}
use yuhi.Patch.Undo.Reverts.{undo_patch-apply_patch_atomically}
use yuhi.Patch.Diff.{by_relpath, file_at, diff_prepared_snapshots}
use yuhi.Patch.Diff.Laws.{reports, diff_prepared_snapshots-reports}
use yuhi.Patch.Hunks.{Digest, build_text_patch_hunks, apply_text_patch_hunks}
use yuhi.Patch.Hunks.Splice.{ids_of}
use yuhi.Patch.Hunks.RoundTrip.{apply-build}

abbrev digest : Digest
digest start count replacement = if start == 0 then "first" else "later"

abbrev old_text : List ℕ
old_text = codes "one"

abbrev new_text : List ℕ
new_text = codes "two"

apply-build_example :
    let hunks = build_text_patch_hunks digest old_text new_text in
    apply_text_patch_hunks old_text hunks (ids_of hunks) ≡ new_text
apply-build_example = apply-build digest old_text new_text

-- A digest that tells lengths apart.
abbrev sha : Sha256
sha [] = "e"
sha (b ∷ bytes) = String.◌∷◌ "f" (sha bytes)

abbrev first_letter : String → List ℕ
first_letter text = take 1 (codes text)

sha-missing : (bytes : Bytes) → sha bytes ≢ "missing"
unfolding take
sha-missing [] e = absurd (ground (arith, ap first_letter e))
sha-missing (b ∷ bytes) e = absurd (ground (arith, ap first_letter e))

abbrev agree : Review
agree change before after = eligible

abbrev no_fold : Relpath → Relpath
no_fold path = path

abbrev nothing : Tree
nothing place = missing

abbrev source : Tree
source = put (codes "a") (file (1 ∷ [])) nothing

abbrev prepared : Tree
prepared = put (codes "b") (file (3 ∷ [])) (put (codes "a") (file (2 ∷ 2 ∷ [])) nothing)

abbrev change_of : PatchChangeKind → String → Option String → Option String → PatchChange
change_of kind path before after = record {
  relpath = codes path;
  kind = kind;
  previous_relpath = none;
  before_hash = before;
  after_hash = after;
  before_size_bytes = none;
  after_size_bytes = none;
  before_mode = none;
  after_mode = none;
  representation = full;
  apply_eligibility = eligible;
  risk = none;
  source_changed = none;
  unsafe_type = none;
  reason_codes = [];
}

abbrev two_changes : List PatchChange
two_changes =
    change_of modified "a" (some "fe") (some "ffe") ∷ change_of added "b" none (some "fe") ∷ []

abbrev restores : ℕ → RestoreFault
restores n = record { at_start = false; remove = false; write = no_fault }

abbrev mutations : Bool → ℕ → MutationFault
mutations fails n = record {
  at_start = false;
  write = if n == 1 then (if fails then before_rename else no_fault) else no_fault;
  behind_write = false;
  unlink = false;
}

-- No fault, or one at the second change.
abbrev faults : Bool → ApplyFaults
faults fails = record {
  preflight = false;
  make_directory = false;
  make_backup = false;
  backup = λ n. no_fault;
  validation = λ n. false;
  mutation = mutations fails;
  verification = false;
  save = false;
  restore = restores;
  save_failure = false;
  observation = λ path. false;
}

abbrev nowhere : Outcome
nowhere = record { source = nothing; privately = []; result = refused "" [] }

abbrev outcome_of : Option Outcome → Outcome
outcome_of none = nowhere
outcome_of (some outcome) = outcome

abbrev run : Bool → Outcome
run fails =
    outcome_of
      (apply_patch_atomically sha agree no_fold (faults fails) "p" two_changes source prepared [])

abbrev undo_faults : Bool → UndoFaults
undo_faults fails = record {
  check = false;
  capture = λ n. no_fault;
  restore = restores;
  save = fails;
  cleanup = false;
  redo = restores;
  save_rollback = false;
  cleanup_rollback = false;
}

abbrev undo_run : Bool → Outcome
undo_run fails =
    outcome_of (undo_patch sha (undo_faults fails) "p" (run false).source (run false).privately)

run_status : (run false).result.status ≡ applied
unfolding leads_inside apply_patch_atomically
run_status = refl

failed_status : (run true).result.status ≡ failed
unfolding leads_inside apply_patch_atomically
failed_status = refl

undo_status : (undo_run false).result.status ≡ undone
unfolding leads_inside apply_patch_atomically undo_patch
undo_status = refl

-- The record cannot be saved: the tree goes back, though the record has it that the patch is undone.
undo_back_status : (undo_run true).result.status ≡ undo_rolled_back
unfolding leads_inside apply_patch_atomically undo_patch
undo_back_status = refl

some_outcome : (out : Option Outcome) → is_some out ≡ true → out ≡ some (outcome_of out)
some_outcome none h = absurd (ground (arith, h))
some_outcome (some outcome) h = refl

run_is :
    apply_patch_atomically sha agree no_fold (faults false) "p" two_changes source prepared []
    ≡ some (run false)
unfolding leads_inside apply_patch_atomically
run_is =
    some_outcome
      (apply_patch_atomically sha agree no_fold (faults false) "p" two_changes source prepared [])
      refl

failed_run_is :
    apply_patch_atomically sha agree no_fold (faults true) "p" two_changes source prepared []
    ≡ some (run true)
unfolding leads_inside apply_patch_atomically
failed_run_is =
    some_outcome
      (apply_patch_atomically sha agree no_fold (faults true) "p" two_changes source prepared [])
      refl

undo_is :
    undo_patch sha (undo_faults false) "p" (run false).source (run false).privately
    ≡ some (undo_run false)
unfolding leads_inside apply_patch_atomically undo_patch
undo_is =
    some_outcome (undo_patch sha (undo_faults false) "p" (run false).source (run false).privately)
      refl

undo_back_is :
    undo_patch sha (undo_faults true) "p" (run false).source (run false).privately
    ≡ some (undo_run true)
unfolding leads_inside apply_patch_atomically undo_patch
undo_back_is =
    some_outcome (undo_patch sha (undo_faults true) "p" (run false).source (run false).privately)
      refl

recovered : (run true).result.recovery_required ≢ some true
unfolding leads_inside apply_patch_atomically
recovered e = absurd (ground (arith, e))

back_not_undone : (undo_run true).result.status ≢ undone
unfolding leads_inside apply_patch_atomically undo_patch
back_not_undone e = absurd (ground (arith, e))

back_not_failed : (undo_run true).result.status ≢ undo_rollback_failed
unfolding leads_inside apply_patch_atomically undo_patch
back_not_failed e = absurd (ground (arith, e))

apply_patch_atomically-failed_example : (run true).source (codes "a") ≡ source (codes "a")
apply_patch_atomically-failed_example =
    apply_patch_atomically-failed sha agree no_fold (faults true) "p" two_changes source prepared []
      (run true) sha-missing failed_run_is failed_status recovered (codes "a")

apply_patch_atomically-applied_example :
    (directory : String) × (patch_dir "p" ≡ some directory)
    × Applies sha (faults false).observation "p" directory two_changes source (run false)
apply_patch_atomically-applied_example =
    apply_patch_atomically-applied sha agree no_fold (faults false) "p" two_changes source prepared
      [] (run false) sha-missing run_is run_status

undo_patch-apply_patch_atomically_example : (undo_run false).source (codes "b") ≡ source (codes "b")
undo_patch-apply_patch_atomically_example =
    undo_patch-apply_patch_atomically sha agree no_fold (faults false) (undo_faults false) "p"
      two_changes source prepared [] (run false) (undo_run false) sha-missing run_is run_status
      undo_is undo_status (codes "b")

undo_patch-kept_example : (undo_run true).source (codes "b") ≡ (run false).source (codes "b")
undo_patch-kept_example =
    undo_patch-kept sha (undo_faults true) "p" (run false).source (run false).privately
      (undo_run true) sha-missing undo_back_is back_not_undone back_not_failed (codes "b")

abbrev snapshot_file : String → String → PreparedSnapshotFile
snapshot_file path hash = record {
  relpath = codes path;
  sha256 = hash;
  size_bytes = 1;
  representation = full;
  mode = 420;
  binary = false;
  unsafe_type = none;
}

abbrev snapshot : List PreparedSnapshotFile → PreparedSnapshot
snapshot files = record {
  context_id = "c";
  revision_id = "r";
  created_from_run_id = "run";
  files = files;
}

-- One file is changed, one renamed.
abbrev old_snapshot : PreparedSnapshot
old_snapshot = snapshot (snapshot_file "a" "1" ∷ snapshot_file "b" "2" ∷ [])

abbrev new_snapshot : PreparedSnapshot
new_snapshot = snapshot (snapshot_file "a" "3" ∷ snapshot_file "c" "2" ∷ [])

abbrev diff : List PatchChange
diff = get_or (diff_prepared_snapshots old_snapshot new_snapshot) []

diff_is : diff_prepared_snapshots old_snapshot new_snapshot ≡ some diff
unfolding diff_prepared_snapshots
diff_is = refl

two_reported : length diff ≡ 2
unfolding diff_prepared_snapshots
two_reported = refl

diff_prepared_snapshots-reports_example : any (reports (codes "b")) diff ≡ true
unfolding by_relpath file_at
diff_prepared_snapshots-reports_example =
    diff_prepared_snapshots-reports (codes "b") old_snapshot new_snapshot diff diff_is refl
