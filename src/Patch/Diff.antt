-- ===== src/Patch/Diff.antt =====
-- packages/core/src/patch/diff.ts: the changes between two snapshots. A `Map` from paths to files is the list of its
-- files; modes are their permission bits.
pub mod Laws
use yuhi.Prelude.{
  ℕ, ◌/◌, ◌%◌, String, str_eq, Bool, true, false, not, ◌&&◌, ◌||◌, Option, none, some, get_or,
  is_some, List, [], ◌∷◌, ◌++◌, map, filter, any, length, ◌==◌, if◌then◌else◌,
}
use yuhi.Prelude.Assoc.{lookup, insert, values}
use yuhi.Prelude.Sort.{sort}
use yuhi.Text.{codes, to_lower, same, begins, units, units_before}
use yuhi.Patch.Types.{
  Relpath, PreparedRepresentation, compressed, background_artifact, PreparedSnapshotFile,
  PreparedSnapshot, PatchChangeKind, added, modified, deleted, renamed, mode_changed, binary,
  PatchApplyEligibility, PatchReasonCode, patch_added, patch_modified, patch_deleted, patch_renamed,
  patch_binary, patch_compressed_source, patch_background_artifact, patch_sensitive_config,
  patch_unsupported_mode, PatchChange,
}

-- `comparePath(a, b)` is negative.
abbrev pub path_before : PatchChange → PatchChange → Bool
path_before a b = units_before (units a.relpath) (units b.relpath)

abbrev when : Bool → PatchReasonCode → List PatchReasonCode
when true reason = reason ∷ []
when false reason = []

abbrev inside : Relpath → String → Bool
inside path directory = same path (codes directory) || begins path (codes directory ++ b'/' ∷ [])

abbrev is_compressed : PreparedRepresentation → Bool
is_compressed compressed = true
is_compressed _ = false

abbrev is_artifact : PreparedRepresentation → Bool
is_artifact background_artifact = true
is_artifact _ = false

-- `(mode & 0o111) !== 0`
abbrev executable : ℕ → Bool
executable mode = mode % 2 == 1 || (mode / 8) % 2 == 1 || (mode / 64) % 2 == 1

-- Every reason blocks.
unfoldable pub policy_reasons : PreparedSnapshotFile → List PatchReasonCode
unfolding to_lower same begins
policy_reasons f =
    let folded = map to_lower f.relpath in
    when (inside folded ".git") patch_sensitive_config
    ++ when (inside folded ".yuhi") patch_sensitive_config
    ++ when (is_compressed f.representation) patch_compressed_source
    ++ when (is_artifact f.representation) patch_background_artifact
    ++ when f.binary patch_binary
    ++ when (executable f.mode) patch_unsupported_mode

abbrev eligibility_of : List PatchReasonCode → PatchApplyEligibility
eligibility_of [] = PatchApplyEligibility.eligible
eligibility_of (reason ∷ reasons) = PatchApplyEligibility.blocked

abbrev kind_reason : PatchChangeKind → PatchReasonCode
kind_reason added = patch_added
kind_reason modified = patch_modified
kind_reason deleted = patch_deleted
kind_reason renamed = patch_renamed
kind_reason binary = patch_binary
kind_reason mode_changed = patch_unsupported_mode

abbrev of_file {ℓ} :
    {A : Type ℓ} → (PreparedSnapshotFile → A) → Option PreparedSnapshotFile → Option A
of_file field none = none
of_file field (some f) = some (field f)

-- The change of the file that governs it: the new one, else the old one.
unfoldable pub change_of :
    PatchChangeKind
    → PreparedSnapshotFile
    → Option PreparedSnapshotFile
    → Option PreparedSnapshotFile
    → Option Relpath
    → PatchChange
unfolding policy_reasons
change_of kind governing after before previous =
    let reasons = policy_reasons governing in
    record {
      relpath = governing.relpath;
      kind = kind;
      previous_relpath = previous;
      before_hash = of_file (λ f. f.sha256) before;
      after_hash = of_file (λ f. f.sha256) after;
      before_size_bytes = of_file (λ f. f.size_bytes) before;
      after_size_bytes = of_file (λ f. f.size_bytes) after;
      before_mode = of_file (λ f. f.mode) before;
      after_mode = of_file (λ f. f.mode) after;
      representation = governing.representation;
      apply_eligibility = eligibility_of reasons;
      risk = none;
      source_changed = none;
      unsafe_type = governing.unsafe_type;
      reason_codes = kind_reason kind ∷ reasons;
    }

-- `map.set(file.relpath, file)`
unfoldable pub set_file :
    PreparedSnapshotFile → List PreparedSnapshotFile → List PreparedSnapshotFile
unfolding same
set_file f [] = f ∷ []
set_file f (g ∷ files) =
    let further = set_file f files in if same g.relpath f.relpath then f ∷ files else g ∷ further

unfoldable pub by_relpath :
    List PreparedSnapshotFile → List PreparedSnapshotFile → List PreparedSnapshotFile
unfolding set_file
by_relpath held [] = held
by_relpath held (f ∷ files) = by_relpath (set_file f held) files

unfoldable pub file_at : Relpath → List PreparedSnapshotFile → Option PreparedSnapshotFile
unfolding same
file_at path [] = none
file_at path (g ∷ files) =
    let further = file_at path files in if same g.relpath path then some g else further

unfoldable pub grouped_by_hash :
    List (String × List PreparedSnapshotFile)
    → List PreparedSnapshotFile
    → List (String × List PreparedSnapshotFile)
unfolding lookup insert
grouped_by_hash groups [] = groups
grouped_by_hash groups (f ∷ files) =
    grouped_by_hash (insert f.sha256 (get_or (lookup f.sha256 groups) [] ++ f ∷ []) groups) files

abbrev only_one : List PreparedSnapshotFile → List PreparedSnapshotFile
only_one (f ∷ []) = f ∷ []
only_one _ = []

unfoldable pub only_ones : List (String × List PreparedSnapshotFile) → List PreparedSnapshotFile
only_ones [] = []
only_ones ((hash, files) ∷ groups) = only_one files ++ only_ones groups

-- `uniqueByHash`: the files that share their hash with no other; each is found by its own hash.
unfoldable pub unique_by_hash : List PreparedSnapshotFile → List PreparedSnapshotFile
unfolding grouped_by_hash only_ones
unique_by_hash files = only_ones (grouped_by_hash [] files)

unfoldable pub file_with_hash : String → List PreparedSnapshotFile → Option PreparedSnapshotFile
file_with_hash hash [] = none
file_with_hash hash (f ∷ files) =
    let further = file_with_hash hash files in if str_eq f.sha256 hash then some f else further

abbrev pub pair_with :
    PreparedSnapshotFile
    → Option PreparedSnapshotFile
    → List (PreparedSnapshotFile × PreparedSnapshotFile)
pair_with old none = []
pair_with old (some new) = (old, new) ∷ []

-- The renamed files, each with what it became.
unfoldable pub renames :
    List PreparedSnapshotFile
    → List PreparedSnapshotFile
    → List (PreparedSnapshotFile × PreparedSnapshotFile)
unfolding file_with_hash
renames [] unique_added = []
renames (old ∷ unique_deleted) unique_added =
    pair_with old (file_with_hash old.sha256 unique_added) ++ renames unique_deleted unique_added

abbrev pub renamed_change : PreparedSnapshotFile × PreparedSnapshotFile → PatchChange
renamed_change (old, new) = change_of renamed new (some new) (some old) (some old.relpath)

abbrev pub deleted_change : PreparedSnapshotFile → PatchChange
deleted_change old = change_of deleted old none (some old) none

abbrev pub added_change : PreparedSnapshotFile → PatchChange
added_change new = change_of (if new.binary then binary else added) new (some new) none none

abbrev pub is_from :
    List (PreparedSnapshotFile × PreparedSnapshotFile) → PreparedSnapshotFile → Bool
is_from pairs old = any (λ pair. same pair.0.relpath old.relpath) pairs

abbrev pub is_to : List (PreparedSnapshotFile × PreparedSnapshotFile) → PreparedSnapshotFile → Bool
is_to pairs new = any (λ pair. same pair.1.relpath new.relpath) pairs

-- A file that is in both snapshots.
abbrev pub kept_change : PreparedSnapshotFile → Option PreparedSnapshotFile → List PatchChange
kept_change old none = []
kept_change old (some new) =
    if not (str_eq old.sha256 new.sha256)
    then change_of (if new.binary || old.binary then binary else modified) new (some new) (some old)
        none
      ∷ []
    else if not (old.mode == new.mode)
    then change_of mode_changed new (some new) (some old) none ∷ []
    else []

unfoldable pub kept_changes :
    List PreparedSnapshotFile → List PreparedSnapshotFile → List PatchChange
unfolding change_of file_at
kept_changes [] after = []
kept_changes (old ∷ before) after =
    kept_change old (file_at old.relpath after) ++ kept_changes before after

-- The changes, before they are sorted.
unfoldable pub changes_between :
    List PreparedSnapshotFile → List PreparedSnapshotFile → List PatchChange
unfolding by_relpath file_at filter unique_by_hash renames any same change_of kept_changes
changes_between baseline current =
    let before = by_relpath [] baseline in
    let after = by_relpath [] current in
    let gone = filter (λ f. not (is_some (file_at f.relpath after))) baseline in
    let new = filter (λ f. not (is_some (file_at f.relpath before))) current in
    let pairs = renames (unique_by_hash gone) (unique_by_hash new) in
    map renamed_change pairs
    ++ (map deleted_change (filter (λ f. not (is_from pairs f)) gone)
        ++ (map added_change (filter (λ f. not (is_to pairs f)) new) ++ kept_changes before after))

-- None where it throws, at snapshots of different contexts.
unfoldable pub diff_prepared_snapshots :
    PreparedSnapshot → PreparedSnapshot → Option (List PatchChange)
unfolding changes_between sort units units_before
diff_prepared_snapshots baseline current =
    if not (str_eq baseline.context_id current.context_id)
      || not (str_eq baseline.revision_id current.revision_id)
    then none
    else some (sort path_before (changes_between baseline.files current.files))
