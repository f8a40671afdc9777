-- ===== src/Patch/Types.antt =====
-- packages/core/src/patch/types.ts: the changes of a patch. Paths and hashes of files are texts; a path is
-- kept as its code points.
use yuhi.Prelude.{ℕ, String, Bool, true, false, Option, List}

abbrev pub Relpath : Type 0
Relpath = List ℕ

pub data PreparedRepresentation : Type 0 where
  full compressed background_artifact : PreparedRepresentation

pub data UnsafeType : Type 0 where
  symlink special : UnsafeType

pub record PreparedSnapshotFile : Type 0 where
  pub relpath : Relpath
  pub sha256 : String
  pub size_bytes : ℕ
  pub representation : PreparedRepresentation
  pub mode : ℕ
  pub binary : Bool
  pub unsafe_type : Option UnsafeType

pub record PreparedSnapshot : Type 0 where
  pub context_id : String
  pub revision_id : String
  pub created_from_run_id : String
  pub files : List PreparedSnapshotFile

pub data PatchChangeKind : Type 0 where
  added modified deleted renamed mode_changed binary : PatchChangeKind

pub data PatchApplyEligibility : Type 0 where
  eligible requires_review blocked : PatchApplyEligibility

pub data PatchRisk : Type 0 where
  low review high blocked : PatchRisk

pub data PatchReasonCode : Type 0 where
  patch_added patch_modified patch_deleted patch_renamed patch_binary patch_compressed_source
        patch_background_artifact patch_source_changed patch_path_escape patch_symlink
        patch_secret_added patch_pii_added patch_sensitive_config patch_generated_large_file
        patch_unsupported_mode patch_eligible patch_apply_failed patch_applied patch_undone
        patch_undo_conflict :
      PatchReasonCode

pub record PatchChange : Type 0 where
  pub relpath : Relpath
  pub kind : PatchChangeKind
  pub previous_relpath : Option Relpath
  pub before_hash : Option String
  pub after_hash : Option String
  pub before_size_bytes : Option ℕ
  pub after_size_bytes : Option ℕ
  pub before_mode : Option ℕ
  pub after_mode : Option ℕ
  pub representation : PreparedRepresentation
  pub apply_eligibility : PatchApplyEligibility
  pub risk : Option PatchRisk
  pub source_changed : Option Bool
  pub unsafe_type : Option UnsafeType
  pub reason_codes : List PatchReasonCode

abbrev pub is_full : PreparedRepresentation → Bool
is_full full = true
is_full _ = false

abbrev pub is_added : PatchChangeKind → Bool
is_added added = true
is_added _ = false

abbrev pub is_deleted : PatchChangeKind → Bool
is_deleted deleted = true
is_deleted _ = false

abbrev pub is_renamed : PatchChangeKind → Bool
is_renamed renamed = true
is_renamed _ = false

abbrev pub is_blocked : PatchApplyEligibility → Bool
is_blocked blocked = true
is_blocked _ = false

abbrev pub needs_review : PatchApplyEligibility → Bool
needs_review requires_review = true
needs_review _ = false
