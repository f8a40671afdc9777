-- ===== src/Patch/Records.antt =====
-- packages/core/src/patch/apply.ts: what an operation on a patch answers, and what is kept of it under the private root,
-- which is the list of its patch directories.
use yuhi.Prelude.{
  ℕ, zero, suc, String, ◌+++◌, Bool, not, ◌&&◌, ◌||◌, Option, none, some, List, all, length, ◌==◌,
  leb, if◌then◌else◌,
}
use yuhi.Text.{codes, begins}
use yuhi.Patch.Types.{Relpath, PatchChange, PatchReasonCode}
use yuhi.Patch.Tree.{Tree}

pub data OperationStatus : Type 0 where
  applied failed undone undo_rolled_back undo_rollback_failed conflict discarded : OperationStatus

pub record PatchOperationResult : Type 0 where
  pub status : OperationStatus
  pub patch_id : String
  pub applied : List Relpath
  pub pending : List Relpath
  pub rolled_back : List Relpath
  pub reason_code : Option PatchReasonCode
  pub recovery_required : Option Bool

pub data RecordStatus : Type 0 where
  applied apply_failed undone undo_recovery_required : RecordStatus

pub data TransactionStatus : Type 0 where
  applied rolled_back rollback_failed undone undo_rolled_back undo_rollback_failed :
      TransactionStatus

pub record StoredPatchRecord : Type 0 where
  pub patch_id : String
  pub changes : List PatchChange
  pub applied : List Relpath
  pub status : RecordStatus
  pub transaction_status : TransactionStatus
  pub attempted : List Relpath
  pub rolled_back : List Relpath
  pub rollback_failed : List Relpath
  pub final_observed_hashes : List (Relpath × String)

-- What is kept of a patch: its backup, and its record once it is written.
pub record PatchDirectory : Type 0 where
  pub backup : Tree
  pub stored : Option StoredPatchRecord

abbrev pub PrivateRoot : Type 0
PrivateRoot = List (String × PatchDirectory)

-- `patchDir`, none where it throws: the directory `sha256-…` of a digest, or an id of plain letters.
abbrev plain_letter : ℕ → Bool
plain_letter c =
    (leb b'a' c && leb c b'z')
    || (leb b'A' c && leb c b'Z')
    || (leb b'0' c && leb c b'9')
    || c == b'.'
    || c == b'_'
    || c == b'-'

abbrev hex_digit : ℕ → Bool
hex_digit c = (leb b'a' c && leb c b'f') || (leb b'0' c && leb c b'9')

abbrev sha256_digest : List ℕ → Bool
sha256_digest digest = all hex_digit digest && length digest == 64

abbrev behind : ℕ → String → String
behind zero text = text
behind (suc n) String.[] = ""
behind (suc n) (String.◌∷◌ c text) = behind n text

unfoldable pub patch_dir : String → Option String
unfolding all begins
patch_dir patch_id =
    let id = codes patch_id in
    let digest = behind 7 patch_id in
    if begins id (codes "sha256:") && sha256_digest (codes digest)
    then some ("sha256-" +++ digest)
    else if all plain_letter id && not (length id == 0)
    then some patch_id
    else none
