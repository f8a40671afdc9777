-- ===== src/Patch/Tree.antt =====
-- The files below a root, as packages/core/src/patch/apply.ts reads and writes them. Directories that
-- `mkdir` makes are no entries. An entry is known by its kind and contents: file modes are left out,
-- and so is the temporary file of an atomic write, which a failing removal may leave behind. The digest of bytes is a parameter, and what the file system throws an oracle.
use yuhi.Prelude.{
  ℕ, String, ◌+++◌, str_eq, Bool, true, false, not, ◌&&◌, ◌||◌, Option, none, some, List, [], any,
  if◌then◌else◌, ◌≡◌, ◌≢◌, refl, ap, arith, eq_iff, take,
}
use yuhi.Text.{codes, same, same_refl}
use yuhi.Patch.Types.{Relpath}
use yuhi.Patch.Paths.{contained, parents_from}

abbrev pub Bytes : Type 0
Bytes = List ℕ

-- What is found at a place. An entry that is neither a file nor a link is known by its mode.
pub data Entry : Type 0 where
  missing : Entry
  file : Bytes → Entry
  link : Entry
  other : String → Entry

abbrev pub Tree : Type 0
Tree = Relpath → Entry

unfoldable pub put : Relpath → Entry → Tree → Tree
unfolding same
put place entry tree asked = if same place asked then entry else tree asked

abbrev pub Sha256 : Type 0
Sha256 = Bytes → String

-- `unsupported:${stat.mode}`
abbrev unsupported_hash : String → String
unsupported_hash mode = String.◌∷◌ "u" ("nsupported:" +++ mode)

-- `fileHash`, none where it throws: a link is not followed.
unfoldable pub entry_hash : Sha256 → Entry → Option String
entry_hash sha missing = some "missing"
entry_hash sha (file bytes) = some (sha bytes)
entry_hash sha link = none
entry_hash sha (other mode) = some (unsupported_hash mode)

-- `hash === expected`, of a hash that is read and one that may not be given.
abbrev pub hash_is : Option String → Option String → Bool
hash_is (some read) (some expected) = str_eq read expected
hash_is _ _ = false

abbrev pub is_link : Entry → Bool
is_link link = true
is_link _ = false

abbrev pub is_missing : Entry → Bool
is_missing missing = true
is_missing _ = false

abbrev symlink_free : Tree → Bool → Relpath → Bool
symlink_free tree allow_missing_leaf place =
    not (any (λ directory. is_link (tree directory)) (parents_from [] place))
    && not (is_link (tree place))
    && (allow_missing_leaf || not (is_missing (tree place)))

abbrev at_place : Tree → Bool → Option Relpath → Bool
at_place tree allow_missing_leaf none = false
at_place tree allow_missing_leaf (some place) = symlink_free tree allow_missing_leaf place

-- Whether `assertNoSymlink` does not throw.
unfoldable pub no_symlink : Tree → Relpath → Bool → Bool
unfolding contained parents_from any
no_symlink tree relpath allow_missing_leaf = at_place tree allow_missing_leaf (contained relpath)

-- When the file system throws while a file is written: before the rename, or after it.
pub data WriteFault : Type 0 where
  no_fault before_rename after_rename : WriteFault

-- The tree that a step leaves, and whether it did not throw.
pub record Written : Type 0 where
  pub tree : Tree
  pub ok : Bool

abbrev pub written : Tree → Bool → Written
written tree ok = record { tree = tree; ok = ok }

abbrev after_write : Sha256 → WriteFault → Bytes → Option String → Tree → Written
after_write sha no_fault bytes expected tree = written tree (hash_is (some (sha bytes)) expected)
after_write sha _ bytes expected tree = written tree false

abbrev write_bytes : Sha256 → WriteFault → Entry → Relpath → Option String → Bool → Tree → Written
write_bytes sha before_rename source place expected safe tree = written tree false
write_bytes sha fault (file bytes) place expected safe tree =
    if safe
    then after_write sha fault bytes expected (put place (file bytes) tree)
    else written tree false
write_bytes sha fault _ place expected safe tree = written tree false

-- `atomicWriteFrom`; `safe` is the answer of the containment check beside the rename.
unfoldable pub atomic_write :
    Sha256 → WriteFault → Entry → Relpath → Option String → Bool → Tree → Written
unfolding put
atomic_write sha fault source place expected safe tree =
    write_bytes sha fault source place expected safe tree

pub put-same : (place : Relpath) (entry : Entry) (tree : Tree) → put place entry tree place ≡ entry
unfolding put
put-same place entry tree = rw (same_refl place) refl

-- What a step leaves in a place that it does not write.
pub atomic_write-other :
    (sha : Sha256) (fault : WriteFault) (source : Entry) (place : Relpath)
    (expected : Option String) (safe : Bool) (tree : Tree) (asked : Relpath)
    → same place asked ≡ false
    → (atomic_write sha fault source place expected safe tree).tree asked ≡ tree asked
unfolding atomic_write put
atomic_write-other sha no_fault missing place expected safe tree asked h = refl
atomic_write-other sha no_fault (file bytes) place expected safe tree asked h = ground (arith, h)
atomic_write-other sha no_fault link place expected safe tree asked h = refl
atomic_write-other sha no_fault (other mode) place expected safe tree asked h = refl
atomic_write-other sha before_rename source place expected safe tree asked h = refl
atomic_write-other sha after_rename missing place expected safe tree asked h = refl
atomic_write-other sha after_rename (file bytes) place expected safe tree asked h =
    ground (arith, h)
atomic_write-other sha after_rename link place expected safe tree asked h = refl
atomic_write-other sha after_rename (other mode) place expected safe tree asked h = refl

-- A write that did not throw has put its source in place.
pub atomic_write-there :
    (sha : Sha256) (fault : WriteFault) (source : Entry) (place : Relpath)
    (expected : Option String) (safe : Bool) (tree : Tree)
    → (atomic_write sha fault source place expected safe tree).ok ≡ true
    → (atomic_write sha fault source place expected safe tree).tree place ≡ source
unfolding atomic_write
atomic_write-there sha no_fault missing place expected safe tree h = absurd (ground (arith, h))
atomic_write-there sha no_fault (file bytes) place expected true tree h =
    put-same place (file bytes) tree
atomic_write-there sha no_fault (file bytes) place expected false tree h =
    absurd (ground (arith, h))
atomic_write-there sha no_fault link place expected safe tree h = absurd (ground (arith, h))
atomic_write-there sha no_fault (other mode) place expected safe tree h = absurd (ground (arith, h))
atomic_write-there sha before_rename source place expected safe tree h = absurd (ground (arith, h))
atomic_write-there sha after_rename missing place expected safe tree h = absurd (ground (arith, h))
atomic_write-there sha after_rename (file bytes) place expected safe tree h =
    absurd (ground (arith, h))
atomic_write-there sha after_rename link place expected safe tree h = absurd (ground (arith, h))
atomic_write-there sha after_rename (other mode) place expected safe tree h =
    absurd (ground (arith, h))

abbrev first_letter : String → List ℕ
first_letter text = take 1 (codes text)

not_missing : (mode : String) → unsupported_hash mode ≢ "missing"
unfolding take
not_missing mode e = absurd (ground (arith, ap first_letter e))

pub says_missing→missing :
    (sha : Sha256) (e : Entry)
    → ((b : Bytes) → sha b ≢ "missing")
    → hash_is (entry_hash sha e) (some "missing") ≡ true
    → e ≡ missing
unfolding entry_hash
says_missing→missing sha missing h k = refl
says_missing→missing sha (file bytes) h k =
    absurd (h bytes (ground (arith, k, eq_iff (sha bytes) "missing")))
says_missing→missing sha link h k = absurd (ground (arith, k))
says_missing→missing sha (other mode) h k =
    absurd (not_missing mode (ground (arith, k, eq_iff (unsupported_hash mode) "missing")))
