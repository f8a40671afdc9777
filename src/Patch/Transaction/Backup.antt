-- ===== src/Patch/Transaction/Backup.antt =====
-- What the preflight and the backup of packages/core/src/patch/apply.ts secure before the first change is made.
use yuhi.Prelude.{
  ℕ, suc, Bool, true, false, ◌&&◌, ◌||◌, Option, none, some, List, [], ◌∷◌, all, All, ◌≡◌, ◌≢◌,
  refl, sym, ap, subst, ◌∙◌, arith, inl, inr, Bool-cases,
}
use yuhi.Text.{same, eq_of_same}
use yuhi.Patch.Types.{Relpath, PatchChange, is_added, is_renamed}
use yuhi.Patch.Paths.{contained}
use yuhi.Patch.Tree.{
  Bytes, Tree, missing, Sha256, WriteFault, no_symlink, atomic_write-other, atomic_write-there,
  says_missing→missing,
}
use yuhi.Patch.Apply.{
  Review, origin_relpath, hash_at, change_allowed, source_agrees, prepared_agrees, policy_agrees,
  validate_change, backup_change, backup_there,
}
use yuhi.Patch.Apply.Restore.{Remembers, origin_of_added}
use yuhi.Patch.Transaction.{backup_all}

backup_there-copies :
    (sha : Sha256) (fault : WriteFault) (change : PatchChange) (source backup : Tree)
    (place : Relpath)
    → (backup_there sha fault change source backup (some place)).ok ≡ true
    → (backup_there sha fault change source backup (some place)).tree place ≡ source place
backup_there-copies sha fault change source backup place ok =
    atomic_write-there sha fault (source place) place change.before_hash
      (no_symlink source (origin_relpath change) false) backup (ground (arith, ok))

backup_there-keeps :
    (sha : Sha256) (fault : WriteFault) (change : PatchChange) (source backup : Tree)
    (origin : Option Relpath) (asked : Relpath)
    → (backup_there sha fault change source backup origin).ok ≡ true
    → backup asked ≡ source asked
    → (backup_there sha fault change source backup origin).tree asked ≡ source asked
backup_there-keeps sha fault change source backup none asked ok e = e
backup_there-keeps sha fault change source backup (some place) asked ok e =
    elim (Bool-cases (same place asked)) [
      | inl here ↦
          subst (λ p. (backup_there sha fault change source backup (some place)).tree p ≡ source p)
            (eq_of_same place asked here)
            (backup_there-copies sha fault change source backup place ok)
      | inr there ↦
          atomic_write-other sha fault (source place) place change.before_hash
            (no_symlink source (origin_relpath change) false) backup asked there
          ∙ e
    ]

backup_change-keeps :
    (sha : Sha256) (fault : WriteFault) (change : PatchChange) (source backup : Tree)
    (asked : Relpath)
    → (backup_change sha fault change source backup).ok ≡ true
    → backup asked ≡ source asked
    → (backup_change sha fault change source backup).tree asked ≡ source asked
unfolding backup_change
backup_change-keeps sha fault change source backup asked ok e = ground (
  arith,
  ok,
  backup_there-keeps sha fault change source backup (contained (origin_relpath change)) asked,
)

backup_change-copies :
    (sha : Sha256) (fault : WriteFault) (change : PatchChange) (source backup : Tree)
    (place : Relpath)
    → (backup_change sha fault change source backup).ok ≡ true
    → is_added change.kind ≡ false
    → contained (origin_relpath change) ≡ some place
    → (backup_change sha fault change source backup).tree place ≡ source place
unfolding backup_change
backup_change-copies sha fault change source backup place ok old e =
    ground (arith, ok, old, e, backup_there-copies sha fault change source backup place)

backup_all-keeps :
    (sha : Sha256) (fault : ℕ → WriteFault) (n : ℕ) (changes : List PatchChange)
    (source backup : Tree) (asked : Relpath)
    → (backup_all sha fault n changes source backup).ok ≡ true
    → backup asked ≡ source asked
    → (backup_all sha fault n changes source backup).tree asked ≡ source asked
unfolding backup_all
backup_all-keeps sha fault n [] source backup asked ok e = e
backup_all-keeps sha fault n (change ∷ changes) source backup asked ok e =
    let w = backup_change sha (fault n) change source backup in
    ground (
      arith,
      ok,
      backup_all-keeps sha fault (suc n) changes source w.tree asked,
      backup_change-keeps sha (fault n) change source backup asked,
    )

-- The places that are to be new are free.
abbrev pub IsFree : Tree → PatchChange → Type 0
IsFree source change =
    (place : Relpath)
    → contained change.relpath ≡ some place
    → (is_added change.kind || is_renamed change.kind) ≡ true
    → source place ≡ missing

pub backup_all-Remembers :
    (sha : Sha256) (fault : ℕ → WriteFault) (n : ℕ) (changes : List PatchChange)
    (source backup : Tree)
    → All (IsFree source) changes
    → (backup_all sha fault n changes source backup).ok ≡ true
    → All (Remembers source (backup_all sha fault n changes source backup).tree) changes
unfolding backup_all
backup_all-Remembers sha fault n [] source backup free ok = tt
backup_all-Remembers sha fault n (change ∷ changes) source backup (free, frees) ok =
    let w = backup_change sha (fault n) change source backup in
    let here : w.ok ≡ true = ground (arith, ok) in
    let later : (backup_all sha fault (suc n) changes source w.tree).ok ≡ true =
      ground (arith, ok) in
    let rest = backup_all sha fault (suc n) changes source w.tree in
    let e : backup_all sha fault n (change ∷ changes) source backup ≡ rest = rw (here) refl in
    subst (λ b. All (Remembers source b.tree) (change ∷ changes)) (sym e)
      (
        record {
          new_place = free;
          copied = λ place at old.
              backup_all-keeps sha fault (suc n) changes source w.tree place later
                (backup_change-copies sha (fault n) change source backup place here old at);
        },
        backup_all-Remembers sha fault (suc n) changes source w.tree frees later,
      )

source_agrees-IsFree :
    (sha : Sha256) (change : PatchChange) (source : Tree)
    → ((b : Bytes) → sha b ≢ "missing")
    → source_agrees sha change source ≡ true
    → IsFree source change
unfolding source_agrees hash_at
source_agrees-IsFree sha change source h ok place at new =
    says_missing→missing sha (source place) h (elim (Bool-cases (is_renamed change.kind)) [
      | inl move ↦ ground (arith, ok, at, move)
      | inr stay ↦ ground (arith, ok, at, stay, new, ap contained (origin_of_added change stay))
    ])

second_of_four : (a b c d : Bool) → (a && b && c && d) ≡ true → b ≡ true
second_of_four a b c d h = ground arith

validated→source_agrees :
    (sha : Sha256) (review : Review) (change : PatchChange) (source prepared : Tree)
    → validate_change sha review change source prepared ≡ true
    → source_agrees sha change source ≡ true
unfolding validate_change
validated→source_agrees sha review change source prepared ok =
    second_of_four (change_allowed change source) (source_agrees sha change source)
      (prepared_agrees sha change prepared) (policy_agrees sha review change source prepared) ok

pub preflight-IsFree :
    (sha : Sha256) (review : Review) (changes : List PatchChange) (source prepared : Tree)
    → ((b : Bytes) → sha b ≢ "missing")
    → all (λ change. validate_change sha review change source prepared) changes ≡ true
    → All (IsFree source) changes
unfolding all
preflight-IsFree sha review [] source prepared h ok = tt
preflight-IsFree sha review (change ∷ changes) source prepared h ok = (
  source_agrees-IsFree sha change source h
      (validated→source_agrees sha review change source prepared (ground (arith, ok))),
  preflight-IsFree sha review changes source prepared h (ground (arith, ok)),
)
