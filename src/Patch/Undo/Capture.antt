-- ===== src/Patch/Undo/Capture.antt =====
-- What the check and the copies of an undo secure before the first change is taken back.
use yuhi.Prelude.{
  ℕ, suc, String, true, false, ◌||◌, Option, none, some, List, [], ◌∷◌, All, ◌≡◌, ◌≢◌, refl, sym,
  ap, subst, ◌∙◌, arith, inl, inr, Bool-cases,
}
use yuhi.Text.{same, eq_of_same}
use yuhi.Patch.Types.{Relpath, PatchChange, is_renamed, is_deleted}
use yuhi.Patch.Paths.{contained}
use yuhi.Patch.Tree.{
  Bytes, Tree, missing, Sha256, WriteFault, hash_is, no_symlink, atomic_write-other,
  atomic_write-there, says_missing→missing,
}
use yuhi.Patch.Apply.{origin_relpath, hash_at}
use yuhi.Patch.Apply.Restore.{origin_of_added}
use yuhi.Patch.Undo.{
  check_place, still_in_place, all_still_in_place, capture, capture_there, capture_all,
}
use yuhi.Patch.Undo.Redo.{Captures}

capture_there-copies :
    (sha : Sha256) (fault : WriteFault) (change : PatchChange) (source captured : Tree)
    (place : Relpath)
    → (capture_there sha fault change source captured (some place)).ok ≡ true
    → (capture_there sha fault change source captured (some place)).tree place ≡ source place
capture_there-copies sha fault change source captured place ok =
    atomic_write-there sha fault (source place) place change.after_hash
      (no_symlink source change.relpath false) captured ok

capture_there-keeps :
    (sha : Sha256) (fault : WriteFault) (change : PatchChange) (source captured : Tree)
    (at : Option Relpath) (asked : Relpath)
    → (capture_there sha fault change source captured at).ok ≡ true
    → captured asked ≡ source asked
    → (capture_there sha fault change source captured at).tree asked ≡ source asked
capture_there-keeps sha fault change source captured none asked ok e = e
capture_there-keeps sha fault change source captured (some place) asked ok e =
    elim (Bool-cases (same place asked)) [
      | inl here ↦
          subst
            (λ p. (capture_there sha fault change source captured (some place)).tree p ≡ source p)
            (eq_of_same place asked here)
            (capture_there-copies sha fault change source captured place ok)
      | inr there ↦
          atomic_write-other sha fault (source place) place change.after_hash
            (no_symlink source change.relpath false) captured asked there
          ∙ e
    ]

capture-keeps :
    (sha : Sha256) (fault : WriteFault) (change : PatchChange) (source captured : Tree)
    (asked : Relpath)
    → (capture sha fault change source captured).ok ≡ true
    → captured asked ≡ source asked
    → (capture sha fault change source captured).tree asked ≡ source asked
unfolding capture
capture-keeps sha fault change source captured asked ok e = ground (
  arith,
  ok,
  capture_there-keeps sha fault change source captured (contained change.relpath) asked,
)

capture-copies :
    (sha : Sha256) (fault : WriteFault) (change : PatchChange) (source captured : Tree)
    (place : Relpath)
    → (capture sha fault change source captured).ok ≡ true
    → is_deleted change.kind ≡ false
    → contained change.relpath ≡ some place
    → (capture sha fault change source captured).tree place ≡ source place
unfolding capture
capture-copies sha fault change source captured place ok there e =
    ground (arith, ok, there, e, capture_there-copies sha fault change source captured place)

capture_all-keeps :
    (sha : Sha256) (fault : ℕ → WriteFault) (n : ℕ) (changes : List PatchChange)
    (source captured : Tree) (asked : Relpath)
    → (capture_all sha fault n changes source captured).ok ≡ true
    → captured asked ≡ source asked
    → (capture_all sha fault n changes source captured).tree asked ≡ source asked
unfolding capture_all
capture_all-keeps sha fault n [] source captured asked ok e = e
capture_all-keeps sha fault n (change ∷ changes) source captured asked ok e =
    let w = capture sha (fault n) change source captured in
    ground (
      arith,
      ok,
      capture_all-keeps sha fault (suc n) changes source w.tree asked,
      capture-keeps sha (fault n) change source captured asked,
    )

-- The places that a change has cleared are empty.
abbrev pub IsGone : Tree → PatchChange → Type 0
IsGone source change =
    (place : Relpath)
    → contained (origin_relpath change) ≡ some place
    → (is_deleted change.kind || is_renamed change.kind) ≡ true
    → source place ≡ missing

pub capture_all-Captures :
    (sha : Sha256) (fault : ℕ → WriteFault) (n : ℕ) (changes : List PatchChange)
    (source captured : Tree)
    → All (IsGone source) changes
    → (capture_all sha fault n changes source captured).ok ≡ true
    → All (Captures source (capture_all sha fault n changes source captured).tree) changes
unfolding capture_all
capture_all-Captures sha fault n [] source captured gone ok = tt
capture_all-Captures sha fault n (change ∷ changes) source captured (gone, rest_gone) ok =
    let w = capture sha (fault n) change source captured in
    let here : w.ok ≡ true = ground (arith, ok) in
    let later : (capture_all sha fault (suc n) changes source w.tree).ok ≡ true =
      ground (arith, ok) in
    let rest = capture_all sha fault (suc n) changes source w.tree in
    let e : capture_all sha fault n (change ∷ changes) source captured ≡ rest = rw (here) refl in
    subst (λ b. All (Captures source b.tree) (change ∷ changes)) (sym e)
      (
        record {
          gone = gone;
          copied = λ place at old.
              capture_all-keeps sha fault (suc n) changes source w.tree place later
                (capture-copies sha (fault n) change source captured place here old at);
        },
        capture_all-Captures sha fault (suc n) changes source w.tree rest_gone later,
      )

check_place→missing :
    (change : PatchChange) (here origin : Option String)
    → check_place change here origin ≡ some true
    → (is_deleted change.kind || is_renamed change.kind) ≡ true
    → (is_renamed change.kind ≡ false → origin ≡ here)
    → hash_is origin (some "missing") ≡ true
check_place→missing change none origin ok cleared e = absurd (ground (arith, ok))
check_place→missing change (some here) none ok cleared e =
    elim (Bool-cases (is_renamed change.kind)) [
      | inl move ↦ absurd (ground (arith, ok, move))
      | inr stay ↦ absurd (ground (arith, e stay))
    ]
check_place→missing change (some here) (some origin) ok cleared e =
    elim (Bool-cases (is_renamed change.kind)) [
      | inl move ↦ ground (arith, ok, move)
      | inr stay ↦
          subst (λ o. hash_is o (some "missing") ≡ true) (sym (e stay))
            (ground (arith, ok, stay, cleared))
    ]

checked→missing :
    (sha : Sha256) (change : PatchChange) (source : Tree)
    → still_in_place sha source change ≡ some true
    → (is_deleted change.kind || is_renamed change.kind) ≡ true
    → hash_is (hash_at sha source (origin_relpath change)) (some "missing") ≡ true
unfolding still_in_place
checked→missing sha change source ok cleared =
    check_place→missing change (hash_at sha source change.relpath)
      (hash_at sha source (origin_relpath change)) ok cleared
      (λ stay. ap (hash_at sha source) (origin_of_added change stay))

still_in_place-IsGone :
    (sha : Sha256) (change : PatchChange) (source : Tree)
    → ((b : Bytes) → sha b ≢ "missing")
    → still_in_place sha source change ≡ some true
    → IsGone source change
unfolding hash_at
still_in_place-IsGone sha change source h ok place at cleared =
    says_missing→missing sha (source place) h
      (ground (arith, at, checked→missing sha change source ok cleared))

pub all_still_in_place-IsGone :
    (sha : Sha256) (changes : List PatchChange) (source : Tree)
    → ((b : Bytes) → sha b ≢ "missing")
    → all_still_in_place sha source changes ≡ some true
    → All (IsGone source) changes
unfolding all_still_in_place
all_still_in_place-IsGone sha [] source h ok = tt
all_still_in_place-IsGone sha (change ∷ changes) source h ok = (
  still_in_place-IsGone sha change source h (ground (arith, ok)),
  all_still_in_place-IsGone sha changes source h (ground (arith, ok)),
)
