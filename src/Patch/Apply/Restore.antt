-- ===== src/Patch/Apply/Restore.antt =====
-- Which places a mutation and its restoring touch, and what restoring puts there.
use yuhi.Prelude.{
  String, Bool, true, false, not, ◌&&◌, ◌||◌, Option, none, some, ◌≡◌, refl, sym, ap, subst, ◌∙◌,
  arith, inl, inr, Bool-cases,
}
use yuhi.Text.{same, eq_of_same}
use yuhi.Patch.Types.{
  Relpath, PatchChange, PatchChangeKind, added, modified, deleted, renamed, mode_changed, binary,
  is_added, is_renamed,
}
use yuhi.Patch.Paths.{contained}
use yuhi.Patch.Tree.{missing, Tree, put, Sha256, no_symlink, atomic_write-other, atomic_write-there}
use yuhi.Patch.Apply.{
  origin_relpath, MutationFault, mutate, mutate_there, unlink, RestoreFault, restore, restore_there,
  write_back, clear_and_write,
}

abbrev pub stands_at : Option Relpath → Relpath → Bool
stands_at none asked = false
stands_at (some place) asked = same place asked

-- Whether a place is that of the change or of its origin.
unfoldable pub touches : PatchChange → Relpath → Bool
unfolding contained origin_relpath same
touches change asked =
    stands_at (contained change.relpath) asked
    || stands_at (contained (origin_relpath change)) asked

pub clear_and_write-other :
    (sha : Sha256) (fault : RestoreFault) (clears writes : Bool) (from : Tree) (guard : Relpath)
    (expected : Option String) (cleared place : Relpath) (tree : Tree) (asked : Relpath)
    → same cleared asked ≡ false
    → same place asked ≡ false
    → (clear_and_write sha fault clears writes from guard expected cleared place tree).tree asked
      ≡ tree asked
unfolding put
clear_and_write-other sha fault clears writes from guard expected cleared place tree asked h k =
    ground (
      arith,
      h,
      k,
      atomic_write-other sha fault.write (from place) place expected
          (no_symlink (put cleared missing tree) guard true) (put cleared missing tree) asked k,
      atomic_write-other sha fault.write (from place) place expected (no_symlink tree guard true)
          tree asked k,
    )

restore_there-other :
    (sha : Sha256) (fault : RestoreFault) (change : PatchChange) (backup source : Tree)
    (origin place : Option Relpath) (asked : Relpath)
    → stands_at place asked ≡ false
    → stands_at origin asked ≡ false
    → (restore_there sha fault change backup source origin place).tree asked ≡ source asked
restore_there-other sha fault change backup source none place asked h k = refl
restore_there-other sha fault change backup source (some origin) none asked h k = refl
restore_there-other sha fault change backup source (some origin) (some place) asked h k =
    clear_and_write-other sha fault (is_added change.kind || is_renamed change.kind)
      (not (is_added change.kind)) backup (origin_relpath change) change.before_hash place origin
      source asked h k

pub restore-other :
    (sha : Sha256) (fault : RestoreFault) (change : PatchChange) (backup source : Tree)
    (asked : Relpath)
    → touches change asked ≡ false
    → (restore sha fault change backup source).tree asked ≡ source asked
unfolding restore touches
restore-other sha fault change backup source asked h = ground (
  arith,
  restore_there-other sha fault change backup source (contained (origin_relpath change))
      (contained change.relpath) asked,
)

mutate_there-other :
    (sha : Sha256) (fault : MutationFault) (change : PatchChange) (prepared source : Tree)
    (origin place : Option Relpath) (asked : Relpath)
    → stands_at place asked ≡ false
    → stands_at origin asked ≡ false
    → (mutate_there sha fault change prepared source origin place).tree asked ≡ source asked
unfolding put unlink
mutate_there-other sha fault change prepared source none place asked h k = refl
mutate_there-other sha fault change prepared source (some origin) none asked h k = refl
mutate_there-other sha fault change prepared source (some origin) (some place) asked h k = ground (
  arith,
  h,
  k,
  atomic_write-other sha fault.write (prepared place) place change.after_hash
      (no_symlink source change.relpath true && no_symlink prepared change.relpath false) source
      asked h,
)

pub mutate-other :
    (sha : Sha256) (fault : MutationFault) (change : PatchChange) (prepared source : Tree)
    (asked : Relpath)
    → touches change asked ≡ false
    → (mutate sha fault change prepared source).tree asked ≡ source asked
unfolding mutate touches
mutate-other sha fault change prepared source asked h = ground (
  arith,
  mutate_there-other sha fault change prepared source (contained (origin_relpath change))
      (contained change.relpath) asked,
)

-- What the backup must hold of a change, for the tree that was there before it.
pub record Remembers (original backup : Tree) (change : PatchChange) : Type 0 where
  pub new_place :
      (place : Relpath)
      → contained change.relpath ≡ some place
      → (is_added change.kind || is_renamed change.kind) ≡ true
      → original place ≡ missing
  pub copied :
      (place : Relpath)
      → contained (origin_relpath change) ≡ some place
      → is_added change.kind ≡ false
      → backup place ≡ original place

pub origin_of_added :
    (change : PatchChange) → is_renamed change.kind ≡ false → origin_relpath change ≡ change.relpath
unfolding origin_relpath
origin_of_added change h = ground (arith, h)

added_stays : (kind : PatchChangeKind) → is_added kind ≡ true → is_renamed kind ≡ false
added_stays added h = refl
added_stays modified h = refl
added_stays deleted h = refl
added_stays renamed h = absurd (ground (arith, h))
added_stays mode_changed h = refl
added_stays binary h = refl

write_back-sets :
    (sha : Sha256) (fault : RestoreFault) (original from : Tree) (guard : Relpath)
    (expected : Option String) (place : Relpath) (tree : Tree) (asked : Relpath)
    → from place ≡ original place
    → (same place asked ≡ false → tree asked ≡ original asked)
    → (write_back sha fault from guard expected place tree).ok ≡ true
    → (write_back sha fault from guard expected place tree).tree asked ≡ original asked
write_back-sets sha fault original from guard expected place tree asked e k h =
    elim (Bool-cases (same place asked)) [
      | inl here ↦
          subst (λ p. (write_back sha fault from guard expected place tree).tree p ≡ original p)
            (eq_of_same place asked here)
            (atomic_write-there sha fault.write (from place) place expected
                (no_symlink tree guard true) tree h
              ∙ e)
      | inr there ↦
          atomic_write-other sha fault.write (from place) place expected
            (no_symlink tree guard true) tree asked there
          ∙ k there
    ]

cleared_is :
    (original : Tree) (cleared asked : Relpath)
    → original cleared ≡ missing
    → same cleared asked ≡ true
    → original asked ≡ missing
cleared_is original cleared asked h here =
    subst (λ p. original p ≡ missing) (eq_of_same cleared asked here) h

-- Both places then hold what they held.
pub clear_and_write-sets :
    (sha : Sha256) (fault : RestoreFault) (clears writes : Bool) (original from : Tree)
    (guard : Relpath) (expected : Option String) (cleared place : Relpath) (tree : Tree)
    (asked : Relpath)
    → (clears ≡ true → original cleared ≡ missing)
    → (writes ≡ true → from place ≡ original place)
    → ((clears && writes) ≡ false → place ≡ cleared)
    → (clears || writes) ≡ true
    → (clear_and_write sha fault clears writes from guard expected cleared place tree).ok ≡ true
    → (same cleared asked || same place asked) ≡ true
    → (clear_and_write sha fault clears writes from guard expected cleared place tree).tree asked
      ≡ original asked
unfolding put
clear_and_write-sets sha fault true true original from guard expected cleared place tree asked h k e
      some_of ok t =
    let wrote : (write_back sha fault from guard expected place (put cleared missing tree)).ok
        ≡ true =
      ground (arith, ok) in
    let elsewhere : same place asked ≡ false → put cleared missing tree asked ≡ original asked =
      λ n.
        let here : same cleared asked ≡ true = ground (arith, t, n) in
        let gone = cleared_is original cleared asked (h refl) here in ground (arith, here, gone) in
    let result =
      write_back-sets sha fault original from guard expected place (put cleared missing tree) asked
        (k refl) elsewhere wrote in
    ground (arith, ok, result)
clear_and_write-sets sha fault true false original from guard expected cleared place tree asked h k
      e some_of ok t =
    let here : same cleared asked ≡ true =
      ground (arith, t, subst (λ p. same p asked ≡ same cleared asked) (sym (e refl)) refl) in
    let gone = cleared_is original cleared asked (h refl) here in ground (arith, ok, here, gone)
clear_and_write-sets sha fault false true original from guard expected cleared place tree asked h k
      e some_of ok t =
    let here : same place asked ≡ true =
      ground (arith, t, subst (λ p. same p asked ≡ same cleared asked) (sym (e refl)) refl) in
    write_back-sets sha fault original from guard expected place tree asked (k refl)
      (λ n. absurd (ground (arith, here, n))) ok
clear_and_write-sets sha fault false false original from guard expected cleared place tree asked h k
      e some_of ok t =
    absurd (ground (arith, some_of))

stays :
    (change : PatchChange)
    → ((is_added change.kind || is_renamed change.kind) && not (is_added change.kind)) ≡ false
    → is_renamed change.kind ≡ false
stays change h = ground (arith, h, added_stays change.kind)

sets_at :
    (sha : Sha256) (fault : RestoreFault) (change : PatchChange) (original backup source : Tree)
    (asked : Relpath) (o p : Option Relpath)
    → ((place : Relpath)
        → p ≡ some place
        → (is_added change.kind || is_renamed change.kind) ≡ true
        → original place ≡ missing)
    → ((place : Relpath)
        → o ≡ some place
        → is_added change.kind ≡ false
        → backup place ≡ original place)
    → (is_renamed change.kind ≡ false → o ≡ p)
    → (restore_there sha fault change backup source o p).ok ≡ true
    → (stands_at p asked || stands_at o asked) ≡ true
    → (restore_there sha fault change backup source o p).tree asked ≡ original asked
sets_at sha fault change original backup source asked none p h k e ok t =
    absurd (ground (arith, ok))
sets_at sha fault change original backup source asked (some o) none h k e ok t =
    absurd (ground (arith, ok))
sets_at sha fault change original backup source asked (some o) (some p) h k e ok t =
    clear_and_write-sets sha fault (is_added change.kind || is_renamed change.kind)
      (not (is_added change.kind)) original backup (origin_relpath change) change.before_hash p o
      source asked (h p refl) (λ old. k o refl (ground (arith, old)))
      (λ one. cc (e (stays change one))) (ground arith) ok t

-- A restoring that did not throw puts back what was there.
pub restore-sets :
    (sha : Sha256) (fault : RestoreFault) (change : PatchChange) (original backup source : Tree)
    (asked : Relpath)
    → Remembers original backup change
    → (restore sha fault change backup source).ok ≡ true
    → touches change asked ≡ true
    → (restore sha fault change backup source).tree asked ≡ original asked
unfolding restore touches
restore-sets sha fault change original backup source asked m ok t =
    let origin = contained (origin_relpath change) in
    let place = contained change.relpath in
    let went : (restore_there sha fault change backup source origin place).ok ≡ true =
      ground (arith, ok) in
    let there =
      sets_at sha fault change original backup source asked origin place m.new_place m.copied
        (λ stay. ap contained (origin_of_added change stay)) went t in
    ground (arith, ok, there)
