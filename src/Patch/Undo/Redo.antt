-- ===== src/Patch/Undo/Redo.antt =====
-- Putting back what a patch had in place, from the copies that an undo makes first.
use yuhi.Prelude.{ℕ, true, false, not, ◌&&◌, ◌||◌, Option, none, some, ◌≡◌, refl, ap, arith}
use yuhi.Patch.Types.{
  Relpath, PatchChange, PatchChangeKind, added, modified, deleted, renamed, mode_changed, binary,
  is_renamed, is_deleted,
}
use yuhi.Patch.Paths.{contained}
use yuhi.Patch.Tree.{Tree, missing, Sha256}
use yuhi.Patch.Apply.{origin_relpath, RestoreFault}
use yuhi.Patch.Apply.Restore.{
  stands_at, touches, clear_and_write-other, clear_and_write-sets, origin_of_added,
}
use yuhi.Patch.Transaction.Rollback.{TakesBack}
use yuhi.Patch.Undo.{redo, redo_there}

-- What the copies must hold of a change, for the tree in which it is in place.
pub record Captures (current captured : Tree) (change : PatchChange) : Type 0 where
  pub gone :
      (place : Relpath)
      → contained (origin_relpath change) ≡ some place
      → (is_deleted change.kind || is_renamed change.kind) ≡ true
      → current place ≡ missing
  pub copied :
      (place : Relpath)
      → contained change.relpath ≡ some place
      → is_deleted change.kind ≡ false
      → captured place ≡ current place

redo_there-other :
    (sha : Sha256) (fault : RestoreFault) (change : PatchChange) (captured source : Tree)
    (origin place : Option Relpath) (asked : Relpath)
    → stands_at place asked ≡ false
    → stands_at origin asked ≡ false
    → (redo_there sha fault change captured source origin place).tree asked ≡ source asked
redo_there-other sha fault change captured source none place asked h k = refl
redo_there-other sha fault change captured source (some origin) none asked h k = refl
redo_there-other sha fault change captured source (some origin) (some place) asked h k =
    clear_and_write-other sha fault (is_deleted change.kind || is_renamed change.kind)
      (not (is_deleted change.kind)) captured change.relpath change.after_hash origin place source
      asked k h

redo-other :
    (sha : Sha256) (fault : RestoreFault) (change : PatchChange) (captured source : Tree)
    (asked : Relpath)
    → touches change asked ≡ false
    → (redo sha fault change captured source).tree asked ≡ source asked
unfolding redo touches
redo-other sha fault change captured source asked h = ground (
  arith,
  redo_there-other sha fault change captured source (contained (origin_relpath change))
      (contained change.relpath) asked,
)

deleted_stays : (kind : PatchChangeKind) → is_deleted kind ≡ true → is_renamed kind ≡ false
deleted_stays added h = refl
deleted_stays modified h = refl
deleted_stays deleted h = refl
deleted_stays renamed h = absurd (ground (arith, h))
deleted_stays mode_changed h = refl
deleted_stays binary h = refl

stays :
    (change : PatchChange)
    → ((is_deleted change.kind || is_renamed change.kind) && not (is_deleted change.kind)) ≡ false
    → is_renamed change.kind ≡ false
stays change h = ground (arith, h, deleted_stays change.kind)

redo_there-sets :
    (sha : Sha256) (fault : RestoreFault) (change : PatchChange) (current captured source : Tree)
    (asked : Relpath) (o p : Option Relpath)
    → ((place : Relpath)
        → o ≡ some place
        → (is_deleted change.kind || is_renamed change.kind) ≡ true
        → current place ≡ missing)
    → ((place : Relpath)
        → p ≡ some place
        → is_deleted change.kind ≡ false
        → captured place ≡ current place)
    → (is_renamed change.kind ≡ false → o ≡ p)
    → (redo_there sha fault change captured source o p).ok ≡ true
    → (stands_at p asked || stands_at o asked) ≡ true
    → (redo_there sha fault change captured source o p).tree asked ≡ current asked
redo_there-sets sha fault change current captured source asked none p h k e ok t =
    absurd (ground (arith, ok))
redo_there-sets sha fault change current captured source asked (some o) none h k e ok t =
    absurd (ground (arith, ok))
redo_there-sets sha fault change current captured source asked (some o) (some p) h k e ok t =
    clear_and_write-sets sha fault (is_deleted change.kind || is_renamed change.kind)
      (not (is_deleted change.kind)) current captured change.relpath change.after_hash o p source
      asked (h o refl) (λ there. k p refl (ground (arith, there)))
      (λ one. cc (e (stays change one))) (ground arith) ok (ground (arith, t))

redo-sets :
    (sha : Sha256) (fault : RestoreFault) (change : PatchChange) (current captured source : Tree)
    (asked : Relpath)
    → Captures current captured change
    → (redo sha fault change captured source).ok ≡ true
    → touches change asked ≡ true
    → (redo sha fault change captured source).tree asked ≡ current asked
unfolding redo touches
redo-sets sha fault change current captured source asked m ok t =
    let origin = contained (origin_relpath change) in
    let place = contained change.relpath in
    let went : (redo_there sha fault change captured source origin place).ok ≡ true =
      ground (arith, ok) in
    let there =
      redo_there-sets sha fault change current captured source asked origin place m.gone m.copied
        (λ stay. ap contained (origin_of_added change stay)) went t in
    ground (arith, ok, there)

pub redo-TakesBack :
    (sha : Sha256) (fault : ℕ → RestoreFault) (current captured : Tree)
    → TakesBack
        (Captures current captured)
        current
        (λ n change tree. redo sha (fault n) change captured tree)
redo-TakesBack sha fault current captured = record {
  other = λ n change tree asked. redo-other sha (fault n) change captured tree asked;
  sets = λ n change tree asked. redo-sets sha (fault n) change current captured tree asked;
}
