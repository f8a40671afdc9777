-- ===== src/Patch/Transaction/Rollback.antt =====
-- A transaction that gave up, and took back all that it had made, leaves the source tree as it was.
use yuhi.Prelude.{
  ℕ, suc, ◌≤◌, String, Bool, true, false, not, ◌&&◌, ◌||◌, Option, none, some, List, [], ◌∷◌, ◌++◌,
  reverse, reverse-cons, any, length, length-append, is_some, All, ◌≡◌, ◌≢◌, refl, subst, ◌∙◌,
  arith, inl, inr, Bool-cases,
}
use yuhi.Prelude.Assoc.{lookup}
use yuhi.Patch.Types.{Relpath, PatchChange}
use yuhi.Patch.Tree.{Bytes, Tree, Sha256, Written}
use yuhi.Patch.Apply.{Review, validate_change, mutate, RestoreFault, restore}
use yuhi.Patch.Apply.Restore.{touches, restore-other, restore-sets, mutate-other, Remembers}
use yuhi.Patch.Records.{failed, PrivateRoot, patch_dir}
use yuhi.Patch.Transaction.Backup.{IsFree, backup_all-Remembers, preflight-IsFree}
use yuhi.Patch.Transaction.{
  Attempt, attempt, mutate_if_backed_up, backup_all, stopped, empty_tree, roll_back, all_verified,
  conclude, preflight, refused, relpaths, in_directory, apply_patch_atomically, Outcome,
  ApplyFaults, Progress, mutate_all, take_back, recover, with_current,
}

-- Away from the places of the changes, the tree is the original.
abbrev pub IsUnchangedBut : Tree → Tree → List PatchChange → Type 0
IsUnchangedBut original tree changes =
    (asked : Relpath) → any (λ c. touches c asked) changes ≡ false → tree asked ≡ original asked

-- A step that takes one change back: it touches the places of the change only, and puts there what they held.
pub record TakesBack (P : PatchChange → Type 0) (original : Tree)
    (step : ℕ → PatchChange → Tree → Written) : Type 0 where
  pub other :
      (n : ℕ) (change : PatchChange) (tree : Tree) (asked : Relpath)
      → touches change asked ≡ false
      → (step n change tree).tree asked ≡ tree asked
  pub sets :
      (n : ℕ) (change : PatchChange) (tree : Tree) (asked : Relpath)
      → P change
      → (step n change tree).ok ≡ true
      → touches change asked ≡ true
      → (step n change tree).tree asked ≡ original asked

module _ (P : PatchChange → Type 0) (original : Tree) (step : ℕ → PatchChange → Tree → Written)
    (t : TakesBack P original step) where
  pub take_back_one :
      (n : ℕ) (change : PatchChange) (rest : List PatchChange) (tree : Tree)
      → P change
      → (step n change tree).ok ≡ true
      → IsUnchangedBut original tree (change ∷ rest)
      → IsUnchangedBut original (step n change tree).tree rest
  unfolding any
  take_back_one n change rest tree m ok away asked h = elim (Bool-cases (touches change asked)) [
    | inl here ↦ t.sets n change tree asked m ok here
    | inr there ↦ t.other n change tree asked there ∙ away asked (ground (arith, h, there))
  ]

  taken_back_at_most :
      (n : ℕ) (changes : List PatchChange) (tree : Tree)
      → length (take_back step n changes tree).rolled_back ≤ length changes
  unfolding take_back
  taken_back_at_most n [] tree = omega arith
  taken_back_at_most n (change ∷ changes) tree =
      ground (arith, taken_back_at_most (suc n) changes (step n change tree).tree)

  -- Taking back all the changes gives the original.
  pub take_back-All :
      (n : ℕ) (changes : List PatchChange) (tree : Tree)
      → All P changes
      → IsUnchangedBut original tree changes
      → length (take_back step n changes tree).rolled_back ≡ length changes
      → (asked : Relpath) → (take_back step n changes tree).tree asked ≡ original asked
  unfolding take_back
  take_back-All n [] tree m away e asked = away asked (unfold any in refl)
  take_back-All n (change ∷ changes) tree (m, ms) away e asked =
      let w = step n change tree in
      let bound = taken_back_at_most (suc n) changes w.tree in
      let ok : w.ok ≡ true = ground (arith, e, bound) in
      take_back-All (suc n) changes w.tree ms (take_back_one n change changes tree m ok away)
        (ground (arith, e, ok)) asked

pub restore-TakesBack :
    (sha : Sha256) (fault : ℕ → RestoreFault) (original backup : Tree)
    → TakesBack
        (Remembers original backup)
        original
        (λ n change tree. restore sha (fault n) change backup tree)
restore-TakesBack sha fault original backup = record {
  other = λ n change tree asked. restore-other sha (fault n) change backup tree asked;
  sets = λ n change tree asked. restore-sets sha (fault n) change original backup tree asked;
}

pub any-append :
    (p : PatchChange → Bool) (xs ys : List PatchChange) → any p (xs ++ ys) ≡ (any p xs || any p ys)
unfolding any
any-append p [] ys = refl
any-append p (x ∷ xs) ys = ground (arith, any-append p xs ys)

any-reverse : (p : PatchChange → Bool) (xs : List PatchChange) → any p (reverse xs) ≡ any p xs
unfolding any
any-reverse p [] = refl
any-reverse p (x ∷ xs) =
    rw (reverse-cons x xs) (ground (arith, any-append p (reverse xs) (x ∷ []), any-reverse p xs))

pub IsUnchangedBut-reverse :
    (original tree : Tree) (changes : List PatchChange)
    → IsUnchangedBut original tree changes
    → IsUnchangedBut original tree (reverse changes)
IsUnchangedBut-reverse original tree changes away place h =
    away place (rw (any-reverse (λ c. touches c place) changes) at h)

module _ (P : PatchChange → Type 0) where
  pub All-append : (xs ys : List PatchChange) → All P xs → All P ys → All P (xs ++ ys)
  All-append [] ys h k = k
  All-append (x ∷ xs) ys (h, hs) k = (h, All-append xs ys hs k)

  pub All-reverse : (xs : List PatchChange) → All P xs → All P (reverse xs)
  All-reverse [] h = tt
  All-reverse (x ∷ xs) (h, hs) =
      rw (reverse-cons x xs) (All-append (reverse xs) (x ∷ []) (All-reverse xs hs) (h, tt))

-- The changes that have been begun.
abbrev pub begun : Progress → List PatchChange
begun p = with_current p.made p.in_progress

mutate_one :
    (sha : Sha256) (faults : ApplyFaults) (n : ℕ) (change : PatchChange) (made : List PatchChange)
    (original prepared source : Tree)
    → IsUnchangedBut original source made
    → IsUnchangedBut original
        (mutate sha (faults.mutation n) change prepared source).tree
        (made ++ change ∷ [])
unfolding any
mutate_one sha faults n change made original prepared source away asked h =
    let split = any-append (λ c. touches c asked) made (change ∷ []) in
    mutate-other sha (faults.mutation n) change prepared source asked (ground (arith, h, split))
    ∙ away asked (ground (arith, h, split))

-- What a transaction has touched is in the list that it takes back.
pub record Accounts (P : PatchChange → Type 0) (original : Tree) (p : Progress) : Type 0 where
  pub all_known : All P (begun p)
  pub away : IsUnchangedBut original p.tree (begun p)

mutate_all-Accounts :
    (P : PatchChange → Type 0) (sha : Sha256) (review : Review) (faults : ApplyFaults) (n : ℕ)
    (changes : List PatchChange) (original prepared source : Tree) (made : List PatchChange)
    → All P made
    → All P changes
    → IsUnchangedBut original source made
    → Accounts P original (mutate_all sha review faults n changes prepared source made)
unfolding mutate_all
mutate_all-Accounts P sha review faults n [] original prepared source made ms cs away = record {
  all_known = ms;
  away = away;
}
mutate_all-Accounts P sha review faults n (change ∷ changes) original prepared source made ms
      (c, cs) away =
    let w = mutate sha (faults.mutation n) change prepared source in
    let away' = mutate_one sha faults n change made original prepared source away in
    let ms' = All-append P made (change ∷ []) ms (c, tt) in
    let ih =
      mutate_all-Accounts P sha review faults (suc n) changes original prepared w.tree
        (made ++ change ∷ []) ms' cs away' in
    elim (Bool-cases
      (faults.validation n || not (validate_change sha review change source prepared))) [
        | inl stop ↦ rw (stop) (record { all_known = ms; away = away })
        | inr go ↦ elim (Bool-cases w.ok) [
          | inl ok ↦ rw (go, ok) ih
          | inr broken ↦ rw (go, broken) (record { all_known = ms'; away = away' })
        ]
      ]

pub attempt-Accounts :
    (sha : Sha256) (review : Review) (faults : ApplyFaults) (exists : Bool)
    (changes : List PatchChange) (source prepared : Tree)
    → All (IsFree source) changes
    → let a = attempt sha review faults exists changes source prepared in
      Accounts (Remembers source a.backup) source a.progress
unfolding attempt mutate_if_backed_up
attempt-Accounts sha review faults exists changes source prepared free =
    let b = backup_all sha faults.backup 0 changes source empty_tree in
    let untouched : IsUnchangedBut source source [] = λ asked h. refl in
    let nothing : (backup : Tree)
        → Accounts (Remembers source backup) source (stopped source [] none) =
      λ backup. record { all_known = tt; away = untouched } in
    elim (Bool-cases (exists || faults.make_directory)) [
      | inl fault ↦ rw (fault) (nothing empty_tree)
      | inr made ↦ elim (Bool-cases faults.make_backup) [
        | inl fault ↦ rw (made, fault) (nothing empty_tree)
        | inr ready ↦ elim (Bool-cases b.ok) [
          | inl ok ↦
              rw (made, ready, ok)
                (mutate_all-Accounts (Remembers source b.tree) sha review faults 0 changes source
                  prepared source [] tt
                  (backup_all-Remembers sha faults.backup 0 changes source empty_tree free ok)
                  untouched)
          | inr broken ↦ rw (made, ready, broken) (nothing b.tree)
        ]
      ]
    ]

pub length-reverse : (xs : List PatchChange) → length (reverse xs) ≡ length xs
length-reverse [] = refl
length-reverse (x ∷ xs) =
    rw (reverse-cons x xs) (omega (arith, length-append (reverse xs) (x ∷ []), length-reverse xs))

roll_back-source :
    (sha : Sha256) (faults : ApplyFaults) (directory patch_id : String) (changes : List PatchChange)
    (a : Attempt) (privately : PrivateRoot) (source : Tree)
    → Accounts (Remembers source a.backup) source a.progress
    → let out = roll_back sha faults directory patch_id changes a privately in
      out.result.recovery_required ≢ some true → (asked : Relpath) → out.source asked ≡ source asked
unfolding roll_back recover
roll_back-source sha faults directory patch_id changes a privately source known back asked =
    let recovery = begun a.progress in
    take_back-All (Remembers source a.backup) source
      (λ n change tree. restore sha (faults.restore n) change a.backup tree)
      (restore-TakesBack sha faults.restore source a.backup) 0 (reverse recovery) a.progress.tree
      (All-reverse (Remembers source a.backup) recovery known.all_known)
      (IsUnchangedBut-reverse source a.progress.tree recovery known.away)
      (ground (arith, back, length-reverse recovery)) asked

conclude-source :
    (sha : Sha256) (faults : ApplyFaults) (directory patch_id : String) (changes : List PatchChange)
    (a : Attempt) (privately : PrivateRoot) (source : Tree)
    → Accounts (Remembers source a.backup) source a.progress
    → let out = conclude sha faults directory patch_id changes a privately in
      out.result.status ≡ failed
      → out.result.recovery_required ≢ some true
      → (asked : Relpath) → out.source asked ≡ source asked
unfolding conclude
conclude-source sha faults directory patch_id changes a privately source known st back asked =
    elim (Bool-cases (all_verified sha faults changes a && not faults.save)) [
      | inl finished ↦ absurd (ground (arith, st, finished))
      | inr gave_up ↦ rw (gave_up) (
          roll_back-source sha faults directory patch_id changes a privately source known
            (rw (gave_up) at back) asked)
    ]

applied_in-source :
    (sha : Sha256) (review : Review) (faults : ApplyFaults) (patch_id : String)
    (changes : List PatchChange) (source prepared : Tree) (privately : PrivateRoot)
    (directory : Option String) (outcome : Outcome)
    → All (IsFree source) changes
    → in_directory sha review faults patch_id changes source prepared privately directory
      ≡ some outcome
    → outcome.result.status ≡ failed
    → outcome.result.recovery_required ≢ some true
    → (asked : Relpath) → outcome.source asked ≡ source asked
applied_in-source sha review faults patch_id changes source prepared privately none outcome free e
      st back asked =
    absurd (ground (arith, e))
applied_in-source sha review faults patch_id changes source prepared privately (some directory)
      outcome free e st back asked =
    let a =
      attempt sha review faults (is_some (lookup directory privately)) changes source prepared in
    let e' : conclude sha faults directory patch_id changes a privately ≡ outcome = cc e in
    subst
      (λ o.
        o.result.status ≡ failed
        → o.result.recovery_required ≢ some true
        → (p : Relpath) → o.source p ≡ source p)
      e'
      (conclude-source sha faults directory patch_id changes a privately source (
        attempt-Accounts sha review faults (is_some (lookup directory privately)) changes source
          prepared free))
      st back asked

-- If no bytes have the digest "missing", then wherever the file system throws, an application that answers
-- `failed` and does not say that a recovery is required leaves every place of the source tree as it
-- was.
pub apply_patch_atomically-failed :
    (sha : Sha256) (review : Review) (fold : Relpath → Relpath) (faults : ApplyFaults)
    (patch_id : String) (changes : List PatchChange) (source prepared : Tree)
    (privately : PrivateRoot) (outcome : Outcome)
    → ((b : Bytes) → sha b ≢ "missing")
    → apply_patch_atomically sha review fold faults patch_id changes source prepared privately
      ≡ some outcome
    → outcome.result.status ≡ failed
    → outcome.result.recovery_required ≢ some true
    → (asked : Relpath) → outcome.source asked ≡ source asked
unfolding apply_patch_atomically preflight
apply_patch_atomically-failed sha review fold faults patch_id changes source prepared privately
      outcome h e st back asked =
    elim (Bool-cases (preflight sha review fold faults changes source prepared)) [
      | inl checked ↦
          applied_in-source sha review faults patch_id changes source prepared privately
            (patch_dir patch_id) outcome
            (preflight-IsFree sha review changes source prepared h (ground (arith, checked)))
            (rw (checked) at e) st back asked
      | inr stopped_early ↦
          let result = refused patch_id (relpaths changes) in
          let same_tree : Outcome = record {
            source = source;
            privately = privately;
            result = result;
          } in
          let e' : same_tree ≡ outcome = cc (rw (stopped_early) at e) in
          subst (λ o. o.source asked ≡ source asked) e' refl
    ]
