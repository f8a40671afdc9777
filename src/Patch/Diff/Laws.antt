-- ===== src/Patch/Diff/Laws.antt =====
-- No difference between two snapshots goes unreported.
use yuhi.Prelude.{
  str_eq, Bool, true, false, not, ◌||◌, Option, none, some, is_some, List, [], ◌∷◌, ◌++◌, map,
  filter, any, ◌==◌, ◌≡◌, refl, sym, ap, subst, ◌∙◌, arith, inl, inr, Bool-cases, Option-cases,
}
use yuhi.Prelude.Sort.{insert_sorted, sort}
use yuhi.Text.{same, same_refl, eq_of_same}
use yuhi.Patch.Types.{Relpath, PreparedSnapshotFile, PreparedSnapshot, PatchChange}
use yuhi.Patch.Transaction.Rollback.{any-append}
use yuhi.Patch.Diff.{
  path_before, change_of, set_file, by_relpath, file_at, unique_by_hash, renames, renamed_change,
  deleted_change, added_change, is_from, is_to, kept_change, kept_changes, changes_between,
  diff_prepared_snapshots,
}

abbrev is_at : Relpath → PreparedSnapshotFile → Bool
is_at path f = same f.relpath path

abbrev previous_is : Relpath → Option Relpath → Bool
previous_is path none = false
previous_is path (some previous) = same previous path

-- Whether a change is of a path, or takes a file away from it.
abbrev pub reports : Relpath → PatchChange → Bool
reports path change = same change.relpath path || previous_is path change.previous_relpath

-- Whether what is at a path of the two snapshots differs, in contents or permissions.
abbrev pub differ : Option PreparedSnapshotFile → Option PreparedSnapshotFile → Bool
differ none none = false
differ none (some new) = true
differ (some old) none = true
differ (some old) (some new) = not (str_eq old.sha256 new.sha256) || not (old.mode == new.mode)

or_left : (a b : Bool) → a ≡ true → (a || b) ≡ true
or_left a b h = ground (arith, h)

or_right : (a b : Bool) → b ≡ true → (a || b) ≡ true
or_right a b h = ground (arith, h)

or_swap : (a b c x : Bool) → x ≡ (a || c) → (b || x) ≡ (a || (b || c))
or_swap a b c x h = ground (arith, h)

any-insert_sorted :
    (p : PatchChange → Bool) (c : PatchChange) (cs : List PatchChange)
    → any p (insert_sorted path_before c cs) ≡ (p c || any p cs)
unfolding any insert_sorted
any-insert_sorted p c [] = refl
any-insert_sorted p c (d ∷ cs) = elim (Bool-cases (path_before d c)) [
  | inl later ↦ rw (later) (or_swap (p c) (p d) (any p cs) _ (any-insert_sorted p c cs))
  | inr here ↦ rw (here) refl
]

any-sort : (p : PatchChange → Bool) (cs : List PatchChange) → any p (sort path_before cs) ≡ any p cs
unfolding any sort
any-sort p [] = refl
any-sort p (c ∷ cs) =
    any-insert_sorted p c (sort path_before cs) ∙ ap (λ b. p c || b) (any-sort p cs)

set_file-any :
    (path : Relpath) (f : PreparedSnapshotFile) (held : List PreparedSnapshotFile)
    → is_some (file_at path (set_file f held)) ≡ true
    → (is_at path f || is_some (file_at path held)) ≡ true
unfolding set_file file_at
set_file-any path f [] h = ground (arith, h)
set_file-any path f (g ∷ held) h = elim (Bool-cases (same g.relpath f.relpath)) [
  | inl over ↦ ground (arith, h, over)
  | inr beside ↦ ground (arith, h, beside, set_file-any path f held)
]

-- What is found by a path was listed under it.
listed :
    (path : Relpath) (held files : List PreparedSnapshotFile)
    → is_some (file_at path (by_relpath held files)) ≡ true
    → (is_some (file_at path held) || any (is_at path) files) ≡ true
unfolding by_relpath any
listed path held [] h = ground (arith, h)
listed path held (f ∷ files) h =
    ground (arith, listed path (set_file f held) files h, set_file-any path f held)

file_at-relpath :
    (path : Relpath) (files : List PreparedSnapshotFile) (f : PreparedSnapshotFile)
    → file_at path files ≡ some f
    → f.relpath ≡ path
unfolding file_at
file_at-relpath path [] f h = absurd (ground (arith, h))
file_at-relpath path (g ∷ files) f h = elim (Bool-cases (same g.relpath path)) [
  | inl here ↦
      let e : g ≡ f = cc (rw (here) at h) in
      subst (λ x. x.relpath ≡ path) e (eq_of_same g.relpath path here)
  | inr there ↦ file_at-relpath path files f (rw (there) at h)
]

-- A test of the path alone does not lose a file of that path.
filter-is_at :
    (path : Relpath) (q : PreparedSnapshotFile → Bool) (files : List PreparedSnapshotFile)
    → ((f : PreparedSnapshotFile) → f.relpath ≡ path → q f ≡ true)
    → any (is_at path) files ≡ true
    → any (is_at path) (filter q files) ≡ true
unfolding any filter
filter-is_at path q [] k h = absurd (ground (arith, h))
filter-is_at path q (f ∷ files) k h = elim (Bool-cases (is_at path f)) [
  | inl here ↦ rw (k f (eq_of_same f.relpath path here)) (ground (arith, here))
  | inr there ↦
      let rest = filter-is_at path q files k (ground (arith, h, there)) in
      elim (Bool-cases (q f)) [
        | inl kept ↦ rw (kept) (ground (arith, there, rest))
        | inr dropped ↦ rw (dropped) rest
      ]
]

module _ (path : Relpath) where
  reported_renames :
      (old : PreparedSnapshotFile) (pairs : List (PreparedSnapshotFile × PreparedSnapshotFile))
      → old.relpath ≡ path
      → (is_from pairs old || is_to pairs old) ≡ true
      → any (reports path) (map renamed_change pairs) ≡ true
  unfolding any change_of
  reported_renames old [] e h = absurd (ground (arith, h))
  reported_renames old ((from, to) ∷ pairs) e h =
      let ih = reported_renames old pairs e in
      elim (Bool-cases (same from.relpath old.relpath || same to.relpath old.relpath)) [
        | inl here ↦
            let here' : (same from.relpath path || same to.relpath path) ≡ true =
              subst (λ r. (same from.relpath r || same to.relpath r) ≡ true) e here in
            ground (arith, here')
        | inr there ↦ ground (arith, h, there, ih)
      ]

  reported_each :
      (make : PreparedSnapshotFile → PatchChange) (files : List PreparedSnapshotFile)
      → ((f : PreparedSnapshotFile) → (make f).relpath ≡ f.relpath)
      → any (is_at path) files ≡ true
      → any (reports path) (map make files) ≡ true
  unfolding any
  reported_each make [] k h = absurd (ground (arith, h))
  reported_each make (f ∷ files) k h = elim (Bool-cases (is_at path f)) [
    | inl here ↦
        let there : same (make f).relpath path ≡ true =
          subst (λ r. same r path ≡ true) (sym (k f)) here in
        ground (arith, there)
    | inr other ↦ ground (arith, reported_each make files k (ground (arith, h, other)))
  ]

  kept_reports :
      (old new : PreparedSnapshotFile)
      → new.relpath ≡ path
      → differ (some old) (some new) ≡ true
      → any (reports path) (kept_change old (some new)) ≡ true
  unfolding any change_of
  kept_reports old new e h =
      let here : same new.relpath path ≡ true =
        subst (λ r. same r path ≡ true) (sym e) (same_refl path) in
      ground (arith, h, here)

  kept_changes-reports :
      (before after : List PreparedSnapshotFile) (old new : PreparedSnapshotFile)
      → file_at path before ≡ some old
      → file_at path after ≡ some new
      → differ (some old) (some new) ≡ true
      → any (reports path) (kept_changes before after) ≡ true
  unfolding kept_changes file_at
  kept_changes-reports [] after old new f g h = absurd (ground (arith, f))
  kept_changes-reports (x ∷ before) after old new f g h =
      let first = kept_change x (file_at x.relpath after) in
      let rest = kept_changes before after in
      rw (any-append (reports path) first rest) (elim (Bool-cases (is_at path x)) [
        | inl here ↦
            let e : x ≡ old = cc (rw (here) at f) in
            let found : file_at x.relpath after ≡ some new =
              subst (λ p. file_at p after ≡ some new) (sym (eq_of_same x.relpath path here)) g in
            let reported =
              kept_reports x new (file_at-relpath path after new g)
                (subst (λ o. differ (some o) (some new) ≡ true) (sym e) h) in
            or_left (any (reports path) first) (any (reports path) rest)
              (subst (λ o. any (reports path) (kept_change x o) ≡ true) (sym found) reported)
        | inr other ↦
            ground (arith, kept_changes-reports before after old new (rw (other) at f) g h)
      ])

-- The path stays of the files that are on one side only.
only_there :
    (path : Relpath) (here there : List PreparedSnapshotFile) (f : PreparedSnapshotFile)
    → file_at path (by_relpath [] here) ≡ some f
    → file_at path there ≡ none
    → any (is_at path) (filter (λ g. not (is_some (file_at g.relpath there))) here) ≡ true
unfolding any file_at
only_there path here there f e absent =
    filter-is_at path (λ g. not (is_some (file_at g.relpath there))) here
      (λ g at. subst (λ r. not (is_some (file_at r there)) ≡ true) (sym at) (rw (absent) refl))
      (listed path [] here (rw (e) refl))

four :
    (p : PatchChange → Bool) (ws xs ys zs : List PatchChange)
    → any p (ws ++ (xs ++ (ys ++ zs))) ≡ (any p ws || (any p xs || (any p ys || any p zs)))
four p ws xs ys zs =
    rw (any-append p ws (xs ++ (ys ++ zs)), any-append p xs (ys ++ zs), any-append p ys zs) refl

gone_reported :
    (path : Relpath) (pairs : List (PreparedSnapshotFile × PreparedSnapshotFile))
    (gone : List PreparedSnapshotFile) (old : PreparedSnapshotFile)
    → old.relpath ≡ path
    → any (is_at path) gone ≡ true
    → (any (reports path) (map renamed_change pairs)
        || any (reports path) (map deleted_change (filter (λ f. not (is_from pairs f)) gone)))
      ≡ true
unfolding change_of
gone_reported path pairs gone old e h = elim (Bool-cases (is_from pairs old)) [
  | inl moved ↦
      or_left _ _
        (reported_renames path old pairs e (or_left (is_from pairs old) (is_to pairs old) moved))
  | inr removed ↦ or_right (any (reports path) (map renamed_change pairs)) _ (
      reported_each path deleted_change (filter (λ f. not (is_from pairs f)) gone) (λ f. refl)
        (filter-is_at path (λ f. not (is_from pairs f)) gone
          (λ f at.
            subst (λ r. not (any (λ pair. same pair.0.relpath r) pairs) ≡ true) (e ∙ sym at)
              (ground (arith, removed)))
          h))
]

new_reported :
    (path : Relpath) (pairs : List (PreparedSnapshotFile × PreparedSnapshotFile))
    (new : List PreparedSnapshotFile) (f : PreparedSnapshotFile)
    → f.relpath ≡ path
    → any (is_at path) new ≡ true
    → (any (reports path) (map renamed_change pairs)
        || any (reports path) (map added_change (filter (λ g. not (is_to pairs g)) new)))
      ≡ true
unfolding change_of
new_reported path pairs new f e h = elim (Bool-cases (is_to pairs f)) [
  | inl moved ↦
      or_left _ _
        (reported_renames path f pairs e (or_right (is_from pairs f) (is_to pairs f) moved))
  | inr fresh ↦ or_right (any (reports path) (map renamed_change pairs)) _ (
      reported_each path added_change (filter (λ g. not (is_to pairs g)) new) (λ g. refl)
        (filter-is_at path (λ g. not (is_to pairs g)) new
          (λ g at.
            subst (λ r. not (any (λ pair. same pair.1.relpath r) pairs) ≡ true) (e ∙ sym at)
              (ground (arith, fresh)))
          h))
]

first_two : (a b c d : Bool) → (a || b) ≡ true → (a || (b || (c || d))) ≡ true
first_two a b c d h = ground (arith, h)

first_third : (a b c d : Bool) → (a || c) ≡ true → (a || (b || (c || d))) ≡ true
first_third a b c d h = ground (arith, h)

fourth : (a b c d : Bool) → d ≡ true → (a || (b || (c || d))) ≡ true
fourth a b c d h = ground (arith, h)

changes_between-reports :
    (path : Relpath) (baseline current : List PreparedSnapshotFile)
    → differ (file_at path (by_relpath [] baseline)) (file_at path (by_relpath [] current)) ≡ true
    → any (reports path) (changes_between baseline current) ≡ true
unfolding changes_between
changes_between-reports path baseline current h =
    let before = by_relpath [] baseline in
    let after = by_relpath [] current in
    let gone = filter (λ f. not (is_some (file_at f.relpath after))) baseline in
    let new = filter (λ f. not (is_some (file_at f.relpath before))) current in
    let pairs = renames (unique_by_hash gone) (unique_by_hash new) in
    let moved = any (reports path) (map renamed_change pairs) in
    let removed =
      any (reports path) (map deleted_change (filter (λ f. not (is_from pairs f)) gone)) in
    let brought = any (reports path) (map added_change (filter (λ f. not (is_to pairs f)) new)) in
    let kept = any (reports path) (kept_changes before after) in
    rw
      (four (reports path) (map renamed_change pairs)
        (map deleted_change (filter (λ f. not (is_from pairs f)) gone))
        (map added_change (filter (λ f. not (is_to pairs f)) new)) (kept_changes before after))
      (elim (Option-cases (file_at path before)) [
        | inl absent ↦ elim (Option-cases (file_at path after)) [
          | inl nowhere ↦ absurd (ground (arith, h, absent, nowhere))
          | inr (f, found) ↦ first_third moved removed brought kept (
              new_reported path pairs new f (file_at-relpath path after f found)
                (only_there path current before f found absent))
        ]
        | inr (old, here) ↦ elim (Option-cases (file_at path after)) [
          | inl absent ↦ first_two moved removed brought kept (
              gone_reported path pairs gone old (file_at-relpath path before old here)
                (only_there path baseline after old here absent))
          | inr (f, found) ↦
              fourth moved removed brought kept
                (kept_changes-reports path before after old f here found (rw (here, found) at h))
        ]
      ])

-- If two snapshots are compared, then every path at which their files differ, in contents or permissions or because only
-- one of them has a file there, is reported by a change.
pub diff_prepared_snapshots-reports :
    (path : Relpath) (baseline current : PreparedSnapshot) (changes : List PatchChange)
    → diff_prepared_snapshots baseline current ≡ some changes
    → differ
        (file_at path (by_relpath [] baseline.files))
        (file_at path (by_relpath [] current.files))
      ≡ true
    → any (reports path) changes ≡ true
unfolding diff_prepared_snapshots
diff_prepared_snapshots-reports path baseline current changes e h =
    let other =
      not (str_eq baseline.context_id current.context_id)
      || not (str_eq baseline.revision_id current.revision_id) in
    let found = changes_between baseline.files current.files in
    elim (Bool-cases other) [
      | inl apart ↦ absurd (ground (arith, e, apart))
      | inr together ↦
          let e' : sort path_before found ≡ changes = cc (rw (together) at e) in
          rw (← e', any-sort (reports path) found)
            (changes_between-reports path baseline.files current.files h)
    ]
