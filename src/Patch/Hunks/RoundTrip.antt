-- ===== src/Patch/Hunks/RoundTrip.antt =====
-- All hunks of a change, applied to the text before it, give the text after it.
use yuhi.Prelude.{
  ℕ, suc, ◌*◌, ◌≡◌, refl, sym, subst, ◌∙◌, List, [], ◌∷◌, ◌++◌, filter, length, length-append,
  append_assoc, append-nil, ltb, arith, inl, inr, Bool-cases,
}
use yuhi.Prelude.Sort.{sort}
use yuhi.Patch.Hunks.{
  Line, TextPatchHunk, Digest, Operation, equal, at_pos, lines, one_hunk, same_lines, changed,
  groups, hunks_of, operations_of, table_rows, is_selected, applied_before, splice, splice_all,
  build_text_patch_hunks, apply_text_patch_hunks,
}
use yuhi.Patch.Hunks.Lines.{join_lines-lines, eq_of_same_lines}
use yuhi.Patch.Hunks.Script.{Script, done, keep, take_out, put_in, operations_from-Script}
use yuhi.Patch.Hunks.Splice.{
  splice_back, IsAscending, splice-append, splice_all-sort, ids_of, filter-is_selected,
}
use yuhi.Patch.Hunks.Grouping.{Rebuilds, follow_opened, is_delete, is_insert}

module _ (digest : Digest) (before after : List Line) (ops : List Operation) where
  record Result (hs : List TextPatchHunk) (result : List Line) : Type 0 where
    pub ascending : IsAscending hs
    pub rebuilt : splice_back hs before ≡ result

  of_group :
      (k : ℕ) (hs : List TextPatchHunk) (pre rest : List Line)
      → Rebuilds digest before after ops k hs (pre ++ rest)
      → pre ++ rest ≡ after
      → Result hs after
  of_group k hs pre rest r e = record { ascending = r.ascending; rebuilt = r.rebuilt ∙ e }

  -- Before the first change, with `pre` kept.
  skip :
      {R : List Operation} {bs as' : List Line} {i j : ℕ} (n : ℕ) (pre : List Line)
      (Q : List Operation)
      → Script i j R bs as'
      → before ≡ pre ++ bs
      → after ≡ pre ++ as'
      → ops ≡ Q ++ R
      → n ≡ length Q
      → i ≡ length pre
      → j ≡ length pre
      → Result (hunks_of digest after ops (groups (changed n R))) after
  unfolding changed groups hunks_of
  skip n pre Q done hb ha ho hn hi hj = record { ascending = tt; rebuilt = hb ∙ sym ha }
  skip n pre Q (keep {i} {j} {os} {bs} {as'} l S) hb ha ho hn hi hj =
      skip (suc n) (pre ++ l ∷ []) (Q ++ at_pos equal i j ∷ []) S
        (rw (append_assoc pre (l ∷ []) bs) hb) (rw (append_assoc pre (l ∷ []) as') ha)
        (rw (append_assoc Q (at_pos equal i j ∷ []) os) ho)
        (omega (arith, hn, length-append Q (at_pos equal i j ∷ [])))
        (omega (arith, hi, length-append pre (l ∷ [])))
        (omega (arith, hj, length-append pre (l ∷ [])))
  skip n pre Q (take_out {i} {j} {os} {bs} {as'} l S) hb ha ho hn hi hj =
      of_group _ _ pre as'
        (follow_opened digest before after ops _ (l ∷ []) [] pre pre Q
          (is_delete digest before after ops i j l) S hb ha ho hn hi hj)
        (sym ha)
  skip n pre Q (put_in {i} {j} {os} {bs} {as'} l S) hb ha ho hn hi hj =
      of_group _ _ pre (l ∷ as')
        (follow_opened digest before after ops _ [] (l ∷ []) pre pre Q
          (is_insert digest before after ops i j l) S hb ha ho hn hi hj)
        (sym ha)

one_hunk-Result :
    (digest : Digest) (before after : List Line)
    → Result digest before after [] (one_hunk digest before after) after
unfolding one_hunk
one_hunk-Result digest before after = elim (Bool-cases (same_lines before after)) [
  | inl unchanged ↦
      rw (unchanged) (record { ascending = tt; rebuilt = eq_of_same_lines before after unchanged })
  | inr differ ↦ rw (differ) (record {
    ascending = (tt, tt);
    rebuilt =
        subst (λ b. splice 0 (length before) after b ≡ after) (append-nil before)
          (splice-append [] before [] after 0 (length before) refl refl ∙ append-nil after);
  })
]

splice_all_hunks :
    (digest : Digest) (before after : List Line) (ops : List Operation) (hs : List TextPatchHunk)
    → Result digest before after ops hs after
    → splice_all (sort applied_before (filter (is_selected (ids_of hs)) hs)) before ≡ after
splice_all_hunks digest before after ops hs r =
    rw (filter-is_selected hs) (splice_all-sort hs before r.ascending ∙ r.rebuilt)

apply_all :
    (digest : Digest) (before after : List ℕ) (ops : List Operation) (hs : List TextPatchHunk)
    → Result digest (lines before) (lines after) ops hs (lines after)
    → apply_text_patch_hunks before hs (ids_of hs) ≡ after
unfolding apply_text_patch_hunks
apply_all digest before after ops hs r =
    rw (splice_all_hunks digest (lines before) (lines after) ops hs r) (join_lines-lines after)

-- For any texts and any digest, applying all hunks that are built of two texts to the first gives the
-- second.
pub apply-build :
    (digest : Digest) (before after : List ℕ)
    → let hunks = build_text_patch_hunks digest before after in
      apply_text_patch_hunks before hunks (ids_of hunks) ≡ after
unfolding build_text_patch_hunks
apply-build digest before after =
    let old = lines before in
    let new = lines after in
    let ops = operations_of old new in
    elim (Bool-cases (ltb 1000000 (length old * length new))) [
      | inl large ↦ rw (large) (apply_all digest before after [] _ (one_hunk-Result digest old new))
      | inr small ↦ rw (small) (
          apply_all digest before after ops _ (
            skip digest old new ops 0 [] []
              (operations_from-Script old new (table_rows old new) 0 0) refl refl refl refl refl
              refl))
    ]
