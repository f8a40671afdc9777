-- ===== src/Patch/Hunks/Splice.antt =====
-- Splicing hunks into a list of lines, from the last one to the first.
use yuhi.Prelude.{
  ℕ, ◌<◌, ◌≡◌, refl, ap, ◌∙◌, true, String, eq_iff, List, [], ◌∷◌, ◌++◌, map, filter, filter-All,
  any, length, take-append, drop-append, All, arith,
}
use yuhi.Prelude.Sort.{insert_sorted, sort, sort-All}
use yuhi.Patch.Hunks.{Line, TextPatchHunk, splice, splice_all, is_selected, applied_before}

pub splice-append :
    (pre g post replacement : List Line) (start count : ℕ)
    → start ≡ length pre
    → count ≡ length g
    → splice start count replacement (pre ++ (g ++ post)) ≡ pre ++ (replacement ++ post)
unfolding splice
splice-append pre g post replacement start count h k = rw (
  take-append pre (g ++ post) start h,
  drop-append pre (g ++ post) start h,
  drop-append g post count k,
)

-- The first hunk of the list is spliced last.
abbrev pub splice_back : List TextPatchHunk → List Line → List Line
splice_back [] output = output
splice_back (h ∷ hs) output =
    splice h.before_start h.before_count h.replacement_lines (splice_back hs output)

abbrev pub StartsAfter : ℕ → TextPatchHunk → Type 0
StartsAfter n h = n < h.before_start

-- Each hunk starts before all those that follow.
abbrev pub IsAscending : List TextPatchHunk → Type 0
IsAscending [] = Unit
IsAscending (h ∷ hs) = All (StartsAfter h.before_start) hs × IsAscending hs

splice_all-insert_sorted :
    (h : TextPatchHunk) (hs : List TextPatchHunk) (output : List Line)
    → All (StartsAfter h.before_start) hs
    → splice_all (insert_sorted applied_before h hs) output
      ≡ splice h.before_start h.before_count h.replacement_lines (splice_all hs output)
unfolding splice_all insert_sorted
splice_all-insert_sorted h [] output k = refl
splice_all-insert_sorted h (x ∷ hs) output (k, ks) = ground (
  arith,
  splice_all-insert_sorted h hs (splice x.before_start x.before_count x.replacement_lines output)
      ks,
)

-- The order in which ascending hunks are applied.
pub splice_all-sort :
    (hs : List TextPatchHunk) (output : List Line)
    → IsAscending hs
    → splice_all (sort applied_before hs) output ≡ splice_back hs output
unfolding sort
splice_all-sort [] output h = unfold splice_all in refl
splice_all-sort (h ∷ hs) output (k, ks) =
    splice_all-insert_sorted h (sort applied_before hs) output
      (sort-All applied_before (StartsAfter h.before_start) hs k)
    ∙ ap (splice h.before_start h.before_count h.replacement_lines) (splice_all-sort hs output ks)

abbrev id_of : TextPatchHunk → String
id_of h = h.hunk_id

abbrev pub ids_of : List TextPatchHunk → List String
ids_of hs = map id_of hs

weaken :
    (x : TextPatchHunk) (ids : List String) (hs : List TextPatchHunk)
    → All (λ h. is_selected ids h ≡ true) hs
    → All (λ h. is_selected (x.hunk_id ∷ ids) h ≡ true) hs
unfolding any
weaken x ids [] k = tt
weaken x ids (h ∷ hs) (k, ks) = (ground (arith, k), weaken x ids hs ks)

ids_of-All : (hs : List TextPatchHunk) → All (λ h. is_selected (ids_of hs) h ≡ true) hs
unfolding any
ids_of-All [] = tt
ids_of-All (h ∷ hs) =
    (ground (arith, eq_iff h.hunk_id h.hunk_id), weaken h (ids_of hs) hs (ids_of-All hs))

-- A selection of all the ids keeps every hunk.
pub filter-is_selected : (hs : List TextPatchHunk) → filter (is_selected (ids_of hs)) hs ≡ hs
filter-is_selected hs = filter-All (is_selected (ids_of hs)) hs (ids_of-All hs)
