-- ===== src/Patch/Hunks.antt =====
-- packages/core/src/patch/hunks.ts: the hunks of a changed text. Texts are lists of code points, as
-- valid UTF-8 decodes to; the digest of a hunk's three parts is a parameter.
pub mod Lines
pub mod Script
pub mod Splice
pub mod Grouping
pub mod RoundTrip
use yuhi.Prelude.{
  ℕ, suc, ◌+◌, ◌-◌, ◌*◌, String, str_eq, Bool, true, false, ◌&&◌, Option, none, some, get_or, List,
  [], ◌∷◌, ◌++◌, map, any, filter, length, get_elem?, take, drop, leb, ltb, ◌==◌, if◌then◌else◌,
}
use yuhi.Prelude.Sort.{sort}
use yuhi.Text.{same}

abbrev pub Line : Type 0
Line = List ℕ

-- `text.split("\n")`
abbrev pub onto_first : ℕ → List Line → List Line
onto_first c [] = (c ∷ []) ∷ []
onto_first c (line ∷ rest) = (c ∷ line) ∷ rest

unfoldable pub lines : List ℕ → List Line
lines [] = [] ∷ []
lines (c ∷ text) = let rest = lines text in if c == b'\n' then [] ∷ rest else onto_first c rest

-- `lines.join("\n")`
unfoldable pub join_lines : List Line → List ℕ
join_lines [] = []
join_lines (line ∷ []) = line
join_lines (line ∷ next ∷ rest) = line ++ (b'\n' ∷ join_lines (next ∷ rest))

pub record TextPatchHunk : Type 0 where
  pub hunk_id : String
  pub before_start : ℕ
  pub before_count : ℕ
  pub after_start : ℕ
  pub after_count : ℕ
  pub replacement_lines : List Line

-- The digest of `[beforeStart, beforeCount, replacementLines]`.
abbrev pub Digest : Type 0
Digest = ℕ → ℕ → List Line → String

abbrev pub make_hunk : Digest → ℕ → ℕ → ℕ → ℕ → List Line → TextPatchHunk
make_hunk digest before_start before_count after_start after_count replacement = record {
  hunk_id = digest before_start before_count replacement;
  before_start = before_start;
  before_count = before_count;
  after_start = after_start;
  after_count = after_count;
  replacement_lines = replacement;
}

unfoldable pub same_lines : List Line → List Line → Bool
unfolding same
same_lines [] [] = true
same_lines [] (b ∷ bs) = false
same_lines (a ∷ as') [] = false
same_lines (a ∷ as') (b ∷ bs) = same a b && same_lines as' bs

unfoldable pub one_hunk : Digest → List Line → List Line → List TextPatchHunk
unfolding same_lines
one_hunk digest before after =
    if same_lines before after
    then []
    else make_hunk digest 0 (length before) 0 (length after) after ∷ []

abbrev larger : ℕ → ℕ → ℕ
larger a b = if leb b a then a else b

abbrev head_of : List ℕ → ℕ
head_of [] = 0
head_of (n ∷ ns) = n

abbrev tail_of : List ℕ → List ℕ
tail_of [] = []
tail_of (n ∷ ns) = ns

-- A row of the table, from the row below it: `table[i][j]` for every `j`, the last one 0.
unfoldable pub table_row : Line → List Line → List ℕ → List ℕ
unfolding same
table_row line [] below = 0 ∷ []
table_row line (a ∷ after) below =
    let right = table_row line after (tail_of below) in
    (if same line a then 1 + head_of (tail_of below) else larger (head_of below) (head_of right))
    ∷ right

abbrev zeros : List Line → List ℕ
zeros [] = 0 ∷ []
zeros (a ∷ after) = 0 ∷ zeros after

abbrev first_row : List (List ℕ) → List ℕ
first_row [] = []
first_row (row ∷ rows) = row

abbrev other_rows : List (List ℕ) → List (List ℕ)
other_rows [] = []
other_rows (row ∷ rows) = rows

-- The rows of the table, from that of the whole text to that of zeros.
unfoldable pub table_rows : List Line → List Line → List (List ℕ)
unfolding table_row
table_rows [] after = zeros after ∷ []
table_rows (line ∷ before) after =
    let below = table_rows before after in table_row line after (first_row below) ∷ below

pub data OperationKind : Type 0 where
  equal delete insert : OperationKind

pub record Operation : Type 0 where
  pub kind : OperationKind
  pub before_pos : ℕ
  pub after_pos : ℕ

abbrev pub at_pos : OperationKind → ℕ → ℕ → Operation
at_pos kind i j = record { kind = kind; before_pos = i; after_pos = j }

abbrev entry : List ℕ → ℕ → ℕ
entry row j = get_or (get_elem? row j) 0

-- `table[i][j + 1] >= table[i + 1][j]`; the rows that are left begin with that of `i`.
abbrev pub prefers_insert : List (List ℕ) → ℕ → Bool
prefers_insert rows j = leb (entry (first_row (other_rows rows)) j) (entry (first_row rows) (suc j))

-- The `while` loop, on the lines from `i` and from `j` on. Each round takes one of them, so that it
-- ends.
unfoldable pub operations_from : List Line → List Line → List (List ℕ) → ℕ → ℕ → List Operation
unfolding same
operations_from [] [] rows i j = []
operations_from [] (a ∷ after) rows i j =
    at_pos insert i j ∷ operations_from [] after rows i (suc j)
operations_from (b ∷ before) [] rows i j =
    at_pos delete i j ∷ operations_from before [] (other_rows rows) (suc i) j
operations_from (b ∷ before) (a ∷ after) rows i j =
    let kept = at_pos equal i j ∷ operations_from before after (other_rows rows) (suc i) (suc j) in
    let added = at_pos insert i j ∷ operations_from (b ∷ before) after rows i (suc j) in
    let removed =
      at_pos delete i j ∷ operations_from before (a ∷ after) (other_rows rows) (suc i) j in
    if same b a then kept else if prefers_insert rows j then added else removed

abbrev pub is_equal : OperationKind → Bool
is_equal equal = true
is_equal _ = false

-- The indices of the changes, among operations that are numbered from `index` on.
unfoldable pub changed : ℕ → List Operation → List ℕ
changed index [] = []
changed index (o ∷ operations) =
    let rest = changed (suc index) operations in if is_equal o.kind then rest else index ∷ rest

-- The loop over the changes after the first, with `start` and `previous` as they are.
unfoldable pub groups_from : ℕ → ℕ → List ℕ → List (ℕ × ℕ)
groups_from start previous [] = (start, previous) ∷ []
groups_from start previous (index ∷ rest) =
    let split = (start, previous) ∷ groups_from index index rest in
    let joined = groups_from start index rest in if ltb 6 (index - previous) then split else joined

unfoldable pub groups : List ℕ → List (ℕ × ℕ)
unfolding groups_from
groups [] = []
groups (start ∷ rest) = groups_from start start rest

abbrev pub if_kind_delete : OperationKind → ℕ
if_kind_delete delete = 1
if_kind_delete _ = 0

abbrev pub if_kind_insert : OperationKind → ℕ
if_kind_insert insert = 1
if_kind_insert _ = 0

-- `after.slice(start, end)`
abbrev pub slice : ℕ → ℕ → List Line → List Line
slice start end after = take (end - start) (drop start after)

-- The hunk from one operation to another, both included.
abbrev pub hunk_between : Digest → List Line → Operation → Operation → TextPatchHunk
hunk_between digest after first last =
    let before_end = last.before_pos + if_kind_delete last.kind in
    let after_end = last.after_pos + if_kind_insert last.kind in
    make_hunk digest first.before_pos (before_end - first.before_pos) first.after_pos
      (after_end - first.after_pos) (slice first.after_pos after_end after)

-- Both ends of a group are indices of operations.
abbrev pub hunk_of_ends :
    Digest → List Line → Option Operation → Option Operation → List TextPatchHunk
hunk_of_ends digest after (some first) (some last) = hunk_between digest after first last ∷ []
hunk_of_ends digest after _ _ = []

abbrev pub hunk_of : Digest → List Line → List Operation → ℕ × ℕ → List TextPatchHunk
hunk_of digest after operations group =
    hunk_of_ends digest after (get_elem? operations group.0) (get_elem? operations group.1)

unfoldable pub hunks_of : Digest → List Line → List Operation → List (ℕ × ℕ) → List TextPatchHunk
hunks_of digest after operations [] = []
hunks_of digest after operations (group ∷ rest) =
    hunk_of digest after operations group ++ hunks_of digest after operations rest

abbrev pub operations_of : List Line → List Line → List Operation
operations_of before after = operations_from before after (table_rows before after) 0 0

-- The table of a large input is not built: all of it is one hunk.
unfoldable pub build_text_patch_hunks : Digest → List ℕ → List ℕ → List TextPatchHunk
unfolding lines one_hunk table_rows operations_from changed groups hunks_of
build_text_patch_hunks digest before_bytes after_bytes =
    let before = lines before_bytes in
    let after = lines after_bytes in
    let operations = operations_of before after in
    if ltb 1000000 (length before * length after)
    then one_hunk digest before after
    else hunks_of digest after operations (groups (changed 0 operations))

-- `output.splice(start, count, ...lines)`
unfoldable pub splice : ℕ → ℕ → List Line → List Line → List Line
splice start count replacement output =
    take start output ++ (replacement ++ drop count (drop start output))

abbrev pub is_selected : List String → TextPatchHunk → Bool
is_selected ids hunk = any (λ id. str_eq id hunk.hunk_id) ids

-- `b.beforeStart - a.beforeStart` is negative.
abbrev pub applied_before : TextPatchHunk → TextPatchHunk → Bool
applied_before a b = ltb b.before_start a.before_start

unfoldable pub splice_all : List TextPatchHunk → List Line → List Line
unfolding splice
splice_all [] output = output
splice_all (hunk ∷ hunks) output =
    splice_all hunks (splice hunk.before_start hunk.before_count hunk.replacement_lines output)

unfoldable pub apply_text_patch_hunks : List ℕ → List TextPatchHunk → List String → List ℕ
unfolding lines join_lines sort splice_all filter any
apply_text_patch_hunks before_bytes hunks selected =
    join_lines
      (splice_all (sort applied_before (filter (is_selected selected) hunks)) (lines before_bytes))
