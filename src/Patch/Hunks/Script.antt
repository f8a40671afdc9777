-- ===== src/Patch/Hunks/Script.antt =====
-- The operations lead from the one list of lines to the other.
use yuhi.Prelude.{ℕ, suc, List, [], ◌∷◌, inl, inr, Bool-cases}
use yuhi.Text.{same, eq_of_same}
use yuhi.Patch.Hunks.{
  Line, Operation, equal, delete, insert, at_pos, prefers_insert, operations_from, other_rows,
}

-- The operations, from places `i` and `j` on, take the first lines to the second.
pub data Script : ℕ → ℕ → List Operation → List Line → List Line → Type 0 where
  done : {i j : ℕ} → Script i j [] [] []
  keep :
      {i j : ℕ} {os : List Operation} {bs as' : List Line} (l : Line)
      → Script (suc i) (suc j) os bs as'
      → Script i j (at_pos equal i j ∷ os) (l ∷ bs) (l ∷ as')
  take_out :
      {i j : ℕ} {os : List Operation} {bs as' : List Line} (l : Line)
      → Script (suc i) j os bs as'
      → Script i j (at_pos delete i j ∷ os) (l ∷ bs) as'
  put_in :
      {i j : ℕ} {os : List Operation} {bs as' : List Line} (l : Line)
      → Script i (suc j) os bs as'
      → Script i j (at_pos insert i j ∷ os) bs (l ∷ as')

pub operations_from-Script :
    (bs as' : List Line) (rows : List (List ℕ)) (i j : ℕ)
    → Script i j (operations_from bs as' rows i j) bs as'
unfolding operations_from
operations_from-Script [] [] rows i j = done
operations_from-Script [] (a ∷ as') rows i j =
    put_in a (operations_from-Script [] as' rows i (suc j))
operations_from-Script (b ∷ bs) [] rows i j =
    take_out b (operations_from-Script bs [] (other_rows rows) (suc i) j)
operations_from-Script (b ∷ bs) (a ∷ as') rows i j = elim (Bool-cases (same b a)) [
  | inl kept ↦
      rw (kept, eq_of_same b a kept)
        (keep a (operations_from-Script bs as' (other_rows rows) (suc i) (suc j)))
  | inr differ ↦ elim (Bool-cases (prefers_insert rows j)) [
    | inl added ↦ rw (differ, added) (put_in a (operations_from-Script (b ∷ bs) as' rows i (suc j)))
    | inr removed ↦
        rw (differ, removed)
          (take_out b (operations_from-Script bs (a ∷ as') (other_rows rows) (suc i) j))
  ]
]
