-- ===== src/Background/Cancel.antt =====
-- packages/core/src/background/cancel-store.ts: the durable requests to cancel. The file is what it
-- parses to, or `none` where it is missing or holds no object; a property may be missing from it.
use yuhi.Prelude.{
  String, str_eq, ◌≡◌, Bool, true, false, ◌||◌, Option, none, some, get_or, List, [], ◌∷◌, ◌++◌,
  any, arith, eq_iff, if◌then◌else◌, inl, inr, Bool-cases,
}

pub record CancelFile : Type 0 where
  pub run : Option Bool
  pub items : Option (List String)

abbrev pub read : Option CancelFile → CancelFile
read none = record { run = none; items = none }
read (some parsed) = parsed

abbrev pub includes : String → List String → Bool
includes item_id items = any (λ i. str_eq i item_id) items

-- `set.add(item)`: a `Set` keeps the first of equal elements, in the order of insertion.
unfoldable pub add : List String → String → List String
unfolding any
add set item = if includes item set then set else set ++ item ∷ []

-- `for (const item of items) set.add(item)`
unfoldable pub add_all : List String → List String → List String
unfolding add
add_all set [] = set
add_all set (item ∷ items) = add_all (add set item) items

-- What the file holds after `requestRun`.
unfoldable pub request_run : Option CancelFile → CancelFile
request_run file = record (read file) { run = some true }

-- What the file holds after `requestItem`.
unfoldable pub request_item : String → Option CancelFile → CancelFile
unfolding add_all
request_item item_id file = record (read file) {
  items = some (add (add_all [] (get_or (read file).items [])) item_id);
}

unfoldable pub is_run_cancelled : Option CancelFile → Bool
is_run_cancelled file = get_or (read file).run false

unfoldable pub is_cancelled : String → Option CancelFile → Bool
unfolding any
is_cancelled item_id file =
    if get_or (read file).run false then true else includes item_id (get_or (read file).items [])

includes-append :
    (j item : String) (set : List String)
    → includes j (set ++ item ∷ []) ≡ (includes j set || str_eq item j)
unfolding any
includes-append j item [] = ground arith
includes-append j item (x ∷ set) = ground (arith, includes-append j item set)

includes-add :
    (j item : String) (set : List String)
    → includes j (add set item) ≡ (includes j set || str_eq item j)
unfolding add
includes-add j item set = elim (Bool-cases (includes item set)) [
  | inl old ↦ rw old (ground (arith, old, eq_iff item j))
  | inr fresh ↦ rw fresh (includes-append j item set)
]

includes-add_all :
    (j : String) (set items : List String)
    → includes j (add_all set items) ≡ (includes j set || includes j items)
unfolding add_all any
includes-add_all j set [] = ground arith
includes-add_all j set (item ∷ items) =
    ground (arith, includes-add_all j (add set item) items, includes-add j item set)

-- A request to cancel an item cancels that item, keeps every earlier request, and cancels nothing
-- else; a request to cancel the run cancels every item.
pub request-is_cancelled :
    (item_id j : String) (file : Option CancelFile)
    → (is_cancelled j (some (request_item item_id file))
        ≡ (is_cancelled j file || str_eq item_id j))
      × (is_cancelled j (some (request_run file)) ≡ true)
unfolding is_cancelled request_item request_run
request-is_cancelled item_id j file = ground (
  arith,
  includes-add j item_id (add_all [] (get_or (read file).items [])),
  includes-add_all j [] (get_or (read file).items []),
)
