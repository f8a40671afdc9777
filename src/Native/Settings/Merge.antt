-- ===== src/Native/Settings/Merge.antt =====
-- What the merged list of environment variables holds.
use yuhi.Prelude.{
  String, str_eq, eq_iff, ◌≡◌, refl, ◌∙◌, Bool, true, false, Option, none, some, List, [], ◌∷◌,
  ◌++◌, map, arith, if◌then◌else◌, any, All, inl, inr, Bool-cases,
}
use yuhi.Native.Settings.{
  Value, Items, nil, cons, as_env_entry, EnvironmentVariableEntry, NativeGuiEnvironment,
  managed_entries, is_managed, place, keep_item, keep_items, written, items_of,
  merge_environment_variables,
}

abbrev Entries : Type 0
Entries = List EnvironmentVariableEntry

-- The first entry of a name: the only one, in a list without duplicates.
unfoldable pub entry_of : String → List EnvironmentVariableEntry → Option EnvironmentVariableEntry
entry_of n [] = none
entry_of n (e ∷ es) = if str_eq e.name n then some e else entry_of n es

abbrev pub named : String → EnvironmentVariableEntry → Bool
named n e = str_eq e.name n

-- No two entries of the list have one name.
abbrev pub IsUnique : List EnvironmentVariableEntry → Type 0
IsUnique [] = Unit
IsUnique (e ∷ es) = (any (named e.name) es ≡ false) × IsUnique es

abbrev pub if_named : String → Option EnvironmentVariableEntry → Option EnvironmentVariableEntry
if_named n none = none
if_named n (some e) = if str_eq e.name n then some e else none

abbrev pub or_entry :
    Option EnvironmentVariableEntry
    → Option EnvironmentVariableEntry
    → Option EnvironmentVariableEntry
or_entry none b = b
or_entry (some e) b = some e

-- How a shell resolves a name in a list of settings items: the last definition wins.
unfoldable pub last_definition : String → Items → Option EnvironmentVariableEntry
last_definition n nil = none
last_definition n (cons v vs) = or_entry (last_definition n vs) (if_named n (as_env_entry v))

entry_of-append :
    (n : String) (a b : Entries) → entry_of n (a ++ b) ≡ or_entry (entry_of n a) (entry_of n b)
unfolding entry_of
entry_of-append n [] b = refl
entry_of-append n (e ∷ es) b = ground (arith, entry_of-append n es b)

entry_of-place :
    (n : String) (item : EnvironmentVariableEntry) (es : Entries)
    → entry_of n (place item es) ≡ (if str_eq item.name n then some item else entry_of n es)
unfolding entry_of place
entry_of-place n item [] = refl
entry_of-place n item (e ∷ es) =
    ground (
      arith,
      entry_of-place n item es,
      eq_iff e.name item.name,
      eq_iff e.name n,
      eq_iff item.name n,
    )

entry_of-keep_item :
    (n : String) (es : Entries) (o : Option EnvironmentVariableEntry)
    → is_managed n ≡ false
    → entry_of n (keep_item es o) ≡ or_entry (if_named n o) (entry_of n es)
unfolding keep_item
entry_of-keep_item n es none h = refl
entry_of-keep_item n es (some item) h = ground (arith, entry_of-place n item es, eq_iff item.name n)

or_entry_assoc :
    (a b c : Option EnvironmentVariableEntry)
    → or_entry a (or_entry b c) ≡ or_entry (or_entry a b) c
or_entry_assoc none b c = refl
or_entry_assoc (some e) b c = refl

entry_of-keep_items :
    (n : String) (es : Entries) (items : Items)
    → is_managed n ≡ false
    → entry_of n (keep_items es items) ≡ or_entry (last_definition n items) (entry_of n es)
unfolding keep_items last_definition
entry_of-keep_items n es nil h = refl
entry_of-keep_items n es (cons v vs) h =
    rw
      (
        entry_of-keep_items n (keep_item es (as_env_entry v)) vs h,
        entry_of-keep_item n es (as_env_entry v) h,
      )
      (or_entry_assoc (last_definition n vs) (if_named n (as_env_entry v)) (entry_of n es))

-- No entry of the list has a name that Yuhi manages.
abbrev pub IsForeign : EnvironmentVariableEntry → Type 0
IsForeign e = is_managed e.name ≡ false

place-IsForeign :
    (item : EnvironmentVariableEntry) (es : Entries)
    → IsForeign item
    → All IsForeign es
    → All IsForeign (place item es)
unfolding place
place-IsForeign item [] h k = (h, tt)
place-IsForeign item (e ∷ es) h (k, ks) = ground (arith, place-IsForeign item es h ks)

keep_item-IsForeign :
    (es : Entries) (o : Option EnvironmentVariableEntry)
    → All IsForeign es
    → All IsForeign (keep_item es o)
unfolding keep_item
keep_item-IsForeign es none k = k
keep_item-IsForeign es (some item) k = elim (Bool-cases (is_managed item.name)) [
  | inl ours ↦ rw ours k
  | inr other ↦ rw other (place-IsForeign item es other k)
]

pub keep_items-IsForeign :
    (es : Entries) (items : Items) → All IsForeign es → All IsForeign (keep_items es items)
unfolding keep_items
keep_items-IsForeign es nil k = k
keep_items-IsForeign es (cons v vs) k =
    keep_items-IsForeign (keep_item es (as_env_entry v)) vs
      (keep_item-IsForeign es (as_env_entry v) k)

entry_of-IsForeign :
    (n : String) (es : Entries) → is_managed n ≡ true → All IsForeign es → entry_of n es ≡ none
unfolding entry_of
entry_of-IsForeign n [] h k = refl
entry_of-IsForeign n (e ∷ es) h (k, ks) =
    ground (arith, entry_of-IsForeign n es h ks, eq_iff e.name n)

entry_of-mine :
    (n : String) (managed : NativeGuiEnvironment)
    → is_managed n ≡ false
    → entry_of n (map written (managed_entries managed)) ≡ none
unfolding entry_of is_managed managed_entries
entry_of-mine n managed h = ground arith

or_entry-none : (a : Option EnvironmentVariableEntry) → or_entry a none ≡ a
or_entry-none none = refl
or_entry-none (some e) = refl

-- Under a name that Yuhi manages the merged settings hold Yuhi's entry, whatever the file held;
-- under any other name they hold the file's last definition of it, or none.
pub entry_of-merge :
    (n : String) (existing : Option Value) (managed : NativeGuiEnvironment)
    → entry_of n (merge_environment_variables existing managed) ≡ (
        if is_managed n
        then entry_of n (map written (managed_entries managed))
        else last_definition n (items_of existing))
unfolding merge_environment_variables entry_of
entry_of-merge n existing managed = elim (Bool-cases (is_managed n)) [
  | inl ours ↦ rw (
    ours,
    entry_of-append n _ (map written (managed_entries managed)),
    entry_of-IsForeign n _ ours (keep_items-IsForeign [] (items_of existing) tt),
  )
  | inr theirs ↦
      rw
        (
          theirs,
          entry_of-append n _ (map written (managed_entries managed)),
          entry_of-mine n managed theirs,
          entry_of-keep_items n [] (items_of existing) theirs,
        )
        (or_entry-none (or_entry (last_definition n (items_of existing)) none)
          ∙ or_entry-none (last_definition n (items_of existing)))
]
