-- ===== src/Native/Settings/Unique.antt =====
-- The merged list of environment variables never names a variable twice.
use yuhi.Prelude.{
  String, str_eq, eq_iff, ◌≡◌, refl, true, false, Option, none, some, List, [], ◌∷◌, ◌++◌, map,
  arith, any, All, inl, inr, Bool-cases,
}
use yuhi.Native.Settings.{
  Value, Items, nil, cons, as_env_entry, EnvironmentVariableEntry, NativeGuiEnvironment,
  managed_entries, is_managed, place, keep_item, keep_items, written, items_of,
  merge_environment_variables,
}
use yuhi.Native.Settings.Merge.{named, IsUnique, IsForeign, keep_items-IsForeign}

abbrev Entries : Type 0
Entries = List EnvironmentVariableEntry

any_named-place :
    (n : String) (item : EnvironmentVariableEntry) (es : Entries)
    → str_eq item.name n ≡ false
    → any (named n) es ≡ false
    → any (named n) (place item es) ≡ false
unfolding any place
any_named-place n item [] h k = ground arith
any_named-place n item (e ∷ es) h k = ground (arith, any_named-place n item es h)

place-IsUnique :
    (item : EnvironmentVariableEntry) (es : Entries) → IsUnique es → IsUnique (place item es)
unfolding any place
place-IsUnique item [] u = (refl, tt)
place-IsUnique item (e ∷ es) (fresh, u) = ground (
  arith,
  place-IsUnique item es u,
  eq_iff e.name item.name,
  eq_iff item.name e.name,
  any_named-place e.name item es,
)

keep_item-IsUnique :
    (es : Entries) (o : Option EnvironmentVariableEntry) → IsUnique es → IsUnique (keep_item es o)
unfolding keep_item
keep_item-IsUnique es none u = u
keep_item-IsUnique es (some item) u = elim (Bool-cases (is_managed item.name)) [
  | inl ours ↦ rw ours u
  | inr theirs ↦ rw theirs (place-IsUnique item es u)
]

keep_items-IsUnique : (es : Entries) (items : Items) → IsUnique es → IsUnique (keep_items es items)
unfolding keep_items
keep_items-IsUnique es nil u = u
keep_items-IsUnique es (cons v vs) u =
    keep_items-IsUnique (keep_item es (as_env_entry v)) vs
      (keep_item-IsUnique es (as_env_entry v) u)

mine-IsUnique : (managed : NativeGuiEnvironment) → IsUnique (map written (managed_entries managed))
unfolding managed_entries any
mine-IsUnique managed = (refl, (refl, (refl, (refl, (refl, (refl, (refl, (refl, tt))))))))

abbrev IsOurs : EnvironmentVariableEntry → Type 0
IsOurs e = is_managed e.name ≡ true

mine-IsOurs : (managed : NativeGuiEnvironment) → All IsOurs (map written (managed_entries managed))
unfolding managed_entries is_managed
mine-IsOurs managed = (refl, (refl, (refl, (refl, (refl, (refl, (refl, (refl, tt))))))))

any_named-IsOurs :
    (n : String) (es : Entries) → is_managed n ≡ false → All IsOurs es → any (named n) es ≡ false
unfolding any
any_named-IsOurs n [] h k = refl
any_named-IsOurs n (e ∷ es) h (k, ks) = ground (arith, any_named-IsOurs n es h ks, eq_iff e.name n)

any_named-append :
    (n : String) (a b : Entries)
    → any (named n) a ≡ false
    → any (named n) b ≡ false
    → any (named n) (a ++ b) ≡ false
unfolding any
any_named-append n [] b h k = k
any_named-append n (e ∷ es) b h k = ground (arith, any_named-append n es b)

IsUnique-append :
    (a b : Entries) → IsUnique a → IsUnique b → All IsForeign a → All IsOurs b → IsUnique (a ++ b)
IsUnique-append [] b u v f g = v
IsUnique-append (e ∷ es) b (fresh, u) v (f, fs) g = (
  any_named-append e.name es b fresh (any_named-IsOurs e.name b f g),
  IsUnique-append es b u v fs g,
)

-- The list that the extension is handed has no two entries of one name, whatever the settings file
-- held before.
pub merge-IsUnique :
    (existing : Option Value) (managed : NativeGuiEnvironment)
    → IsUnique (merge_environment_variables existing managed)
unfolding merge_environment_variables
merge-IsUnique existing managed =
    IsUnique-append (keep_items [] (items_of existing)) (map written (managed_entries managed))
      (keep_items-IsUnique [] (items_of existing) tt) (mine-IsUnique managed)
      (keep_items-IsForeign [] (items_of existing) tt) (mine-IsOurs managed)
