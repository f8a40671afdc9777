-- ===== src/Native/SettingsFile/Laws.antt =====
-- What the settings file holds after a merge, and after the entries are cleared.
use yuhi.Prelude.{
  String, str_eq, eq_iff, ◌≡◌, refl, ◌≢◌, Option, none, some, arith, if◌then◌else◌, inl, inr,
  Option-cases,
}
use yuhi.Native.Settings.{
  Value, arr, obj, Items, nil, cons, Fields, end, field, property, as_env_entry,
  NativeGuiEnvironment, is_managed, items_of, merge_environment_variables,
}
use yuhi.Native.Settings.Merge.{last_definition}
use yuhi.Native.SettingsFile.{
  claude_env_setting_key, without, set_property, spread, values, object_of, apply_managed_settings,
  keep_foreign, put_back, clear_managed_settings,
}

property-without :
    (j k : String) (fs : Fields)
    → property j (without k fs) ≡ (if str_eq k j then none else property j fs)
unfolding property without
property-without j k end = ground arith
property-without j k (field i v fs) =
    ground (arith, property-without j k fs, eq_iff i k, eq_iff i j, eq_iff k j)

property-set_property :
    (j k : String) (w : Value) (fs : Fields)
    → property j (set_property k w fs) ≡ (if str_eq k j then some w else property j fs)
unfolding property set_property
property-set_property j k w end = refl
property-set_property j k w (field i v fs) = ground (
  arith,
  property-set_property j k w fs,
  property-without j k fs,
  eq_iff i k,
  eq_iff i j,
  eq_iff k j,
)

abbrev pub or_value : Option Value → Option Value → Option Value
or_value none b = b
or_value (some v) b = some v

or_value-none : (a : Option Value) → or_value a none ≡ a
or_value-none none = refl
or_value-none (some v) = refl

property-spread :
    (j : String) (base more : Fields)
    → property j (spread base more) ≡ or_value (property j more) (property j base)
unfolding property spread
property-spread j base end = refl
property-spread j base (field k v more) =
    ground (arith, property-spread j (set_property k v base) more, property-set_property j k v base)

-- The written settings hold the merged environment under Claude's key, and under every other key
-- the override, else what the file held, else the default.
pub property-apply :
    (key : String) (file : Option Value) (managed : NativeGuiEnvironment)
    (defaults overrides : Fields)
    → property key (apply_managed_settings file managed defaults overrides) ≡ (
        if str_eq claude_env_setting_key key
        then some (
            arr (
              values (
                merge_environment_variables
                  (property claude_env_setting_key (object_of file))
                  managed)))
        else or_value
            (property key overrides)
            (or_value (property key (object_of file)) (property key defaults)))
unfolding apply_managed_settings property
property-apply key file managed defaults overrides = rw (
  property-set_property key claude_env_setting_key _
      (spread (spread (spread end defaults) (object_of file)) overrides),
  property-spread key (spread (spread end defaults) (object_of file)) overrides,
  property-spread key (spread end defaults) (object_of file),
  property-spread key end defaults,
  or_value-none (property key defaults),
)

last_definition-keep_foreign :
    (n : String) (items : Items)
    → last_definition n (keep_foreign items)
      ≡ (if is_managed n then none else last_definition n items)
unfolding last_definition keep_foreign
last_definition-keep_foreign n nil = ground arith
last_definition-keep_foreign n (cons v vs) = elim (Option-cases (as_env_entry v)) [
  | inl other ↦ rw (other, last_definition-keep_foreign n vs) (ground arith)
  | inr (e, entry) ↦
      rw entry (ground (arith, entry, last_definition-keep_foreign n vs, eq_iff e.name n))
]

items_of-put_back :
    (kept : Items) (current : Fields)
    → items_of (property claude_env_setting_key (put_back kept current)) ≡ kept
unfolding property
items_of-put_back nil current = rw (property-without claude_env_setting_key _ current) refl
items_of-put_back (cons v vs) current =
    rw (property-set_property claude_env_setting_key _ _ current) refl

property-put_back :
    (key : String) (kept : Items) (current : Fields)
    → claude_env_setting_key ≢ key
    → property key (put_back kept current) ≡ property key current
property-put_back key nil current h =
    ground (
      arith,
      property-without key claude_env_setting_key current,
      eq_iff claude_env_setting_key key,
    )
property-put_back key (cons v vs) current h = ground (
  arith,
  property-set_property key claude_env_setting_key (arr (cons v vs)) current,
  eq_iff claude_env_setting_key key,
)

-- The list of variables that an object's settings hold.
abbrev pub entries : Fields → Items
entries current = items_of (property claude_env_setting_key current)

abbrev kept : Fields → Items
kept current = keep_foreign (entries current)

-- The object that is left when the file of an object is cleared.
abbrev pub cleared : Fields → Fields
cleared current = object_of (clear_managed_settings (some (obj current)))

-- After the entries are cleared, the settings define no variable that Yuhi manages, and every other
-- variable and every other setting as before.
pub clear_keeps :
    (n key : String) (current : Fields)
    → (last_definition n (entries (cleared current))
        ≡ (if is_managed n then none else last_definition n (entries current)))
      × (claude_env_setting_key ≢ key → property key (cleared current) ≡ property key current)
unfolding clear_managed_settings
clear_keeps n key current = (
  rw (items_of-put_back (kept current) current) (last_definition-keep_foreign n (entries current)),
  property-put_back key (kept current) current,
)
