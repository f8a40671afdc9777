-- ===== src/Native/SettingsFile.antt =====
-- packages/context-gateway/src/native/settings-merge.ts: the settings file of the isolated profile.
-- A file is the value that it parses to, or `none` where it is missing or corrupt.
pub mod Laws
use yuhi.Prelude.{
  String, str_eq, Bool, false, not, Option, none, some, List, [], ◌∷◌, if◌then◌else◌,
}
use yuhi.Native.Settings.{
  Value, arr, obj, Items, nil, cons, Fields, end, field, property, as_env_entry,
  EnvironmentVariableEntry, NativeGuiEnvironment, is_managed, items_of, merge_environment_variables,
}

abbrev pub claude_env_setting_key : String
claude_env_setting_key = "claudeCode.environmentVariables"

-- `delete o[key]`
unfoldable pub without : String → Fields → Fields
without key end = end
without key (field k v fs) =
    let rest = without key fs in if str_eq k key then rest else field k v rest

-- `o[key] = w`: in place where the key is there, else at the end.
unfoldable pub set_property : String → Value → Fields → Fields
unfolding without
set_property key w end = field key w end
set_property key w (field k v fs) =
    if str_eq k key then field k w (without key fs) else field k v (set_property key w fs)

-- `{ ...base, ...more }`
unfoldable pub spread : Fields → Fields → Fields
unfolding set_property
spread base end = base
spread base (field k v more) = spread (set_property k v base) more

abbrev pub values : List EnvironmentVariableEntry → Items
values [] = nil
values (e ∷ es) = cons e.whole (values es)

-- The object that a file holds, for `applyManagedSettings`.
abbrev pub object_of : Option Value → Fields
object_of (some (obj fs)) = fs
object_of _ = end

-- The settings that `applyManagedSettings` writes and returns.
unfoldable pub apply_managed_settings :
    Option Value → NativeGuiEnvironment → Fields → Fields → Fields
unfolding spread
apply_managed_settings file managed defaults overrides =
    let current = object_of file in
    let next = spread (spread (spread end defaults) current) overrides in
    set_property claude_env_setting_key
      (arr (values (merge_environment_variables (property claude_env_setting_key current) managed)))
      next

abbrev pub is_foreign_entry : Option EnvironmentVariableEntry → Bool
is_foreign_entry none = false
is_foreign_entry (some e) = not (is_managed e.name)

-- `filter((e) => isEnvEntry(e) && !managedNames.has(e.name))`
unfoldable pub keep_foreign : Items → Items
keep_foreign nil = nil
keep_foreign (cons v vs) =
    let rest = keep_foreign vs in if is_foreign_entry (as_env_entry v) then cons v rest else rest

abbrev pub put_back : Items → Fields → Fields
put_back nil current = without claude_env_setting_key current
put_back (cons v vs) current = set_property claude_env_setting_key (arr (cons v vs)) current

-- A file that holds no object is left as it is.
unfoldable pub clear_managed_settings : Option Value → Option Value
unfolding keep_foreign
clear_managed_settings (some (obj current)) =
    some
      (obj (put_back (keep_foreign (items_of (property claude_env_setting_key current))) current))
clear_managed_settings file = file
