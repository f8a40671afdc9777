-- ===== src/Native/Settings.antt =====
-- packages/context-gateway/src/native/settings-merge.ts: merging the gateway's environment into the
-- settings of the isolated profile. A parsed JSON value is a `Value`; no number in it is read.
pub mod Merge
pub mod Unique
use yuhi.Prelude.{
  ℕ, String, str_eq, Bool, true, false, not, ◌&&◌, ◌||◌, Option, none, some, List, [], ◌∷◌, ◌++◌,
  map, if◌then◌else◌, any,
}

mutual
  pub data Value : Type 0 where
    null : Value
    bool : Bool → Value
    num : ℕ → Value
    str : String → Value
    arr : Items → Value
    obj : Fields → Value

  pub data Fields : Type 0 where
    end : Fields
    field : String → Value → Fields → Fields

  pub data Items : Type 0 where
    nil : Items
    cons : Value → Items → Items

-- `raw[key]`: of a key that a text repeats, `JSON.parse` keeps the last value.
unfoldable pub property : String → Fields → Option Value
property key end = none
property key (field k v fs) =
    let later = property key fs in
    elim later [ some w ↦ some w | none ↦ if str_eq k key then some v else none ]

abbrev pub text_of : Option Value → Option String
text_of (some (str s)) = some s
text_of _ = none

-- An object with texts `name` and `value` is an entry; the whole object is kept beside them.
pub record EnvironmentVariableEntry : Type 0 where
  pub name : String
  pub value : String
  pub whole : Value

abbrev both_texts : Option String → Option String → Value → Option EnvironmentVariableEntry
both_texts (some n) (some v) w = some (record { name = n; value = v; whole = w })
both_texts _ _ w = none

-- `isEnvEntry(value)`, with the entry that the value then is. Arrays have neither property.
unfoldable pub as_env_entry : Value → Option EnvironmentVariableEntry
unfolding property
as_env_entry (obj fs) =
    both_texts (text_of (property "name" fs)) (text_of (property "value" fs)) (obj fs)
as_env_entry _ = none

pub record NativeGuiEnvironment : Type 0 where
  pub anthropic_base_url : String
  pub yuhi_session_id : String
  pub yuhi_context_root : String
  pub yuhi_dynamic_context : String
  pub yuhi_client_surface : String
  pub yuhi_delivery_mode : String
  pub yuhi_privacy_mode : String
  pub yuhi_retrieval_mode : String

-- `YUHI_MANAGED_ENV_KEYS`, with each key's value in an environment.
unfoldable pub managed_entries : NativeGuiEnvironment → List (String × String)
managed_entries e =
    ("ANTHROPIC_BASE_URL", e.anthropic_base_url)
    ∷ ("YUHI_SESSION_ID", e.yuhi_session_id)
    ∷ ("YUHI_CONTEXT_ROOT", e.yuhi_context_root)
    ∷ ("YUHI_DYNAMIC_CONTEXT", e.yuhi_dynamic_context)
    ∷ ("YUHI_CLIENT_SURFACE", e.yuhi_client_surface)
    ∷ ("YUHI_DELIVERY_MODE", e.yuhi_delivery_mode)
    ∷ ("YUHI_PRIVACY_MODE", e.yuhi_privacy_mode)
    ∷ ("YUHI_RETRIEVAL_MODE", e.yuhi_retrieval_mode)
    ∷ []

unfoldable pub managed_names : List String
managed_names =
    "ANTHROPIC_BASE_URL" ∷ "YUHI_SESSION_ID" ∷ "YUHI_CONTEXT_ROOT" ∷ "YUHI_DYNAMIC_CONTEXT"
    ∷ "YUHI_CLIENT_SURFACE" ∷ "YUHI_DELIVERY_MODE" ∷ "YUHI_PRIVACY_MODE" ∷ "YUHI_RETRIEVAL_MODE"
    ∷ []

-- `managedNames.has(name)`
unfoldable pub is_managed : String → Bool
unfolding any managed_names
is_managed name = any (λ k. str_eq k name) managed_names

unfoldable pub native_gui_environment :
    String → String → String → String → String → String → NativeGuiEnvironment
native_gui_environment gateway_url session_id context_root delivery_mode privacy_mode
      retrieval_mode =
    record {
      anthropic_base_url = gateway_url;
      yuhi_session_id = session_id;
      yuhi_context_root = context_root;
      yuhi_dynamic_context = "1";
      yuhi_client_surface = "native-gui";
      yuhi_delivery_mode = delivery_mode;
      yuhi_privacy_mode = privacy_mode;
      yuhi_retrieval_mode = retrieval_mode;
    }

-- `seen` holds the place of each name in `foreign`: a new name is pushed, a repeated one replaces
-- the entry at its place.
unfoldable pub place :
    EnvironmentVariableEntry → List EnvironmentVariableEntry → List EnvironmentVariableEntry
place item [] = item ∷ []
place item (e ∷ es) = if str_eq e.name item.name then item ∷ es else e ∷ place item es

-- One round of the loop over the existing items.
unfoldable pub keep_item :
    List EnvironmentVariableEntry → Option EnvironmentVariableEntry → List EnvironmentVariableEntry
unfolding is_managed place
keep_item foreign none = foreign
keep_item foreign (some item) = if is_managed item.name then foreign else place item foreign

unfoldable pub keep_items : List EnvironmentVariableEntry → Items → List EnvironmentVariableEntry
unfolding keep_item as_env_entry
keep_items foreign nil = foreign
keep_items foreign (cons v vs) = keep_items (keep_item foreign (as_env_entry v)) vs

abbrev pub written : String × String → EnvironmentVariableEntry
written e = record {
  name = e.0;
  value = e.1;
  whole = obj (field "name" (str e.0) (field "value" (str e.1) end));
}

-- `Array.isArray(existing)`, for a setting that may be missing.
abbrev pub items_of : Option Value → Items
items_of (some (arr items)) = items
items_of _ = nil

unfoldable pub merge_environment_variables :
    Option Value → NativeGuiEnvironment → List EnvironmentVariableEntry
unfolding keep_items managed_entries
merge_environment_variables existing managed =
    keep_items [] (items_of existing) ++ map written (managed_entries managed)
