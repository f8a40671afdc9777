-- ===== src/Policy/Action.antt =====
-- packages/shared/src/actions.ts: the actions of a policy and how restrictive each is.
use yuhi.Prelude.{
  ℕ, String, str_eq, Bool, true, false, Option, none, some, List, [], ◌∷◌, leb, ◌==◌, if◌then◌else◌,
}

pub data Action : Type 0 where
  allow metadata_only summarize_local redact prepare_locally : Action
  inject local_only ask block : Action

-- `ACTION_RANK`: a higher number is more restrictive.
abbrev pub action_rank : Action → ℕ
action_rank allow = 0
action_rank metadata_only = 1
action_rank summarize_local = 2
action_rank redact = 3
action_rank prepare_locally = 4
action_rank inject = 5
action_rank local_only = 6
action_rank ask = 7
action_rank block = 8

abbrev pub action_name : Action → String
action_name allow = "allow"
action_name metadata_only = "metadata-only"
action_name summarize_local = "summarize-local"
action_name redact = "redact"
action_name prepare_locally = "prepare-locally"
action_name inject = "inject"
action_name local_only = "local-only"
action_name ask = "ask"
action_name block = "block"

-- `===` on two actions.
abbrev pub same_action : Action → Action → Bool
same_action a b = action_rank a == action_rank b

-- `ACTIONS.includes(name)`, else the entry of `ACTION_ALIASES`. A name such as `constructor`, which
-- the source finds on the prototype of the alias table, is not modelled.
unfoldable pub normalize_action : String → Option Action
normalize_action name =
    if str_eq name "allow"
    then some allow
    else if str_eq name "metadata-only"
    then some metadata_only
    else if str_eq name "summarize-local"
    then some summarize_local
    else if str_eq name "redact"
    then some redact
    else if str_eq name "prepare-locally"
    then some prepare_locally
    else if str_eq name "inject"
    then some inject
    else if str_eq name "local-only"
    then some local_only
    else if str_eq name "ask"
    then some ask
    else if str_eq name "block"
    then some block
    else if str_eq name "send"
    then some allow
    else if str_eq name "send-directly"
    then some allow
    else if str_eq name "remove-secrets"
    then some redact
    else if str_eq name "local-ai"
    then some summarize_local
    else if str_eq name "runtime-only"
    then some inject
    else if str_eq name "keep-local"
    then some local_only
    else if str_eq name "exclude"
    then some block
    else none

pub data Destination : Type 0 where
  external local : Destination

unfoldable pub most_restrictive : Action → Action → Action
most_restrictive a b = if leb (action_rank b) (action_rank a) then a else b

unfoldable pub is_visible_to_external_agent : Action → Bool
is_visible_to_external_agent allow = true
is_visible_to_external_agent redact = true
is_visible_to_external_agent prepare_locally = true
is_visible_to_external_agent _ = false

-- `defaultDestinations` of packages/policy/src/resolve.ts.
unfoldable pub default_destinations : Action → List Destination
default_destinations allow = external ∷ local ∷ []
default_destinations redact = external ∷ local ∷ []
default_destinations prepare_locally = external ∷ local ∷ []
default_destinations metadata_only = external ∷ local ∷ []
default_destinations summarize_local = external ∷ local ∷ []
default_destinations local_only = local ∷ []
default_destinations inject = []
default_destinations block = []
default_destinations ask = []
