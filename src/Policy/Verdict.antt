-- ===== src/Policy/Verdict.antt =====
-- packages/policy/src/resolve.ts: the verdict on a file that the rules and the name of the file give.
-- The variables that the loop over a file assigns are a `Verdict`, and each block of assignments is
-- a function on it.
use yuhi.Prelude.{
  String, ◌+++◌, str_eq, Bool, ◌&&◌, ◌||◌, Option, none, some, get_or, List, [], ◌∷◌, leb, ltb,
  if◌then◌else◌,
}
use yuhi.Policy.Action.{
  Action, prepare_locally, local_only, action_rank, action_name, same_action, Destination, external,
  local, most_restrictive,
}
use yuhi.Policy.Capability.{ProcessorSpec, id}
use yuhi.Policy.Path.{environment_file, structured_credential_file, private_key_file}
use yuhi.Policy.Match.{MatchableFile, PolicyRule, Picomatch, Via, path, detector, rule_matches}

pub record PolicyInput : Type 0 where
  pub default_action : Action
  pub rules : List PolicyRule
  pub interactive : Bool

pub record Verdict : Type 0 where
  pub action : Action
  pub winning_rule : String
  pub reason : String
  pub destinations : Option (List Destination)
  pub processors : Option (List ProcessorSpec)

unfoldable pub default_verdict : PolicyInput → Verdict
default_verdict input = record {
  action = input.default_action;
  winning_rule = "default";
  reason = "Default action (" +++ (action_name input.default_action +++ ").");
  destinations = none;
  processors = none;
}

abbrev pub via_name : Via → String
via_name path = "path"
via_name detector = "detector"

abbrev matched_reason : PolicyRule → Via → String
matched_reason rule via =
    "Matched rule \""
    +++ (rule.name
        +++ ("\" via " +++ (via_name via +++ (" → " +++ (action_name rule.action +++ ".")))))

-- A rule that matched becomes the winner if it is strictly more restrictive than the action so far,
-- or as restrictive while no rule has won yet.
abbrev pub becomes_winner : Verdict → PolicyRule → Bool
becomes_winner v rule =
    leb (action_rank v.action) (action_rank rule.action)
    && same_action rule.action (most_restrictive v.action rule.action)
    && (ltb (action_rank v.action) (action_rank rule.action) || str_eq v.winning_rule "default")

unfoldable pub apply_match : Verdict → PolicyRule → Option Via → Verdict
unfolding most_restrictive
apply_match v rule none = v
apply_match v rule (some via) =
    let next = most_restrictive v.action rule.action in
    if becomes_winner v rule
    then record {
      action = next;
      winning_rule = rule.name;
      reason = get_or rule.reason (matched_reason rule via);
      destinations = rule.destinations;
      processors = rule.processors;
    }
    else record v { action = next }

unfoldable pub apply_rules : Picomatch → MatchableFile → List PolicyRule → Verdict → Verdict
apply_rules picomatch file [] v = v
apply_rules picomatch file (rule ∷ rules) v =
    apply_rules picomatch file rules (apply_match v rule (rule_matches picomatch rule file))

abbrev pub both : List Destination
both = external ∷ local ∷ []

unfoldable pub upgrade_environment : String → Verdict → Verdict
upgrade_environment relpath v =
    if environment_file relpath && str_eq v.winning_rule "block-environment-files"
    then record {
      action = prepare_locally;
      winning_rule = "yuhi:environment-sanitized-copy";
      reason =
          "Environment configuration will be sanitized locally; secret values stay on this computer.";
      destinations = some both;
      processors = some (id "sanitize-environment" ∷ id "safety-check" ∷ []);
    }
    else v

abbrev pub is_legacy_rule : String → Bool
is_legacy_rule name =
    str_eq name "block-environment-files"
    || str_eq name "block-credential-files"
    || str_eq name "block-secret-directories"

unfoldable pub upgrade_credentials : String → Verdict → Verdict
upgrade_credentials relpath v =
    if structured_credential_file relpath && is_legacy_rule v.winning_rule
    then record {
      action = prepare_locally;
      winning_rule = "yuhi:credential-sanitized-copy";
      reason =
          "Credential configuration will be sanitized locally; secret values stay on this computer.";
      destinations = some both;
      processors = some (id "sanitize-credentials" ∷ id "safety-check" ∷ []);
    }
    else v

unfoldable pub keep_private_keys : String → Verdict → Verdict
keep_private_keys relpath v =
    if private_key_file relpath
    then record {
      action = local_only;
      winning_rule = "file-type:private-key-local-only";
      reason =
          "Private key files stay on this computer and are never copied to the Prepared Workspace.";
      destinations = some (local ∷ []);
      processors = none;
    }
    else v
