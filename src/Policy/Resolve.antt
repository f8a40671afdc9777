-- ===== src/Policy/Resolve.antt =====
-- packages/policy/src/resolve.ts: one decision for each file. The blocks of assignments of the loop
-- are composed in the order of the source.
pub mod Precedence
pub mod Exposure
pub mod Unverified
use yuhi.Prelude.{
  String, ◌+++◌, str_eq, starts_with, Bool, true, false, not, ◌&&◌, ◌||◌, Option, none, some,
  get_or, List, [], ◌∷◌, map, any, filter, leb, ltb, if◌then◌else◌,
}
use yuhi.Text.{join}
use yuhi.Policy.Action.{
  Action, allow, redact, prepare_locally, local_only, ask, block, action_rank, action_name,
  same_action, Destination, external, local, most_restrictive, default_destinations,
}
use yuhi.Policy.Capability.{
  SupportedFileType, text, csv, tsv, pdf, xlsx, binary, ProcessorSpec, id, FileCapabilities,
  file_capabilities, processor_supported,
}
use yuhi.Policy.Path.{
  environment_file, structured_credential_file, private_key_file, credential_rule_name,
}
use yuhi.Policy.Match.{
  critical, high, Severity, ScanFinding, FileInspection, DocumentExtractionMethod, ocr,
  MatchableFile, PolicyRule, Picomatch, Via, path, detector, rule_matches,
}
use yuhi.Policy.Verdict.{
  PolicyInput, Verdict, apply_match, apply_rules, becomes_winner, both, default_verdict,
  is_legacy_rule, keep_private_keys, upgrade_credentials, upgrade_environment,
}
use yuhi.Policy.Gate.{
  capabilities_of, credential_route, detector_ids, distinct, gate, gate_unverified, gate_verified,
  has_findings, inspected_pdf, is_pdf, is_plain_type, is_unverified, pdf_personal_finding,
  pdf_secret_finding, sensitive_tabular_data, some_unsupported, tabular_direct_identifiers,
  transformable_unverified,
}

unfoldable pub degrade_ask : Bool → Verdict → Verdict
degrade_ask interactive v =
    if same_action v.action ask && not interactive
    then record v {
      action = block;
      reason = v.reason +++ " Resolved to block (non-interactive).";
      winning_rule = if str_eq v.winning_rule "default" then "ask→block" else v.winning_rule;
    }
    else v

pub record FileDecision : Type 0 where
  pub relpath : String
  pub action : Action
  pub rule_name : String
  pub reason : String
  pub destinations : List Destination
  pub findings : List ScanFinding
  pub processors : Option (List ProcessorSpec)

abbrev pub pipeline : Action → Option (List ProcessorSpec) → Option (List ProcessorSpec)
pipeline prepare_locally ps = ps
pipeline _ ps = none

unfoldable pub decision_of : MatchableFile → Verdict → FileDecision
decision_of file v = record {
  relpath = file.relpath;
  action = v.action;
  rule_name = v.winning_rule;
  reason = v.reason;
  destinations = get_or v.destinations (default_destinations v.action);
  findings = file.findings;
  processors = pipeline v.action v.processors;
}

module _ (picomatch : Picomatch) (extension : String → String) (input : PolicyInput) where
  -- The verdict after the rules and the three routes by name, before the inspection is looked at.
  unfoldable pub routed : MatchableFile → Verdict
  routed file = keep_private_keys file.relpath (
      upgrade_credentials file.relpath (
        upgrade_environment file.relpath
          (apply_rules picomatch file input.rules (default_verdict input))))

  unfoldable pub explain_file : MatchableFile → FileDecision
  explain_file file =
      decision_of file
        (degrade_ask input.interactive (gate (capabilities_of extension file) file (routed file)))

  -- `decisions`; `byAction[a]` is the decisions whose action is `a`, in order.
  unfoldable pub resolve_policy : List MatchableFile → List FileDecision
  resolve_policy files = map explain_file files

  unfoldable pub by_action : Action → List MatchableFile → List FileDecision
  unfolding resolve_policy filter
  by_action a files = filter (λ (d : FileDecision). same_action d.action a) (resolve_policy files)
