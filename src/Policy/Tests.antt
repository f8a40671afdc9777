-- ===== src/Policy/Tests.antt =====
-- The theorems on the resolution of a policy at concrete files and rules.
use yuhi.Prelude.{
  String, str_eq, ◌≡◌, refl, ◌⊎◌, inr, Bool, true, false, Option, none, some, List, [], ◌∷◌, any,
  if◌then◌else◌,
}
use Prim.Native.Nat.{max}
use yuhi.Policy.Action.{Action, allow, local_only, action_rank, local, is_visible_to_external_agent}
use yuhi.Policy.Capability.{SupportedFileType, pdf, text_transformers}
use yuhi.Policy.Path.{
  private_key_file, environment_file, structured_credential_file, credential_rule_name,
}
use yuhi.Policy.Match.{
  Severity, critical, ScanFinding, FileInspection, MatchableFile, PolicyRule, Picomatch,
  rule_matches,
}
use yuhi.Policy.Verdict.{
  PolicyInput, default_verdict, apply_match, apply_rules, upgrade_environment, upgrade_credentials,
  keep_private_keys,
}
use yuhi.Policy.Gate.{capabilities_of}
use yuhi.Policy.Resolve.{routed, explain_file}
use yuhi.Policy.Resolve.Precedence.{
  strictest_match, apply_rules-strictest, IsDecided, apply_rules-IsDecided,
}
use yuhi.Policy.Resolve.Exposure.{private_key_stays}
use yuhi.Policy.Resolve.Unverified.{secret_pdf_stays}

-- A matcher for patterns without wildcards.
abbrev exact : Picomatch
exact patterns path = any (λ p. str_eq p path) patterns

abbrev extension : String → String
extension path =
    if str_eq path "scan.pdf" then ".pdf" else if str_eq path "grades.csv" then ".csv" else ".txt"

abbrev rule : String → String → Action → PolicyRule
rule name path action = record {
  name = name;
  paths = path ∷ [];
  detectors = [];
  action = action;
  reason = none;
  destinations = none;
  processors = none;
}

abbrev policy : Action → List PolicyRule → PolicyInput
policy action rules = record { default_action = action; rules = rules; interactive = false }

abbrev finding : String → Severity → ScanFinding
finding detector severity = record {
  detector = detector;
  path = "";
  line = none;
  severity = severity;
  masked_preview = "";
  description = "";
}

abbrev file_of : String → List ScanFinding → Option FileInspection → MatchableFile
file_of relpath findings inspection = record {
  relpath = relpath;
  findings = findings;
  inspection = inspection;
  extraction_method = none;
}

-- An inspection by a parser and a scanner that are there, which verified the content or did not.
abbrev inspection : SupportedFileType → Bool → Option FileInspection
inspection type verified = some (record {
  capabilities = record {
    file_type = type;
    parser_available = true;
    scanner_available = true;
    transformers = text_transformers;
    verifier_available = true;
  };
  inspection_attempted = true;
  inspection_succeeded = verified;
  content_verified = verified;
})

abbrev rules : List PolicyRule
rules = rule "share-notes" "notes.txt" allow ∷ rule "keep-notes" "notes.txt" local_only ∷ []

abbrev notes : MatchableFile
notes = file_of "notes.txt" [] none

apply_rules-strictest_example :
    action_rank (apply_rules exact notes rules (default_verdict (policy allow rules))).action
    ≡ max
        (action_rank (default_verdict (policy allow rules)).action)
        (strictest_match exact notes rules)
apply_rules-strictest_example =
    apply_rules-strictest exact notes rules (default_verdict (policy allow rules))

apply_rules-IsDecided_example :
    (apply_rules exact notes rules (default_verdict (policy allow rules))
      ≡ default_verdict (policy allow rules))
    ⊎ IsDecided exact notes rules
        (apply_rules exact notes rules (default_verdict (policy allow rules)))
apply_rules-IsDecided_example =
    apply_rules-IsDecided exact notes rules (default_verdict (policy allow rules))

abbrev key_file : MatchableFile
key_file = file_of "deploy/server.pem" [] none

private_key_stays_example :
    ((explain_file exact extension (policy allow []) key_file).action ≡ local_only)
    × ((explain_file exact extension (policy allow []) key_file).destinations ≡ local ∷ [])
    × ((explain_file exact extension (policy allow []) key_file).processors ≡ none)
unfolding private_key_file
private_key_stays_example = private_key_stays exact extension (policy allow []) key_file refl

abbrev scan : List ScanFinding → Option FileInspection → MatchableFile
scan findings inspection = file_of "scan.pdf" findings inspection

abbrev leaked : MatchableFile
leaked = scan (finding "aws-access-key" critical ∷ []) (inspection pdf true)

secret_pdf_stays_example :
    is_visible_to_external_agent (explain_file exact extension (policy allow []) leaked).action
    ≡ false
unfolding capabilities_of credential_rule_name routed keep_private_keys private_key_file
    upgrade_credentials structured_credential_file upgrade_environment environment_file apply_rules
    apply_match rule_matches default_verdict
secret_pdf_stays_example =
    secret_pdf_stays exact extension (policy allow []) leaked (finding "aws-access-key" critical) []
      [] refl (inr refl) refl refl refl
