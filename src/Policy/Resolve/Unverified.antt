-- ===== src/Policy/Resolve/Unverified.antt =====
-- What becomes of content that was not verified, or that was found to be sensitive.
use yuhi.Prelude.{
  List, ◌∷◌, [], ◌++◌, starts_with, inl, inr, Bool-cases, any, String, str_eq, eq_iff, ◌≡◌, refl,
  ◌≢◌, ◌⊎◌, Bool, true, false, arith,
}
use yuhi.Policy.Action.{allow, local_only, ask, block, is_visible_to_external_agent}
use yuhi.Policy.Path.{credential_rule_name}
use yuhi.Policy.Match.{FileInspection, MatchableFile, Picomatch, ScanFinding, high, critical}
use yuhi.Policy.Capability.{pdf}
use yuhi.Policy.Verdict.{PolicyInput, Verdict}
use yuhi.Policy.Gate.{
  sensitive_tabular_data, capabilities_of, inspected_pdf, pdf_secret_finding, pdf_personal_finding,
  is_unverified, is_plain_type, is_pdf, is_secret, gate_unverified, gate_verified, gate,
}
use yuhi.Policy.Resolve.{degrade_ask, FileDecision, decision_of, routed, explain_file}

degrade_ask-action :
    (interactive : Bool) (v : Verdict)
    → ((degrade_ask interactive v).action ≡ v.action)
      ⊎ ((v.action ≡ ask) × ((degrade_ask interactive v).action ≡ block))
unfolding degrade_ask
degrade_ask-action interactive v = ground arith

degrade_ask-ne-ask : (v : Verdict) → (degrade_ask false v).action ≢ ask
unfolding degrade_ask
degrade_ask-ne-ask v = ground arith

key_name : credential_rule_name "file-type:private-key-local-only" ≡ true
unfolding credential_rule_name
key_name = refl

-- A rule name that speaks of no credential is not that of the private key route.
not_key_name :
    (name : String)
    → credential_rule_name name ≡ false
    → str_eq name "file-type:private-key-local-only" ≡ false
not_key_name name h = ground (arith, key_name, eq_iff name "file-type:private-key-local-only")

gate_unverified-kept :
    (c : FileInspection) (sensitive : Bool) (v : Verdict)
    → is_plain_type c.file_type ≡ false
    → credential_rule_name v.winning_rule ≡ false
    → ((gate_unverified c sensitive v).action ≡ local_only)
      ⊎ ((gate_unverified c sensitive v).action ≡ block)
unfolding gate_unverified
gate_unverified-kept c sensitive v h k = ground (arith, not_key_name v.winning_rule k)

gate_verified-secret :
    (c : FileInspection) (file : MatchableFile) (v : Verdict)
    → pdf_secret_finding c file ≡ true
    → (gate_verified c file v).action ≡ local_only
unfolding gate_verified
gate_verified-secret c file v h = rw (gate_verified, h)

secret_in :
    (f : ScanFinding) (before after : List ScanFinding)
    → (f.severity ≡ high) ⊎ (f.severity ≡ critical)
    → starts_with f.detector "document-personal-" ≡ false
    → any is_secret (before ++ (f ∷ after)) ≡ true
unfolding any
secret_in f [] after severe impersonal = elim severe [
  | inl h ↦ ground (arith, h, impersonal)
  | inr c ↦ ground (arith, c, impersonal)
]
secret_in f (g ∷ before) after severe impersonal =
    ground (arith, secret_in f before after severe impersonal)

secret_found :
    (c : FileInspection) (file : MatchableFile) (f : ScanFinding) (before after : List ScanFinding)
    → file.findings ≡ before ++ (f ∷ after)
    → (f.severity ≡ high) ⊎ (f.severity ≡ critical)
    → starts_with f.detector "document-personal-" ≡ false
    → c.file_type ≡ pdf
    → is_unverified c ≡ false
    → pdf_secret_finding c file ≡ true
unfolding pdf_secret_finding inspected_pdf
secret_found c file f before after found severe impersonal type verified =
    rw (found, secret_in f before after severe impersonal, type) (ground (arith, verified))

gate_verified-tabular :
    (c : FileInspection) (file : MatchableFile) (v : Verdict)
    → is_pdf c.file_type ≡ false
    → sensitive_tabular_data file ≡ true
    → (gate_verified c file v).action ≢ allow
unfolding gate_verified pdf_secret_finding pdf_personal_finding inspected_pdf
gate_verified-tabular c file v h k = ground arith

gate_unverified-tabular :
    (c : FileInspection) (sensitive : Bool) (v : Verdict)
    → credential_rule_name v.winning_rule ≡ false
    → (gate_unverified c sensitive v).action ≢ allow
unfolding gate_unverified
gate_unverified-tabular c sensitive v k = ground (arith, not_key_name v.winning_rule k)

decision-action :
    (picomatch : Picomatch) (extension : String → String) (input : PolicyInput)
    (file : MatchableFile)
    → (explain_file picomatch extension input file).action
      ≡ (degrade_ask input.interactive (
          gate
            (capabilities_of extension file)
            file
            (routed picomatch extension input file))).action
unfolding explain_file decision_of
decision-action picomatch extension input file = refl

module _ (picomatch : Picomatch) (extension : String → String) (input : PolicyInput)
    (file : MatchableFile) where
  abbrev v : Verdict
  v = routed picomatch extension input file

  abbrev c : FileInspection
  c = capabilities_of extension file

  abbrev decision : FileDecision
  decision = explain_file picomatch extension input file

  -- With nobody to ask, no decision is left to be asked.
  pub decided_without_asking : input.interactive ≡ false → decision.action ≢ ask
  decided_without_asking h =
      rw (decision-action picomatch extension input file, h) (degrade_ask-ne-ask _)

  pub unverified_hidden :
      is_unverified c ≡ true
      → is_plain_type c.file_type ≡ false
      → credential_rule_name v.winning_rule ≡ false
      → is_visible_to_external_agent decision.action ≡ false
  unfolding gate is_visible_to_external_agent
  unverified_hidden h k n = ground (
    arith,
    decision-action picomatch extension input file,
    gate_unverified-kept c (sensitive_tabular_data file) v k n,
    degrade_ask-action input.interactive (gate c file v),
  )

  -- A PDF in which something other than personal data was found at severity high or critical is not
  -- shown to the external agent under any policy, whether its content was verified or not, unless
  -- the rule that decided it is named after credentials.
  pub secret_pdf_stays :
      (f : ScanFinding) (before after : List ScanFinding)
      → file.findings ≡ before ++ (f ∷ after)
      → (f.severity ≡ high) ⊎ (f.severity ≡ critical)
      → starts_with f.detector "document-personal-" ≡ false
      → c.file_type ≡ pdf
      → credential_rule_name v.winning_rule ≡ false
      → is_visible_to_external_agent decision.action ≡ false
  unfolding gate is_visible_to_external_agent
  secret_pdf_stays f before after found severe impersonal type n =
      elim (Bool-cases (is_unverified c)) [
        | inl unverified ↦ unverified_hidden unverified (rw type refl) n
        | inr verified ↦ ground (
          arith,
          verified,
          decision-action picomatch extension input file,
          gate_verified-secret c file v
              (secret_found c file f before after found severe impersonal type verified),
          degrade_ask-action input.interactive (gate c file v),
        )
      ]

  -- A file other than a PDF with a tabular finding is never sent as it is, unless it is unverified
  -- and the rule that decided it is named after credentials.
  pub tabular_never_allowed :
      is_pdf c.file_type ≡ false
      → sensitive_tabular_data file ≡ true
      → (is_unverified c ≡ false) ⊎ (credential_rule_name v.winning_rule ≡ false)
      → decision.action ≢ allow
  unfolding gate
  tabular_never_allowed h k u = ground (
    arith,
    decision-action picomatch extension input file,
    gate_verified-tabular c file v h k,
    gate_unverified-tabular c (sensitive_tabular_data file) v,
    degrade_ask-action input.interactive (gate c file v),
  )
