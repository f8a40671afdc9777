-- ===== src/Policy/Gate.antt =====
-- packages/policy/src/resolve.ts: what the inspection of a file's content makes of its verdict.
use yuhi.Prelude.{
  String, ◌+++◌, str_eq, starts_with, Bool, true, false, not, ◌&&◌, ◌||◌, Option, none, some,
  get_or, List, [], ◌∷◌, map, any, ltb, if◌then◌else◌,
}
use yuhi.Text.{join}
use yuhi.Policy.Action.{
  allow, redact, prepare_locally, local_only, block, action_rank, same_action, local,
}
use yuhi.Policy.Capability.{
  SupportedFileType, text, csv, tsv, pdf, xlsx, binary, ProcessorSpec, id, FileCapabilities,
  file_capabilities, processor_supported,
}
use yuhi.Policy.Path.{credential_rule_name}
use yuhi.Policy.Match.{
  critical, high, Severity, ScanFinding, FileInspection, DocumentExtractionMethod, ocr,
  MatchableFile,
}
use yuhi.Policy.Verdict.{Verdict, both}

-- What the findings and the inspection of a file say.
unfoldable pub sensitive_tabular_data : MatchableFile → Bool
unfolding any
sensitive_tabular_data file =
    any (λ (f : ScanFinding). starts_with f.detector "tabular-") file.findings

unfoldable pub tabular_direct_identifiers : MatchableFile → Bool
unfolding any
tabular_direct_identifiers file =
    any (λ (f : ScanFinding). str_eq f.detector "tabular-direct-identifier-column") file.findings

abbrev from_registry : FileCapabilities → FileInspection
from_registry c = record {
  capabilities = c;
  inspection_attempted = c.parser_available;
  inspection_succeeded = c.parser_available;
  content_verified = c.parser_available;
}

-- `extension` is node's `path.extname`, in lower case.
unfoldable pub capabilities_of : (String → String) → MatchableFile → FileInspection
unfolding file_capabilities
capabilities_of extension file =
    get_or file.inspection (from_registry (file_capabilities (extension file.relpath) false))

abbrev pub is_pdf : SupportedFileType → Bool
is_pdf pdf = true
is_pdf _ = false

unfoldable pub inspected_pdf : FileInspection → Bool
inspected_pdf c = is_pdf c.file_type && c.content_verified

abbrev is_high_or_critical : Severity → Bool
is_high_or_critical high = true
is_high_or_critical critical = true
is_high_or_critical _ = false

abbrev pub is_secret : ScanFinding → Bool
is_secret f = is_high_or_critical f.severity && not (starts_with f.detector "document-personal-")

unfoldable pub pdf_secret_finding : FileInspection → MatchableFile → Bool
unfolding any inspected_pdf
pdf_secret_finding c file = inspected_pdf c && any is_secret file.findings

unfoldable pub pdf_personal_finding : FileInspection → MatchableFile → Bool
unfolding any inspected_pdf
pdf_personal_finding c file =
    inspected_pdf c
    && any (λ (f : ScanFinding). starts_with f.detector "document-personal-") file.findings

abbrev file_type_name : SupportedFileType → String
file_type_name text = "text"
file_type_name csv = "csv"
file_type_name tsv = "tsv"
file_type_name pdf = "pdf"
file_type_name xlsx = "xlsx"
file_type_name binary = "binary"

-- `fileType.toUpperCase()`
abbrev file_type_upper : SupportedFileType → String
file_type_upper text = "TEXT"
file_type_upper csv = "CSV"
file_type_upper tsv = "TSV"
file_type_upper pdf = "PDF"
file_type_upper xlsx = "XLSX"
file_type_upper binary = "BINARY"

abbrev pub is_unverified : FileInspection → Bool
is_unverified c = not c.parser_available || not c.scanner_available || not c.content_verified

abbrev pub credential_route : Verdict → Bool
credential_route v =
    same_action v.action block
    || str_eq v.winning_rule "file-type:private-key-local-only"
    || credential_rule_name v.winning_rule

abbrev pub is_plain_type : SupportedFileType → Bool
is_plain_type csv = true
is_plain_type tsv = true
is_plain_type text = true
is_plain_type _ = false

abbrev is_xlsx : SupportedFileType → Bool
is_xlsx xlsx = true
is_xlsx _ = false

abbrev transform_for : SupportedFileType → List ProcessorSpec
transform_for csv = id "pseudonymize-student-records" ∷ id "safety-check" ∷ []
transform_for tsv = id "pseudonymize-student-records" ∷ id "safety-check" ∷ []
transform_for xlsx = id "pseudonymize-student-records" ∷ id "safety-check" ∷ []
transform_for _ = id "pseudonymize" ∷ id "safety-check" ∷ []

abbrev pub transformable_unverified : FileInspection → Verdict → Bool
transformable_unverified c v =
    not (credential_route v) && c.parser_available && is_plain_type c.file_type

-- The branch for content that no parser, scanner or inspection has verified.
unfoldable pub gate_unverified : FileInspection → Bool → Verdict → Verdict
gate_unverified c sensitive v =
    if transformable_unverified c v
    then record {
      action = prepare_locally;
      winning_rule = "file-type:" +++ (file_type_name c.file_type +++ "-transform-unverified");
      reason =
          "File is de-identified locally; the size-limited scan could not pre-verify it, so the final artifact is re-scanned before it is trusted.";
      destinations = some both;
      processors = some (transform_for c.file_type);
    }
    else if not (credential_route v)
    then record {
      action = local_only;
      winning_rule =
          "file-type:"
          +++ (file_type_name c.file_type
              +++ (if c.parser_available
                  then "-inspection-incomplete"
                  else "-inspection-unavailable"));
      reason =
          if is_xlsx c.file_type && sensitive
          then "Restricted workbook kept local because verified local inspection and transformation are unavailable."
          else if c.parser_available
          then "File kept local because content inspection did not complete."
          else ("File kept local because verified local "
              +++ (file_type_upper c.file_type +++ " inspection is unavailable."));
      destinations = some (local ∷ []);
      processors = none;
    }
    else record v { processors = none }

abbrev is_ocr : Option DocumentExtractionMethod → Bool
is_ocr (some ocr) = true
is_ocr _ = false

abbrev pub some_unsupported : FileInspection → Option (List ProcessorSpec) → Bool
some_unsupported c none = false
some_unsupported c (some ps) = any (λ p. not (processor_supported c.capabilities p)) ps

-- `[...new Set(ids)]`
unfoldable pub distinct : List String → List String → List String
unfolding any
distinct seen [] = []
distinct seen (s ∷ rest) =
    let fresh = distinct (s ∷ seen) rest in
    let old = distinct seen rest in if any (λ t. str_eq t s) seen then old else s ∷ fresh

unfoldable pub detector_ids : MatchableFile → String
unfolding distinct
detector_ids file = join (distinct [] (map (λ (f : ScanFinding). f.detector) file.findings))

abbrev pub has_findings : List ScanFinding → Bool
has_findings [] = false
has_findings (f ∷ fs) = true

-- The rest of the ladder, for verified content.
unfoldable pub gate_verified : FileInspection → MatchableFile → Verdict → Verdict
unfolding inspected_pdf
gate_verified c file v =
    if pdf_secret_finding c file
    then record {
      action = local_only;
      winning_rule = "document:unresolved-secret-local-only";
      reason =
          "PDF inspection detected unresolved secret-like content; the original document stays local.";
      destinations = some (local ∷ []);
      processors = none;
    }
    else if pdf_personal_finding c file && str_eq v.winning_rule "default"
    then record {
      action = allow;
      winning_rule = "document:personal-information-warning";
      reason =
          "PDF was inspected locally and may contain personal information; included unchanged with a warning.";
      destinations = some both;
      processors = none;
    }
    else if inspected_pdf c && str_eq v.winning_rule "default" && same_action v.action allow
    then record {
      action = allow;
      winning_rule = "document:pdf-inspected";
      reason =
          if is_ocr file.extraction_method
          then "PDF was inspected locally with OCR and no security findings were detected."
          else "PDF text was inspected locally and no security findings were detected.";
      destinations = some both;
      processors = none;
    }
    else if some_unsupported c v.processors
    then record {
      action = local_only;
      winning_rule =
          "file-type:" +++ (file_type_name c.file_type +++ "-transformation-unavailable");
      reason =
          "File kept local because the selected transformation cannot be executed and verified for this file type.";
      destinations = some (local ∷ []);
      processors = none;
    }
    else if sensitive_tabular_data file
        && (str_eq v.winning_rule "default" || same_action v.action allow)
    then record {
      action = prepare_locally;
      winning_rule =
          if tabular_direct_identifiers file
          then "detector:tabular-auto-pseudonymize"
          else "detector:tabular-auto-aggregate";
      reason =
          if tabular_direct_identifiers file
          then "Sensitive tabular data detected; direct identifiers will be pseudonymized locally and the exact output rescanned."
          else "Sensitive associated tabular data detected; individual rows will be aggregated locally and the exact output rescanned.";
      destinations = some both;
      processors = some (
          if tabular_direct_identifiers file
          then id "pseudonymize-student-records" ∷ id "safety-check" ∷ []
          else (id "aggregate-student-records" ∷ id "safety-check" ∷ []));
    }
    else if has_findings file.findings
        && str_eq v.winning_rule "default"
        && ltb (action_rank v.action) (action_rank redact)
    then record v {
      action = redact;
      winning_rule = "detector:" +++ detector_ids file;
      reason =
          "Secret-like content detected (" +++ (detector_ids file +++ "); masked in the copy.");
      destinations = none;
    }
    else v

unfoldable pub gate : FileInspection → MatchableFile → Verdict → Verdict
gate c file v =
    if is_unverified c
    then gate_unverified c (sensitive_tabular_data file) v
    else gate_verified c file v
