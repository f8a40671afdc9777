-- ===== src/Policy/Capability.antt =====
-- packages/shared/src/file-capabilities.ts: what can be done with a file of a type. The extension
-- of a path is node's `path.extname`, in lower case, and is passed in.
use yuhi.Prelude.{String, str_eq, Bool, true, false, ◌||◌, List, [], ◌∷◌, any, if◌then◌else◌}

pub data SupportedFileType : Type 0 where
  text csv tsv pdf xlsx binary : SupportedFileType

-- A processor is named by its id, or by an object that has an id and options.
pub data ProcessorSpec : Type 0 where
  id : String → ProcessorSpec
  configured : String → ProcessorSpec

-- `===` of a processor that the registry lists and another: an object is never equal to a text.
abbrev pub same_processor : ProcessorSpec → ProcessorSpec → Bool
same_processor (id a) (id b) = str_eq a b
same_processor _ _ = false

pub record FileCapabilities : Type 0 where
  pub file_type : SupportedFileType
  pub parser_available : Bool
  pub scanner_available : Bool
  pub transformers : List ProcessorSpec
  pub verifier_available : Bool

abbrev pub text_transformers : List ProcessorSpec
text_transformers =
    id "pseudonymize"
    ∷ id "sanitize-environment"
    ∷ id "sanitize-credentials"
    ∷ id "summarize-local"
    ∷ id "safety-check"
    ∷ []

abbrev pub table_transformers : List ProcessorSpec
table_transformers =
    id "pseudonymize"
    ∷ id "pseudonymize-student-records"
    ∷ id "aggregate-student-records"
    ∷ id "summarize-local"
    ∷ id "safety-check"
    ∷ []

abbrev unsupported : SupportedFileType → FileCapabilities
unsupported t = record {
  file_type = t;
  parser_available = false;
  scanner_available = false;
  transformers = [];
  verifier_available = false;
}

abbrev supported : SupportedFileType → List ProcessorSpec → FileCapabilities
supported t transformers = record {
  file_type = t;
  parser_available = true;
  scanner_available = true;
  transformers = transformers;
  verifier_available = true;
}

unfoldable pub file_capabilities : String → Bool → FileCapabilities
file_capabilities extension is_binary =
    if str_eq extension ".pdf"
    then unsupported pdf
    else if str_eq extension ".xlsx"
    then supported xlsx (id "pseudonymize-student-records" ∷ id "safety-check" ∷ [])
    else if str_eq extension ".csv" || str_eq extension ".tsv"
    then supported (if str_eq extension ".csv" then csv else tsv) table_transformers
    else if is_binary
    then unsupported binary
    else supported text text_transformers

unfoldable pub processor_supported : FileCapabilities → ProcessorSpec → Bool
unfolding any
processor_supported c processor =
    any (λ candidate. same_processor candidate processor) c.transformers
