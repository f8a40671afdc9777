-- ===== src/Policy/Match.antt =====
-- packages/policy/src/match.ts: when a rule of the policy matches a file. `picomatch`, given a list
-- of patterns and a path, is a parameter.
use Prim.Native.Char.{code}
use yuhi.Prelude.{
  ℕ, String, str_eq, Bool, false, not, ◌&&◌, Option, none, some, List, [], ◌∷◌, any, ◌==◌,
  if◌then◌else◌,
}
use yuhi.Policy.Action.{Action, Destination}
use yuhi.Policy.Capability.{ProcessorSpec, FileCapabilities}

pub data Severity : Type 0 where
  critical high medium low : Severity

pub record ScanFinding : Type 0 where
  pub detector : String
  pub path : String
  pub line : Option ℕ
  pub severity : Severity
  pub masked_preview : String
  pub description : String

pub record FileInspection : Type 0 where
  pub capabilities : FileCapabilities
  pub open capabilities use *
  pub inspection_attempted : Bool
  pub inspection_succeeded : Bool
  pub content_verified : Bool

pub data DocumentExtractionMethod : Type 0 where
  pdf_text ocr no_extraction : DocumentExtractionMethod

pub record MatchableFile : Type 0 where
  pub relpath : String
  pub findings : List ScanFinding
  pub inspection : Option FileInspection
  pub extraction_method : Option DocumentExtractionMethod

pub record PolicyRule : Type 0 where
  pub name : String
  pub paths : List String
  pub detectors : List String
  pub action : Action
  pub reason : Option String
  pub destinations : Option (List Destination)
  pub processors : Option (List ProcessorSpec)

-- A pattern that starts with `!`, without it.
abbrev negated : String → Option String
negated String.[] = none
negated (String.◌∷◌ c s) = if code c == b'!' then some s else none

unfoldable pub positives : List String → List String
positives [] = []
positives (p ∷ ps) = let rest = positives ps in elim (negated p) [ none ↦ p ∷ rest | some s ↦ rest ]

unfoldable pub negatives : List String → List String
negatives [] = []
negatives (p ∷ ps) = let rest = negatives ps in elim (negated p) [ none ↦ rest | some s ↦ s ∷ rest ]

abbrev pub Picomatch : Type 0
Picomatch = List String → String → Bool

-- No pattern at all matches nothing.
abbrev pub match_any : Picomatch → List String → String → Bool
match_any picomatch [] path = false
match_any picomatch (p ∷ ps) path = picomatch (p ∷ ps) path

-- `compiled.pathMatch(path)`; a rule without paths has none.
unfoldable pub path_match : Picomatch → PolicyRule → String → Bool
unfolding positives negatives
path_match picomatch rule path =
    match_any picomatch (positives rule.paths) path
    && not (match_any picomatch (negatives rule.paths) path)

unfoldable pub detector_match : PolicyRule → List ScanFinding → Bool
unfolding any
detector_match rule findings =
    any (λ (f : ScanFinding). any (λ d. str_eq d f.detector) rule.detectors) findings

pub data Via : Type 0 where
  path detector : Via

-- How a rule matches a file, if it does.
unfoldable pub rule_matches : Picomatch → PolicyRule → MatchableFile → Option Via
unfolding path_match detector_match
rule_matches picomatch rule file =
    if path_match picomatch rule file.relpath
    then some path
    else if detector_match rule file.findings
    then some detector
    else none
