-- ===== src/Policy/Resolve/Exposure.antt =====
-- What a decision lets an external agent see, and what it does not.
use yuhi.Prelude.{String, ◌≡◌, Bool, true, none, some, [], ◌∷◌, arith}
use yuhi.Policy.Action.{local_only, local}
use yuhi.Policy.Path.{private_key_file}
use yuhi.Policy.Match.{FileInspection, MatchableFile, Picomatch}
use yuhi.Policy.Verdict.{PolicyInput, Verdict, keep_private_keys}
use yuhi.Policy.Gate.{capabilities_of, gate_unverified, gate_verified, gate}
use yuhi.Policy.Resolve.{degrade_ask, FileDecision, decision_of, routed, explain_file}

-- The verdict on a private key file.
abbrev key_verdict : Verdict
key_verdict = record {
  action = local_only;
  winning_rule = "file-type:private-key-local-only";
  reason =
      "Private key files stay on this computer and are never copied to the Prepared Workspace.";
  destinations = some (local ∷ []);
  processors = none;
}

-- A verdict that keeps the file on the computer, with no pipeline to run.
abbrev IsLocal : Verdict → Type 0
IsLocal v = (v.action ≡ local_only) × (v.destinations ≡ some (local ∷ [])) × (v.processors ≡ none)

gate-key_verdict : (c : FileInspection) (file : MatchableFile) → IsLocal (gate c file key_verdict)
unfolding gate gate_unverified gate_verified
gate-key_verdict c file = ground arith

decision_of-local :
    (interactive : Bool) (file : MatchableFile) (v : Verdict)
    → IsLocal v
    → ((decision_of file (degrade_ask interactive v)).action ≡ local_only)
      × ((decision_of file (degrade_ask interactive v)).destinations ≡ local ∷ [])
      × ((decision_of file (degrade_ask interactive v)).processors ≡ none)
unfolding decision_of degrade_ask
decision_of-local interactive file v h = ground arith

module _ (picomatch : Picomatch) (extension : String → String) (input : PolicyInput)
    (file : MatchableFile) where
  abbrev v : Verdict
  v = routed picomatch extension input file

  abbrev decision : FileDecision
  decision = explain_file picomatch extension input file

  routed-key_verdict : private_key_file file.relpath ≡ true → v ≡ key_verdict
  unfolding routed keep_private_keys
  routed-key_verdict h = rw h

  -- A private key file stays on the computer under every policy and whatever its inspection says:
  -- it goes to the local destination alone and no processor is run on it.
  pub private_key_stays :
      private_key_file file.relpath ≡ true
      → (decision.action ≡ local_only)
        × (decision.destinations ≡ local ∷ [])
        × (decision.processors ≡ none)
  unfolding explain_file
  private_key_stays h =
      decision_of-local input.interactive file _
        (rw (routed-key_verdict h) (gate-key_verdict (capabilities_of extension file) file))
