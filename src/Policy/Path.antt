-- ===== src/Policy/Path.antt =====
-- The regular expressions of packages/policy/src/resolve.ts, over paths and over rule names.
use yuhi.Prelude.{String, Bool, ◌&&◌, ◌||◌, not, [], ◌∷◌, any, length, ltb}
use yuhi.Text.{codes, lower, same, begins, contains, ends, last_segment}

-- /(?:^|\/)\.env(?:\.[^/]*)?$/i and not /\.env\.(?:example|sample)$/i
unfoldable pub environment_file : String → Bool
unfolding last_segment same begins ends lower
environment_file path =
    let name = last_segment (lower path) in
    (same name (codes ".env") || begins name (codes ".env."))
    && not (ends (lower path) (codes ".env.example") || ends (lower path) (codes ".env.sample"))

-- /(?:^|\/)(?:credentials\.json|secrets?\.(?:json|ya?ml))$/i
unfoldable pub structured_credential_file : String → Bool
unfolding last_segment same any lower
structured_credential_file path =
    let name = last_segment (lower path) in
    any (λ s. same name (codes s))
      ("credentials.json" ∷ "secret.json" ∷ "secrets.json" ∷ "secret.yml" ∷ "secrets.yml"
        ∷ "secret.yaml" ∷ "secrets.yaml" ∷ [])

-- /(?:^|\/)(?:id_rsa|id_ed25519|[^/]+\.(?:pem|key|p12|pfx|jks|keystore|crt|cer))$/i
unfoldable pub private_key_file : String → Bool
unfolding last_segment same ends any lower
private_key_file path =
    let name = last_segment (lower path) in
    same name (codes "id_rsa")
    || same name (codes "id_ed25519")
    || any (λ s. ends name (codes s) && ltb (length (codes s)) (length name))
        (".pem" ∷ ".key" ∷ ".p12" ∷ ".pfx" ∷ ".jks" ∷ ".keystore" ∷ ".crt" ∷ ".cer" ∷ [])

-- /(?:credential|private-key|secret-director)/i
unfoldable pub credential_rule_name : String → Bool
unfolding contains lower
credential_rule_name name =
    contains (lower name) (codes "credential")
    || contains (lower name) (codes "private-key")
    || contains (lower name) (codes "secret-director")
