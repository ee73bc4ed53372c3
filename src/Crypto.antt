-- ===== src/Crypto.antt =====
-- The cryptography that the source takes from its platform, as a parameter of the model, with
-- shared/hash.ts and shared/policy-trust.ts over it.
use aegisone_core.Prelude.{ℕ, Str, lit, Bool, List, Option, none, some, take}
use aegisone_core.Json.{Value, obj, field, end, str, num, nat, bool}
use aegisone_core.Json.Canonical.{canonicalize_json}
use aegisone_core.Contracts.{PolicyRules}
use aegisone_core.Js.{utf8, from_hex}

-- Digests are in lower-case hexadecimal digits; `none` is an error that the platform throws.
pub record Crypto : Type 0 where
  pub sha256_hex : List ℕ → Str
  pub hmac_sha256_hex : (secret message : List ℕ) → Str
  -- `verify` with the raw Ed25519 key behind the SPKI prefix.
  pub verify_raw : (message raw_key signature : List ℕ) → Option Bool

module _ (c : Crypto) where
  -- `sha256Hex` of a string.
  unfoldable pub sha256_text : Str → Str
  sha256_text s = c.sha256_hex (utf8 s)

  -- `hashCanonicalJson`.
  unfoldable pub hash_canonical_json : Value → Option Str
  unfolding sha256_text
  hash_canonical_json v = elim (canonicalize_json v) [ none ↦ none | some t ↦ some (sha256_text t) ]

  -- `deriveKeyId`.
  unfoldable pub derive_key_id : Str → Str
  derive_key_id public_key = take 16 (c.sha256_hex (from_hex public_key))

  -- `verifyPolicySignature`.
  unfoldable pub verify_policy_signature : (public_key payload signature : Str) → Option Bool
  verify_policy_signature public_key payload signature =
      c.verify_raw (utf8 payload) (from_hex public_key) (from_hex signature)

abbrev pub policy_rules_json : PolicyRules → Value
policy_rules_json r = obj (
    field (lit "max_total_cost_cents") (num (nat r.max_total_cost_cents)) (
      field (lit "allow_auto_scale") (bool r.allow_auto_scale) (
        field (lit "max_gpu_count") (num (nat r.max_gpu_count)) (
          field (lit "max_hours") (num (nat r.max_hours)) (
            field (lit "require_manual_approval_above_cents")
              (num (nat r.require_manual_approval_above_cents))
              (field (lit "max_retry_count") (num (nat r.max_retry_count)) end))))))

-- `canonicalPolicyPayload`; the trust section is not part of it.
unfoldable pub canonical_policy_payload :
    (schema_version policy_version : Str) → PolicyRules → Option Str
canonical_policy_payload schema_version policy_version rules = canonicalize_json (
    obj (
      field (lit "schema_version") (str schema_version) (
        field (lit "policy_version") (str policy_version)
          (field (lit "rules") (policy_rules_json rules) end))))

-- `policyHash`.
unfoldable pub policy_hash :
    Crypto → (schema_version policy_version : Str) → PolicyRules → Option Str
policy_hash c schema_version policy_version rules =
    elim (canonical_policy_payload schema_version policy_version rules) [
      | none ↦ none
      | some t ↦ some (sha256_text c t)
    ]
