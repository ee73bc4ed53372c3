-- ===== src/Preflight.antt =====
-- preflight/engine.ts: `runStrictPreflight`, from the raw text to the envelope that the layers take.
pub mod Checks
pub mod Calls
pub mod Reading
pub mod Amounts
pub mod Ranges
pub mod Reserved
pub mod Accepted
pub mod Identity
pub mod Vetted
pub mod Calm
pub mod Nesting
pub mod Total
use aegisone_core.Prelude.{
  Str, lit, Bool, true, false, not, ◌||◌, List, [], ◌∷◌, Option, none, some, if◌then◌else◌, str_eq,
}
use aegisone_core.Json.{Value, obj, str, Fields, field, end, get_field}
use aegisone_core.Json.Lexer.{ParseFailure, Result}
use aegisone_core.Json.Parse.{parse_strict_json}
use aegisone_core.Json.Canonical.{canonicalize_json}
use aegisone_core.Contracts.{
  CanonicalExecutionInput, ParsedEnvelope, TypedFailure, PolicyTrust, PolicyRules, ReasonCode,
  schema_validation, duplicate_json_keys, invalid_json_syntax, invalid_json_number,
  policy_version_mismatch, policy_key_id_mismatch, invalid_policy_signature, reason_text,
}
use aegisone_core.Crypto.{
  Crypto, sha256_text, hash_canonical_json, derive_key_id, verify_policy_signature,
  canonical_policy_payload, policy_hash,
}
use aegisone_core.Preflight.Checks.{
  Checked, ok, refused, thrown, ◌>>=◌, ◌>>◌, pass, required, reject_unknown_keys, expect_string,
  as_record,
}
use aegisone_core.Preflight.Reading.{Sections, Texts, Lists, split_sections, read_texts, read_lists}
use aegisone_core.Preflight.Amounts.{Numbers, Flags, read_numbers, read_flags}

abbrev pub pinned_policy_version : Str
pinned_policy_version = lit "policy.v1"

-- `built.policy_document.rules`.
abbrev pub rules_of : Numbers → Flags → PolicyRules
rules_of n f = record {
  max_total_cost_cents = n.max_total_cost_cents;
  allow_auto_scale = f.allow_auto_scale;
  max_gpu_count = n.max_gpu_count;
  max_hours = n.max_hours;
  require_manual_approval_above_cents = n.require_manual_approval_above_cents;
  max_retry_count = n.max_retry_count;
}

abbrev pub trust_text : Str → Fields → Checked Str
trust_text k root = required invalid_policy_signature (expect_string (get_field k root))

abbrev pub payload_text : Option Str → Checked Str
payload_text none = thrown
payload_text (some t) = ok t

-- `verifyPolicySignature` behind the key version, inside its `try`.
abbrev pub signature_holds : Str → Option Bool → Bool
signature_holds key_version none = false
signature_holds key_version (some b) = if str_eq key_version (lit "ed25519.v1") then b else false

-- The block over `policyDocument.trust`, where that is an object.
unfoldable pub check_trust : Crypto → Texts → PolicyRules → Fields → Checked PolicyTrust
check_trust c t rules trust = do
  pass (
      reject_unknown_keys
        (lit "key_version" ∷ lit "key_id" ∷ lit "public_key" ∷ lit "signature" ∷ []) trust)
  key_version ← trust_text (lit "key_version") trust
  key_id ← trust_text (lit "key_id") trust
  public_key ← trust_text (lit "public_key") trust
  signature ← trust_text (lit "signature") trust
  pass (if str_eq (derive_key_id c public_key) key_id then none else some policy_key_id_mismatch)
  payload ← payload_text (canonical_policy_payload t.schema_version t.policy_version rules)
  pass (
      if signature_holds key_version (verify_policy_signature c public_key payload signature)
      then none
      else some invalid_policy_signature)
  ok (record {
    key_version = key_version;
    key_id = key_id;
    public_key = public_key;
    signature = signature;
  })

unfoldable pub read_trust :
    Crypto → Texts → PolicyRules → Option Value → Checked (Option PolicyTrust)
read_trust c t rules none = ok none
read_trust c t rules (some v) = do
  fs ← required invalid_policy_signature (as_record (some v))
  trust ← check_trust c t rules fs
  ok (some trust)

-- `built`.
unfoldable pub build_input :
    Texts → Lists → Numbers → Flags → Option PolicyTrust → CanonicalExecutionInput
build_input t l n f trust = record {
  execution_request = record {
    request_id = t.request_id;
    submitted_region = t.submitted_region;
    user_id = t.user_id;
    resources = record { gpu_type = t.gpu_type; gpu_count = n.gpu_count; hours = n.hours };
    execution = record {
      auto_scale = f.auto_scale;
      max_scale_multiplier = n.max_scale_multiplier;
      retry_on_fail = f.retry_on_fail;
      max_retries = n.max_retries;
    };
    tool_calls = l.tool_calls;
    parameters = l.parameters;
    orbit_intent = record {
      orbit_version = t.orbit_version;
      action = t.action;
      boundary = t.boundary;
      tool_calls = l.orbit_tool_calls;
      lifecycle_state = t.lifecycle_state;
      signatures = l.signatures;
    };
    release_request = record {
      execution_id = t.execution_id;
      hold_state = t.hold_state;
      already_consumed = f.already_consumed;
    };
    runtime_observation = record {
      kill_switch_active = f.kill_switch_active;
      actual_gpu_count = n.actual_gpu_count;
      actual_hours = n.actual_hours;
      actual_total_cost_cents = n.actual_total_cost_cents;
    };
    budget_token = t.budget_token;
  };
  policy_document = record {
    schema_version = t.schema_version;
    policy_version = t.policy_version;
    trust = trust;
    rules = rules_of n f;
  };
  gpu_hour_cents = n.gpu_hour_cents;
}

-- `runStrictPreflight` behind the canonical text.
unfoldable pub read_input : Crypto → Fields → Checked CanonicalExecutionInput
read_input c root = do
  s ← split_sections root
  t ← read_texts s
  l ← read_lists s
  n ← read_numbers s
  f ← read_flags s
  pass
      (if str_eq t.policy_version pinned_policy_version then none else some policy_version_mismatch)
  trust ← read_trust c t (rules_of n f) (get_field (lit "trust") s.policy)
  ok (build_input t l n f trust)

-- What `decisionHashFromFailure` hashes.
abbrev pub failure_json : Str → ReasonCode → Value
failure_json request_hash reason = obj (
    field (lit "request_hash") (str request_hash) (
      field (lit "decision") (str (lit "REFUSE"))
        (field (lit "reason_code") (str (reason_text reason)) end)))

-- `decisionHashFromFailure` and `typedFailure`.
unfoldable pub typed_failure : Crypto → Str → ReasonCode → Option TypedFailure
typed_failure c request_hash reason =
    elim (hash_canonical_json c (failure_json request_hash reason)) [
      | none ↦ none
      | some h ↦
          some (record { request_hash = request_hash; decision_hash = h; reason_code = reason })
    ]

-- `out_of_fuel` is ruled out by the parser's theorems.
abbrev pub parse_reason : ParseFailure → ReasonCode
parse_reason ParseFailure.duplicate_json_keys = duplicate_json_keys
parse_reason ParseFailure.invalid_json_number = invalid_json_number
parse_reason ParseFailure.invalid_json_syntax = invalid_json_syntax
parse_reason ParseFailure.out_of_fuel = invalid_json_syntax

pub data Preflight : Type 0 where
  envelope : ParsedEnvelope → Preflight
  failure : TypedFailure → Preflight

abbrev pub as_failure : Option TypedFailure → Option Preflight
as_failure none = none
as_failure (some f) = some (failure f)

unfoldable pub finish_preflight :
    Crypto → Str → Str → Checked CanonicalExecutionInput → Option Preflight
finish_preflight c raw canonical thrown = none
finish_preflight c raw canonical (refused r) =
    as_failure (typed_failure c (sha256_text c canonical) r)
finish_preflight c raw canonical (ok input) =
    elim (policy_hash c input.policy_document.schema_version input.policy_document.policy_version
      input.policy_document.rules) [
        | none ↦ none
        | some h ↦ some (
            envelope (record {
              raw_input = raw;
              canonical_input = canonical;
              request_hash = sha256_text c canonical;
              parsed_input = input;
              policy_hash = h;
            }))
      ]

unfoldable pub preflight_value : Crypto → Str → Value → Option Preflight
preflight_value c raw (obj root) = elim (canonicalize_json (obj root)) [
  | none ↦ none
  | some canonical ↦ finish_preflight c raw canonical (read_input c root)
]
preflight_value c raw _ = as_failure (typed_failure c (sha256_text c raw) schema_validation)

-- `runStrictPreflight`; `none` is an error that escapes.
unfoldable pub run_strict_preflight : Crypto → Str → Option Preflight
run_strict_preflight c raw = elim (parse_strict_json raw) [
  | Result.fail e ↦ as_failure (typed_failure c (sha256_text c raw) (parse_reason e))
  | Result.ok v ↦ preflight_value c raw v
]
