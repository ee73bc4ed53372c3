-- ===== src/Contracts/Receipt.antt =====
-- shared/contracts.ts, the signed receipt and its JSON.
use aegisone_core.Prelude.{Str, lit, List, [], ◌∷◌, Option, none, some}
use aegisone_core.Json.{Value, obj, Fields, field, end, str, num, nat}
use aegisone_core.Contracts.{
  DecisionOutput, PreflightTrace, OrbitTrace, ArmTrace, RamonaTrace, SignedReceiptPayload,
  decision_text, reason_text,
}

pub record HmacSignature : Type 0 where
  pub algorithm : Str
  pub key_id : Str
  pub value : Str

pub record VerifiableSignature : Type 0 where
  pub algorithm : Str
  pub key_id : Str
  pub public_key_fingerprint : Str
  pub public_key_pem : Str
  pub value : Str

pub record SignedReceipt : Type 0 where
  pub payload : SignedReceiptPayload
  pub signature : Option HmacSignature
  pub verifiable_signature : Option VerifiableSignature

abbrev pub fields_of : List (Str × Value) → Fields
fields_of [] = end
fields_of ((k, v) ∷ es) = field k v (fields_of es)

abbrev append_text : Option Str → List (Str × Value)
append_text none = []
append_text (some t) = (lit "budget_token", str t) ∷ []

abbrev decision_output_json : DecisionOutput → Value
decision_output_json d = obj (
    fields_of (
      (lit "decision", str (decision_text d.decision))
      ∷ (lit "decision_hash", str d.decision_hash)
      ∷ (lit "request_hash", str d.request_hash)
      ∷ (lit "reason_code", str (reason_text d.reason_code))
      ∷ (lit "total_cost_usd", str d.total_cost_usd)
      ∷ (lit "allowed_cost_usd", str d.allowed_cost_usd)
      ∷ (lit "prevented_cost_usd", str d.prevented_cost_usd)
      ∷ (lit "policy_version", str d.policy_version)
      ∷ (lit "policy_hash", str d.policy_hash)
      ∷ (lit "execution_id", str d.execution_id)
      ∷ (lit "key_set_version", str d.key_set_version)
      ∷ []))

abbrev preflight_json : PreflightTrace → Value
preflight_json t = obj (
    fields_of (
      (lit "layer", str (lit "preflight"))
      ∷ (lit "request_hash", str t.request_hash)
      ∷ (lit "policy_hash", str t.policy_hash)
      ∷ (lit "policy_version", str t.policy_version)
      ∷ []))

abbrev orbit_json : OrbitTrace → Value
orbit_json t = obj (
    fields_of (
      (lit "layer", str (lit "orbit"))
      ∷ (lit "decision", str (decision_text t.decision))
      ∷ (lit "reason_code", str (reason_text t.reason_code))
      ∷ (lit "validation_hash", str t.validation_hash)
      ∷ []))

abbrev arm_json : ArmTrace → Value
arm_json t = obj (
    fields_of (
      (lit "layer", str (lit "arm"))
      ∷ (lit "decision", str (decision_text t.decision))
      ∷ (lit "reason_code", str (reason_text t.reason_code))
      ∷ (lit "projected_total_cost_cents", num (nat t.projected_total_cost_cents))
      ∷ (lit "allowed_cost_cents", num (nat t.allowed_cost_cents))
      ∷ (lit "prevented_cost_cents", num (nat t.prevented_cost_cents))
      ∷ (lit "execution_id", str t.execution_id)
      ∷ append_text t.budget_token))

abbrev ramona_json : RamonaTrace → Value
ramona_json t = obj (
    fields_of (
      (lit "layer", str (lit "ramona"))
      ∷ (lit "decision", str (decision_text t.decision))
      ∷ (lit "reason_code", str (reason_text t.reason_code))
      ∷ (lit "runtime_hash", str t.runtime_hash)
      ∷ []))

unfoldable pub payload_fields : SignedReceiptPayload → List (Str × Value)
payload_fields p =
    (lit "schema_version", str (lit "ecs.receipt.v2"))
    ∷ (lit "canonical_request", str p.canonical_request)
    ∷ (lit "request_hash", str p.request_hash)
    ∷ (lit "decision_output", decision_output_json p.decision_output)
    ∷ (
      lit "pipeline_trace",
      obj (
          fields_of (
            (lit "preflight", preflight_json p.preflight)
            ∷ (lit "orbit", orbit_json p.orbit)
            ∷ (lit "arm", arm_json p.arm)
            ∷ (lit "ramona", ramona_json p.ramona)
            ∷ [])),
    )
    ∷ []

abbrev pub payload_json : SignedReceiptPayload → Value
payload_json p = obj (fields_of (payload_fields p))

abbrev hmac_field : Option HmacSignature → Fields → Fields
hmac_field none fs = fs
hmac_field (some s) fs =
    field (lit "signature")
      (obj (
        fields_of (
          (lit "algorithm", str s.algorithm)
          ∷ (lit "key_id", str s.key_id)
          ∷ (lit "value", str s.value)
          ∷ [])))
      fs

abbrev verifiable_field : Option VerifiableSignature → Fields → Fields
verifiable_field none fs = fs
verifiable_field (some s) fs =
    field (lit "verifiable_signature")
      (obj (
        fields_of (
          (lit "algorithm", str s.algorithm)
          ∷ (lit "key_id", str s.key_id)
          ∷ (lit "public_key_fingerprint", str s.public_key_fingerprint)
          ∷ (lit "public_key_pem", str s.public_key_pem)
          ∷ (lit "value", str s.value)
          ∷ [])))
      fs

-- The receipt, with the signatures in front of the payload; the printer sorts the keys.
abbrev pub receipt_json : SignedReceipt → Value
receipt_json r = obj (
    hmac_field r.signature
      (verifiable_field r.verifiable_signature (fields_of (payload_fields r.payload))))
