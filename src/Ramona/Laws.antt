-- ===== src/Ramona/Laws.antt =====
-- When the runtime gate and the receipt of ram0na/engine.ts allow, and that a receipt which the
-- code builds passes its own verification.
use mathlib.Core.Path.{subst}
use aegisone_core.Prelude.{
  lit, >>=-eq-some, ℕ, ◌≤◌, ◌≡◌, ◌↔◌, Str, true, false, List, some, arith, Option-cases, Bool-cases,
  inl, inr, is_empty, str_eq_self,
}
use aegisone_core.Js.{trim, utf8, from_hex}
use aegisone_core.Json.Canonical.{canonicalize_json}
use aegisone_core.Contracts.{
  CanonicalExecutionInput, ArmTrace, RamonaTrace, allow, SignedReceiptPayload,
}
use aegisone_core.Contracts.Receipt.{SignedReceipt, payload_json}
use aegisone_core.Crypto.{Crypto, hash_canonical_json}
use aegisone_core.Contracts.Encode.{runtime_observation_json}
use aegisone_core.Ramona.{runtime_check, run_strict_ramona}
use aegisone_core.Ramona.Receipt.{
  Signing, sign_payload, signed_receipt, receipt_key_id, ReceiptInput, final_decision,
  receipt_payload, build_receipt, verify_receipt_signature, verify_receipt_public_signature,
  hmac_matches,
}

-- What the runtime may show of an allowed request.
pub record IsObserved (input : CanonicalExecutionInput) (arm : ArmTrace) : Type 0 where
  pub upstream : arm.decision ≡ allow
  pub running : input.execution_request.runtime_observation.kill_switch_active ≡ false
  pub gpus :
      input.execution_request.runtime_observation.actual_gpu_count
      ≤ input.execution_request.resources.gpu_count
  pub hours :
      input.execution_request.runtime_observation.actual_hours
      ≤ input.execution_request.resources.hours
  pub cost :
      input.execution_request.runtime_observation.actual_total_cost_cents
      ≤ arm.projected_total_cost_cents

runtime_check-allow_iff :
    (input : CanonicalExecutionInput) (arm : ArmTrace) (hash : Str)
    → ((runtime_check input arm hash).decision ≡ allow) ↔ IsObserved input arm
unfolding runtime_check
runtime_check-allow_iff input arm hash = ground arith

-- Where the runtime gate gives a trace, it allows exactly if ARM allowed, the kill switch is off, and
-- neither the GPUs, the hours nor the cost that it observes exceed what was requested and projected.
pub run_strict_ramona-allow_iff :
    (c : Crypto) (input : CanonicalExecutionInput) (arm : ArmTrace) (t : RamonaTrace)
    → run_strict_ramona c input arm ≡ some t
    → (t.decision ≡ allow) ↔ IsObserved input arm
unfolding run_strict_ramona
run_strict_ramona-allow_iff c input arm t h =
    elim (Option-cases (
      hash_canonical_json c
        (runtime_observation_json input.execution_request.runtime_observation))) [
          | inl e ↦ absurd (ground arith)
          | inr (hash, e) ↦
              let same : runtime_check input arm hash ≡ t = ground arith in
              rw same at (runtime_check-allow_iff input arm hash)
        ]

pub final_decision-allow_iff :
    (i : ReceiptInput)
    → (final_decision i ≡ allow)
      ↔ ((i.orbit.decision ≡ allow) × (i.arm.decision ≡ allow) × (i.ramona.decision ≡ allow))
unfolding final_decision
final_decision-allow_iff i = ground arith

module _ (c : Crypto) (g : Signing) where
  sign_payload-payload :
      (p : SignedReceiptPayload) (r : SignedReceipt) → sign_payload c g p ≡ some r → r.payload ≡ p
  unfolding sign_payload
  sign_payload-payload p r h = ground arith

  -- A built receipt carries the payload of its input.
  pub build_receipt-payload :
      (i : ReceiptInput) (r : SignedReceipt)
      → build_receipt c g i ≡ some r
      → (h : Str) × (r.payload ≡ receipt_payload i h)
  unfolding build_receipt
  build_receipt-payload i r h =
      let (decision_hash, _, signed) = >>=-eq-some (hash_canonical_json c _) _ h in
      (decision_hash, sign_payload-payload (receipt_payload i decision_hash) r signed)

-- The platform's law of signatures: what the receipt key signs, its public key verifies.
abbrev pub IsSigner : Signing → Type 0
IsSigner g =
    (text value : Str)
    → g.sign text ≡ some value
    → g.verify_pem (utf8 text) (from_hex value) g.public_key_pem ≡ some true

module _ (c : Crypto) (g : Signing) where
  signed_receipt-public :
      (p : SignedReceiptPayload) (text value : Str) (raw : List ℕ)
      → IsSigner g
      → is_empty (trim g.public_key_pem) ≡ false
      → canonicalize_json (payload_json p) ≡ some text
      → g.sign text ≡ some value
      → g.raw_public_key g.public_key_pem ≡ some raw
      → verify_receipt_public_signature c g (signed_receipt c g p text value raw) ≡ some true
  unfolding verify_receipt_public_signature
  signed_receipt-public p text value raw law filled printed signed keyed = rw (
    filled,
    keyed,
    str_eq_self (lit "ED25519"),
    str_eq_self (receipt_key_id (c.sha256_hex raw)),
    str_eq_self (c.sha256_hex raw),
    printed,
    law text value signed,
  )

  signed_receipt-verified :
      (p : SignedReceiptPayload) (text value : Str) (raw : List ℕ)
      → canonicalize_json (payload_json p) ≡ some text
      → verify_receipt_public_signature c g (signed_receipt c g p text value raw) ≡ some true
      → verify_receipt_signature c g (signed_receipt c g p text value raw) ≡ some true
  unfolding verify_receipt_signature
  signed_receipt-verified p text value raw printed public =
      rw (printed, public)
        (elim (Bool-cases (hmac_matches c g (signed_receipt c g p text value raw) text)) [
          | inl e ↦ rw e
          | inr e ↦ rw e
        ])

  -- So does every receipt that `signPayload` returns.
  pub sign_payload-verified :
      (p : SignedReceiptPayload) (r : SignedReceipt)
      → IsSigner g
      → is_empty (trim g.public_key_pem) ≡ false
      → sign_payload c g p ≡ some r
      → verify_receipt_signature c g r ≡ some true
  unfolding sign_payload
  sign_payload-verified p r law filled h =
      let (text, printed, h1) = >>=-eq-some (canonicalize_json (payload_json p)) _ h in
      let (value, signed, h2) = >>=-eq-some (g.sign text) _ h1 in
      let (raw, keyed, h3) = >>=-eq-some (g.raw_public_key g.public_key_pem) _ h2 in
      let same : signed_receipt c g p text value raw ≡ r = cc in
      subst (λ x. verify_receipt_signature c g x ≡ some true) same
        (signed_receipt-verified p text value raw printed
          (signed_receipt-public p text value raw law filled printed signed keyed))

  -- Every receipt that `buildReceipt` returns passes `verifyReceiptSignature`, whether the HMAC
  -- key is configured or not, if the public key verifies what the private key signs and its PEM
  -- text is not blank.
  pub build_receipt-verified :
      (i : ReceiptInput) (r : SignedReceipt)
      → IsSigner g
      → is_empty (trim g.public_key_pem) ≡ false
      → build_receipt c g i ≡ some r
      → verify_receipt_signature c g r ≡ some true
  unfolding build_receipt
  build_receipt-verified i r law filled h =
      let (decision_hash, _, signed) = >>=-eq-some (hash_canonical_json c _) _ h in
      sign_payload-verified (receipt_payload i decision_hash) r law filled signed
