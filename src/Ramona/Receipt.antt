-- ===== src/Ramona/Receipt.antt =====
-- ram0na/engine.ts, the receipts, with shared/receipt-signing.ts: building, signing, verifying and
-- replay. `none` is a thrown error. The process environment, the keys and their cryptography are
-- parameters; the timing of a signature is left out.
use aegisone_core.Prelude.{
  ◌>>=◌, ℕ, ◌/◌, ◌%◌, Str, lit, Bool, true, false, not, ◌&&◌, ◌||◌, List, [], ◌∷◌, ◌++◌, Option,
  none, some, if◌then◌else◌, ltb, leb, ◌==◌, all, is_empty, length, take, str_eq,
}
use aegisone_core.Js.{trim, utf8, from_hex}
use aegisone_core.Json.{Value, obj, str, num, nat}
use aegisone_core.Json.Canonical.{canonicalize_json, decimal}
use aegisone_core.Contracts.{
  PreflightTrace, OrbitTrace, ArmTrace, RamonaTrace, Decision, allow, refuse, ReasonCode,
  receipt_signature_invalid, ok_allow, replay_mismatch, SignedReceiptPayload, decision_text,
  reason_text,
}
use aegisone_core.Contracts.Receipt.{
  HmacSignature, SignedReceipt, fields_of, payload_json, receipt_json,
}
use aegisone_core.Crypto.{Crypto, hash_canonical_json}

-- The environment variables of `signingConfig`, and the key files of shared/receipt-signing.ts.
pub record Signing : Type 0 where
  pub secret : Option Str
  pub key_id : Option Str
  pub public_key_pem : Str
  -- `signReceiptPayload`, with the private key file.
  pub sign : Str → Option Str
  -- The last 32 bytes of the exported key behind a PEM text.
  pub raw_public_key : Str → Option (List ℕ)
  -- `verify` with the key of a PEM text.
  pub verify_pem : (message signature : List ℕ) (pem : Str) → Option Bool

abbrev is_key_unit : ℕ → Bool
is_key_unit c =
    (leb b'a' c && leb c b'z')
    || (leb b'A' c && leb c b'Z')
    || (leb b'0' c && leb c b'9')
    || c == b'.'
    || c == b'_'
    || c == b':'
    || c == b'-'

abbrev trimmed : Option Str → Str
trimmed none = []
trimmed (some s) = trim s

-- `signingConfig`: the secret and the key id, or nothing if either is unfit.
unfoldable pub signing_config : Signing → Option (Str × Str)
unfolding trim
signing_config g =
    let secret = trimmed g.secret in
    let key_id = trimmed g.key_id in
    if is_empty secret || is_empty key_id
    then none
    else if ltb (length secret) 32 || not (all is_key_unit key_id && leb (length key_id) 128)
    then none
    else some (secret, key_id)

abbrev pad2 : Str → Str
pad2 [] = lit "00"
pad2 (c ∷ []) = b'0' ∷ c ∷ []
pad2 (c ∷ d ∷ s) = c ∷ d ∷ s

-- `formatUsdFromCents`.
unfoldable pub format_usd_from_cents : ℕ → Str
unfolding decimal
format_usd_from_cents cents = decimal (cents / 100) ++ (b'.' ∷ pad2 (decimal (cents % 100)))

abbrev pub receipt_key_id : Str → Str
receipt_key_id fingerprint = lit "receipt-ed25519-" ++ take 16 fingerprint

module _ (c : Crypto) (g : Signing) where
  -- The HMAC signature over the printed payload.
  unfoldable pub hmac_signature : Str → HmacSignature
  hmac_signature text = elim (signing_config g) [
    | none ↦ record { algorithm = lit "HMAC-SHA256"; key_id = lit "unconfigured"; value = [] }
    | some (secret, key_id) ↦ record {
      algorithm = lit "HMAC-SHA256";
      key_id = key_id;
      value = c.hmac_sha256_hex (utf8 secret) (utf8 text);
    }
  ]

  -- The receipt over a printed payload, its signature and the raw receipt key.
  abbrev pub signed_receipt : SignedReceiptPayload → Str → Str → List ℕ → SignedReceipt
  signed_receipt payload text value raw = record {
    payload = payload;
    signature = some (hmac_signature text);
    verifiable_signature = some (record {
      algorithm = lit "ED25519";
      key_id = receipt_key_id (c.sha256_hex raw);
      public_key_fingerprint = c.sha256_hex raw;
      public_key_pem = g.public_key_pem;
      value = value;
    });
  }

  -- `signPayload`.
  unfoldable pub sign_payload : SignedReceiptPayload → Option SignedReceipt
  sign_payload payload = do
    text ← canonicalize_json (payload_json payload)
    value ← g.sign text
    raw ← g.raw_public_key g.public_key_pem
    some (signed_receipt payload text value raw)

abbrev pub is_allow : Decision → Bool
is_allow allow = true
is_allow refuse = false

-- The argument of `buildReceipt`.
pub record ReceiptInput : Type 0 where
  pub canonical_request : Str
  pub request_hash : Str
  pub policy_hash : Str
  pub preflight : PreflightTrace
  pub orbit : OrbitTrace
  pub arm : ArmTrace
  pub ramona : RamonaTrace
  pub policy_version : Str

unfoldable pub final_decision : ReceiptInput → Decision
final_decision i =
    if is_allow i.orbit.decision && is_allow i.arm.decision && is_allow i.ramona.decision
    then allow
    else refuse

unfoldable pub final_reason : ReceiptInput → ReasonCode
final_reason i = elim (final_decision i) [ allow ↦ ok_allow | refuse ↦ i.ramona.reason_code ]

abbrev decision_hash_json : ReceiptInput → Value
decision_hash_json i = obj (
    fields_of (
      (lit "request_hash", str i.request_hash)
      ∷ (lit "policy_hash", str i.policy_hash)
      ∷ (lit "decision", str (decision_text (final_decision i)))
      ∷ (lit "reason_code", str (reason_text (final_reason i)))
      ∷ (lit "policy_version", str i.policy_version)
      ∷ (lit "execution_id", str i.arm.execution_id)
      ∷ (lit "projected_total_cost_cents", num (nat i.arm.projected_total_cost_cents))
      ∷ (lit "allowed_cost_cents", num (nat i.arm.allowed_cost_cents))
      ∷ (lit "prevented_cost_cents", num (nat i.arm.prevented_cost_cents))
      ∷ []))

-- The payload that `buildReceipt` signs, with its decision hash.
unfoldable pub receipt_payload : ReceiptInput → Str → SignedReceiptPayload
receipt_payload i decision_hash = record {
  canonical_request = i.canonical_request;
  request_hash = i.request_hash;
  decision_output = record {
    decision = final_decision i;
    decision_hash = decision_hash;
    request_hash = i.request_hash;
    reason_code = final_reason i;
    total_cost_usd = format_usd_from_cents i.arm.projected_total_cost_cents;
    allowed_cost_usd = format_usd_from_cents i.arm.allowed_cost_cents;
    prevented_cost_usd = format_usd_from_cents i.arm.prevented_cost_cents;
    policy_version = i.policy_version;
    policy_hash = i.policy_hash;
    execution_id = i.arm.execution_id;
    key_set_version = lit "receipt-key-set-v1";
  };
  preflight = i.preflight;
  orbit = i.orbit;
  arm = i.arm;
  ramona = i.ramona;
}

module _ (c : Crypto) (g : Signing) where
  -- `buildReceipt`.
  unfoldable pub build_receipt : ReceiptInput → Option SignedReceipt
  build_receipt i = do
    decision_hash ← hash_canonical_json c (decision_hash_json i)
    sign_payload c g (receipt_payload i decision_hash)

  -- `verifyReceiptPublicSignature`.
  unfoldable pub verify_receipt_public_signature : SignedReceipt → Option Bool
  verify_receipt_public_signature r = elim r.verifiable_signature [
    | none ↦ some false
    | some v ↦
        if is_empty (trim v.public_key_pem)
        then some false
        else (g.raw_public_key v.public_key_pem >>= λ raw.
            let fingerprint = c.sha256_hex raw in
            if not (str_eq v.algorithm (lit "ED25519"))
              || not (str_eq v.key_id (receipt_key_id fingerprint))
              || not (str_eq v.public_key_fingerprint fingerprint)
            then some false
            else (canonicalize_json (payload_json r.payload) >>= λ text.
                g.verify_pem (utf8 text) (from_hex v.value) v.public_key_pem))
  ]

  -- The HMAC branch of `verifyReceiptSignature`.
  unfoldable pub hmac_matches : SignedReceipt → Str → Bool
  hmac_matches r text = elim (signing_config g) [
    | none ↦ false
    | some (secret, key_id) ↦ elim r.signature [
      | none ↦ false
      | some s ↦
          str_eq s.algorithm (lit "HMAC-SHA256")
          && str_eq s.key_id key_id
          && str_eq (c.hmac_sha256_hex (utf8 secret) (utf8 text)) s.value
    ]
  ]

  -- `verifyReceiptSignature`.
  unfoldable pub verify_receipt_signature : SignedReceipt → Option Bool
  verify_receipt_signature r = do
    text ← canonicalize_json (payload_json r.payload)
    let public = verify_receipt_public_signature r
    if hmac_matches r text then some true else public

  abbrev pub compare_receipts : SignedReceipt → SignedReceipt → Option (Bool × ReasonCode)
  compare_receipts stored rerun = do
    a ← canonicalize_json (receipt_json stored)
    b ← canonicalize_json (receipt_json rerun)
    some (if str_eq a b then (true, ok_allow) else (false, replay_mismatch))

  -- `verifyReceiptReplay`.
  unfoldable pub verify_receipt_replay : SignedReceipt → SignedReceipt → Option (Bool × ReasonCode)
  verify_receipt_replay stored rerun = do
    first ← verify_receipt_signature stored
    let rest : Option (Bool × ReasonCode) = (do
      second ← verify_receipt_signature rerun
      if second then compare_receipts stored rerun else some (false, receipt_signature_invalid))
    if first then rest else some (false, receipt_signature_invalid)
