-- ===== src/Preflight/Vetted.antt =====
-- What an input that preflight/engine.ts lets through guarantees the layers behind it.
use mathlib.Core.Path.{subst}
use aegisone_core.Prelude.{
  ◌≡◌, Str, lit, Bool, true, [], Option, none, some, if◌then◌else◌, arith, str_eq, str_eq_iff,
}
use aegisone_core.Json.{Value, obj, Fields, get_field}
use aegisone_core.Contracts.{
  CanonicalExecutionInput, ParsedEnvelope, PolicyDocument, PolicyTrust, PolicyRules,
  policy_key_id_mismatch, invalid_policy_signature, schema_validation,
}
use aegisone_core.Crypto.{Crypto, derive_key_id, verify_policy_signature, canonical_policy_payload}
use aegisone_core.Preflight.Checks.{
  Checked, pass, required, as_record, as_filled_array, reject_reserved, reject_unknown_keys,
}
use aegisone_core.Preflight.Calls.{parse_parameters, parse_tool_calls, parse_signatures}
use aegisone_core.Preflight.Reading.{Sections, Texts, Lists, read_lists, record_at}
use aegisone_core.Preflight.Ranges.{>>=-eq-ok, read_numbers-InRange}
use aegisone_core.Preflight.Reserved.{
  IsClean, AreClean, parse_parameters-IsClean, parse_tool_calls-AreClean,
}
use aegisone_core.Preflight.Accepted.{
  Parts, read_input-Parts, pass-ok, ok-injective, run_strict_preflight-IsEnvelope,
}
use aegisone_core.Preflight.{
  envelope, run_strict_preflight, read_trust, check_trust, trust_text, payload_text,
  signature_holds, pinned_policy_version, build_input,
}
use aegisone_core.Arm.Cost.{HasFactors}

-- The trust section belongs to its key, and its signature is over the policy's own payload.
pub record IsSigned (c : Crypto) (schema_version policy_version : Str) (rules : PolicyRules)
    (t : PolicyTrust) : Type 0 where
  pub key_version : t.key_version ≡ lit "ed25519.v1"
  pub key_id : derive_key_id c t.public_key ≡ t.key_id
  pub payload : Str
  pub printed : canonical_policy_payload schema_version policy_version rules ≡ some payload
  pub verified : verify_policy_signature c t.public_key payload t.signature ≡ some true

-- A policy without a trust section is accepted as it is.
abbrev pub IsTrusted : Crypto → PolicyDocument → Type 0
IsTrusted c d = elim d.trust [
  | none ↦ Unit {0}
  | some t ↦ IsSigned c d.schema_version d.policy_version d.rules t
]

key_id-eq : (a b : Str) → (if str_eq a b then none else some policy_key_id_mismatch) ≡ none → a ≡ b
key_id-eq a b h = ground (arith, str_eq_iff a b)

signature_holds-true :
    (version : Str) (r : Option Bool)
    → (if signature_holds version r then none else some invalid_policy_signature) ≡ none
    → (version ≡ lit "ed25519.v1") × (r ≡ some true)
signature_holds-true version none h = absurd (ground arith)
signature_holds-true version (some b) h = ground (arith, str_eq_iff version (lit "ed25519.v1"))

payload_text-ok : (o : Option Str) (t : Str) → payload_text o ≡ Checked.ok t → o ≡ some t
payload_text-ok none t h = absurd (ground arith)
payload_text-ok (some s) t h = ground arith

check_trust-IsSigned :
    (c : Crypto) (t : Texts) (rules : PolicyRules) (fs : Fields) (p : PolicyTrust)
    → check_trust c t rules fs ≡ Checked.ok p
    → IsSigned c t.schema_version t.policy_version rules p
unfolding check_trust
check_trust-IsSigned c t rules fs p h =
    let (_, _, h1) = >>=-eq-ok (pass (reject_unknown_keys _ fs)) _ h in
    let (key_version, _, h2) = >>=-eq-ok (trust_text (lit "key_version") fs) _ h1 in
    let (key_id, _, h3) = >>=-eq-ok (trust_text (lit "key_id") fs) _ h2 in
    let (public_key, _, h4) = >>=-eq-ok (trust_text (lit "public_key") fs) _ h3 in
    let (signature, _, h5) = >>=-eq-ok (trust_text (lit "signature") fs) _ h4 in
    let (_, same_key, h6) =
      >>=-eq-ok
        (pass (
          if str_eq (derive_key_id c public_key) key_id then none else some policy_key_id_mismatch))
        _ h5 in
    let (payload, printed, h7) =
      >>=-eq-ok (payload_text (canonical_policy_payload t.schema_version t.policy_version rules)) _
        h6 in
    let (_, holds, h8) =
      >>=-eq-ok
        (pass (
          if signature_holds key_version (verify_policy_signature c public_key payload signature)
          then none
          else some invalid_policy_signature))
        _ h7 in
    let (version, verified) = signature_holds-true key_version _ (pass-ok _ holds) in
    subst (IsSigned c t.schema_version t.policy_version rules) (ok-injective h8) (record {
      key_version = version;
      key_id = key_id-eq _ key_id (pass-ok _ same_key);
      payload = payload;
      printed = payload_text-ok _ payload printed;
      verified = verified;
    })

read_trust-IsTrusted :
    (c : Crypto) (t : Texts) (rules : PolicyRules) (v : Option Value) (o : Option PolicyTrust)
    → read_trust c t rules v ≡ Checked.ok o
    → IsTrusted c (record {
      schema_version = t.schema_version;
      policy_version = t.policy_version;
      trust = o;
      rules = rules;
    })
unfolding read_trust
read_trust-IsTrusted c t rules none none h = tt
read_trust-IsTrusted c t rules none (some p) h = absurd (ground arith)
read_trust-IsTrusted c t rules (some v) none h = tt
read_trust-IsTrusted c t rules (some v) (some p) h =
    let (fs, _, h1) = >>=-eq-ok (required invalid_policy_signature (as_record (some v))) _ h in
    let (q, signed, h2) = >>=-eq-ok (check_trust c t rules fs) _ h1 in
    let same : q ≡ p = ground arith in check_trust-IsSigned c t rules fs p (rw same at signed)

-- The tool calls and the parameters of a request are clean.
pub record AreCleanLists (l : Lists) : Type 0 where
  pub tool_calls : AreClean [] l.tool_calls
  pub parameters : IsClean l.parameters
  pub orbit_tool_calls : AreClean [] l.orbit_tool_calls

read_lists-clean : (s : Sections) (l : Lists) → read_lists s ≡ Checked.ok l → AreCleanLists l
unfolding read_lists
read_lists-clean s l h =
    let (calls, e1, h1) =
      >>=-eq-ok (parse_tool_calls (get_field (lit "tool_calls") s.request)) _ h in
    let (parameters, e2, h2) =
      >>=-eq-ok (parse_parameters (get_field (lit "parameters") s.request)) _ h1 in
    let (items, _, h3) =
      >>=-eq-ok
        (required schema_validation (as_filled_array (get_field (lit "signatures") s.orbit))) _
        h2 in
    let (signatures, _, h4) = >>=-eq-ok (parse_signatures items) _ h3 in
    let (payload, _, h5) = >>=-eq-ok (record_at (lit "payload") s.orbit) _ h4 in
    let (_, _, h6) = >>=-eq-ok (pass (reject_reserved (obj payload))) _ h5 in
    let (_, _, h7) = >>=-eq-ok (pass (reject_unknown_keys _ payload)) _ h6 in
    let (orbit_calls, e8, h8) =
      >>=-eq-ok (parse_tool_calls (get_field (lit "tool_calls") payload)) _ h7 in
    subst AreCleanLists (ok-injective h8) (record {
      tool_calls = parse_tool_calls-AreClean _ calls e1;
      parameters = parse_parameters-IsClean _ parameters e2;
      orbit_tool_calls = parse_tool_calls-AreClean _ orbit_calls e8;
    })

-- What the layers behind the preflight can rely on.
pub record IsVetted (c : Crypto) (input : CanonicalExecutionInput) : Type 0 where
  pub pinned : input.policy_document.policy_version ≡ pinned_policy_version
  pub trusted : IsTrusted c input.policy_document
  pub factors : HasFactors input
  pub tool_calls : AreClean [] input.execution_request.tool_calls
  pub parameters : IsClean input.execution_request.parameters
  pub orbit_tool_calls : AreClean [] input.execution_request.orbit_intent.tool_calls

Parts-IsVetted :
    (c : Crypto) (root : Fields) (input : CanonicalExecutionInput)
    → Parts c root input
    → IsVetted c input
unfolding build_input
Parts-IsVetted c root input p =
    let lists = read_lists-clean p.sections p.lists p.lists_read in
    let numbers = read_numbers-InRange p.sections p.numbers p.numbers_read in
    subst (IsVetted c) p.built (record {
      pinned = p.pinned;
      trusted = read_trust-IsTrusted c p.texts _ _ p.trust p.trusted;
      factors = record {
        gpu = numbers.gpu_count.0;
        hours = numbers.hours.0;
        price = numbers.price.0;
        scale = numbers.scale.0;
      };
      tool_calls = lists.tool_calls;
      parameters = lists.parameters;
      orbit_tool_calls = lists.orbit_tool_calls;
    })

-- An accepted input has the pinned policy version; where its policy has a trust section, the key id
-- is the one of the public key and the signature over the policy's canonical payload verifies; its
-- cost factors are positive; and each list of tool calls names a tool once, with no reserved key at
-- any depth of the parameters.
pub run_strict_preflight-IsVetted :
    (c : Crypto) (raw : Str) (e : ParsedEnvelope)
    → run_strict_preflight c raw ≡ some (envelope e)
    → IsVetted c e.parsed_input
run_strict_preflight-IsVetted c raw e h =
    let accepted = run_strict_preflight-IsEnvelope c raw e h in
    Parts-IsVetted c accepted.root e.parsed_input
      (read_input-Parts c accepted.root e.parsed_input accepted.read)
