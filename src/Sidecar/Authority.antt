-- ===== src/Sidecar/Authority.antt =====
-- sidecar/auth_authority.mjs: who may use the protected paths. The decoding of a payload and the
-- verification of a signature are the platform's; times are whole milliseconds.
pub mod Claims
pub mod Nonces
pub mod Replay
pub mod Powers
pub mod Spent
pub mod Once
use aegisone_core.Prelude.{
  ℕ, Str, lit, Bool, true, false, not, ◌&&◌, ◌||◌, List, [], ◌∷◌, ◌++◌, Option, none, some,
  if◌then◌else◌, ◌==◌, length, any, is_empty, str_eq, has_str, lookup,
}
use aegisone_core.Js.{trim}
use aegisone_core.Json.{Value, obj, Fields}
use Claims.{
  Grant, Reason, accepted, rejected, thrown, auth_required, assertion_key_missing,
  assertion_malformed, signature_invalid, authz_refused, replay, Checked, validate_assertion_claims,
}
use Nonces.{NonceStore, Write, reserve_nonce}

-- `JSON.parse(Buffer.from(part, "base64url"))`, without a value where it throws, and
-- `verifyAuthoritySignature` of the key, the payload part and the signature part.
pub record Platform : Type 0 where
  pub decode : Str → Option Value
  pub verify : Str → Str → Str → Bool

-- `requiredCapabilityForPath`.
unfoldable pub required_capability_for_path : Str → Option Str
required_capability_for_path path = lookup path (
    (lit "/policy/activate", lit "activate_policy")
    ∷ (lit "/audit/bundle", lit "export_audit")
    ∷ (lit "/replay/recent", lit "replay_decisions")
    ∷ (lit "/receipts/verify", lit "verify_receipts")
    ∷ (lit "/verify", lit "verify_receipts")
    ∷ [])

-- The header: absent, one value, or several.
pub data Header : Type 0 where
  no_header : Header
  one_header : Str → Header
  many_headers : List Str → Header

-- `parseAuthorityAssertion`; `none` is null.
unfoldable pub parse_authority_assertion : Header → Option Str
unfolding trim
parse_authority_assertion no_header = none
parse_authority_assertion (one_header raw) = if is_empty (trim raw) then none else some (trim raw)
parse_authority_assertion (many_headers (raw ∷ [])) = some raw
parse_authority_assertion (many_headers _) = none

abbrev push_unit : ℕ → List Str → List Str
push_unit c [] = (c ∷ []) ∷ []
push_unit c (part ∷ parts) = (c ∷ part) ∷ parts

-- `assertion.split(".")`.
unfoldable pub split_dots : Str → List Str
split_dots [] = [] ∷ []
split_dots (c ∷ s) = let parts = split_dots s in if c == b'.' then [] ∷ parts else push_unit c parts

abbrev pub two_parts : List Str → Option (Str × Str)
two_parts ((a ∷ p) ∷ (b ∷ q) ∷ []) = some (a ∷ p, b ∷ q)
two_parts _ = none

abbrev pub payload_of : Option Value → Option Fields
payload_of (some (obj fs)) = some fs
payload_of _ = none

abbrev pub text_of : Option Str → Str
text_of none = []
text_of (some s) = s

-- `validateAuthorityAssertion` of the parts.
unfoldable pub check_parts : Platform → Str → ℕ → Str × Str → Checked
check_parts f key now (payload_part, signature_part) = elim (payload_of (f.decode payload_part)) [
  | none ↦ rejected assertion_malformed
  | some payload ↦
      if f.verify key payload_part signature_part
      then validate_assertion_claims payload now
      else rejected signature_invalid
]

-- `validateAuthorityAssertion`, with the key of the environment. The actor is the subject and the
-- role of the claims.
unfoldable pub validate_authority_assertion : Platform → Option Str → Option Str → ℕ → Checked
unfolding trim
validate_authority_assertion f key assertion now =
    if is_empty (trim (text_of assertion))
    then rejected auth_required
    else if is_empty (trim (text_of key))
    then rejected assertion_key_missing
    else elim (two_parts (split_dots (text_of assertion))) [
      | none ↦ rejected assertion_malformed
      | some parts ↦ check_parts f (text_of key) now parts
    ]

pub data Authorization : Type 0 where
  unprotected : Authorization
  granted : Str → Grant → Authorization
  refused : Reason → Authorization
  failed : Authorization

-- What comes of the writes of the nonce file, first that of the cleanup.
pub record Writes : Type 0 where
  pub cleanup : Write
  pub reserve : Write

-- `authorizeAuthorityAction` of valid claims.
unfoldable pub spend : Str → Grant → ℕ → Writes → NonceStore → NonceStore × Authorization
spend capability c now w s =
    let (s', fresh) = reserve_nonce c.nonce now w.cleanup w.reserve s in
    if not (has_str capability c.capabilities)
    then (s, refused authz_refused)
    else if fresh
    then (s', granted capability c)
    else (s', refused replay)

-- `authorizeAuthorityAction`, once the capability is looked up and the assertion is checked.
unfoldable pub act_on : Option Str → Checked → ℕ → Writes → NonceStore → NonceStore × Authorization
act_on none v now w s = (s, unprotected)
act_on (some capability) thrown now w s = (s, failed)
act_on (some capability) (rejected r) now w s = (s, refused r)
act_on (some capability) (accepted c) now w s = spend capability c now w s

-- `authorizeAuthorityAction`.
unfoldable pub authorize_authority_action :
    Platform → Option Str → Str → Option Str → ℕ → Writes → NonceStore → NonceStore × Authorization
unfolding act_on
authorize_authority_action f key path assertion now w s =
    act_on (required_capability_for_path path) (validate_authority_assertion f key assertion now)
      now w s
