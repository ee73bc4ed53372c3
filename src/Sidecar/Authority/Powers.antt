-- ===== src/Sidecar/Authority/Powers.antt =====
-- sidecar/auth_authority.mjs: what a granted request has shown.
use aegisone_core.Prelude.{
  ℕ, ◌+◌, ◌≤◌, ◌<◌, ◌≡◌, refl, Str, lit, true, false, List, Option, none, some, arith, Option-cases,
  inl, inr, all, has_str, map, sym,
}
use aegisone_core.Json.{
  Value, Fields, Number, nat, minus, get_field, null, bool, num, str, arr, obj,
}
use aegisone_core.Sidecar.Authority.Nonces.{is_nonce}
use aegisone_core.Sidecar.Authority.Claims.{
  Grant, accepted, validate_assertion_claims, check_times, check_powers, as_number, allowed,
  is_past, is_skewed, is_too_long, trimmed, as_filled, distinct, filled, claim,
}
use aegisone_core.Sidecar.Authority.{
  Platform, validate_authority_assertion, check_parts, two_parts, split_dots, payload_of, text_of,
}

-- The roles of a payload.
abbrev pub roles_of : Fields → List Str
roles_of payload = filled (distinct (map trimmed (as_filled (get_field (lit "roles") payload))))

-- An assertion that the key signs, whose times hold at `now`, and whose roles allow every
-- capability that it asserts.
pub record IsBacked (f : Platform) (key : Str) (assertion : Str) (now : ℕ) (g : Grant)
    : Type 0 where
  pub payload_part : Str
  pub signature_part : Str
  pub payload : Fields
  pub parts : two_parts (split_dots assertion) ≡ some (payload_part, signature_part)
  pub decoded : f.decode payload_part ≡ some (obj payload)
  pub signed : f.verify key payload_part signature_part ≡ true
  pub issued_at : Number
  pub expires_at : ℕ
  pub issued : as_number (get_field (lit "issued_at") payload) ≡ some issued_at
  pub expires : as_number (get_field (lit "expires_at") payload) ≡ some (nat expires_at)
  pub unexpired : now < expires_at
  pub lifetime : expires_at ≤ now + 150000
  pub nonce_claimed : g.nonce ≡ claim (lit "nonce") payload
  pub nonce_shaped : is_nonce g.nonce ≡ true
  pub backed : all (λ c. has_str c (allowed (roles_of payload))) g.capabilities ≡ true

-- What the times have shown.
timely :
    (now : ℕ) (i e : Number)
    → is_past e now ≡ false
    → is_skewed i now ≡ false
    → is_too_long e i ≡ false
    → (x : ℕ) × (e ≡ nat x) × (now < x) × (x ≤ now + 150000)
timely now (nat a) (nat x) p s l = (x, refl, ground (arith, p), ground (arith, p, s, l))
timely now (minus n) (nat x) p s l = (x, refl, ground (arith, p), ground (arith, p, s, l))
timely now i (minus n) p s l = ground (arith, p)

check_powers-accepted :
    (payload : Fields) (g : Grant)
    → check_powers payload ≡ accepted g
    → (g.nonce ≡ claim (lit "nonce") payload)
      × (all (λ c. has_str c (allowed (roles_of payload))) g.capabilities ≡ true)
unfolding check_powers
check_powers-accepted payload g h = ground (arith, h)

-- What accepted claims show, without the signature.
record IsSpoken (payload : Fields) (now : ℕ) (g : Grant) : Type 0 where
  issued_at : Number
  expires_at : ℕ
  issued : as_number (get_field (lit "issued_at") payload) ≡ some issued_at
  expires : as_number (get_field (lit "expires_at") payload) ≡ some (nat expires_at)
  unexpired : now < expires_at
  lifetime : expires_at ≤ now + 150000
  nonce_claimed : g.nonce ≡ claim (lit "nonce") payload
  backed : all (λ c. has_str c (allowed (roles_of payload))) g.capabilities ≡ true

check_times-accepted :
    (payload : Fields) (now : ℕ) (g : Grant) (i e : Option Number)
    → as_number (get_field (lit "issued_at") payload) ≡ i
    → as_number (get_field (lit "expires_at") payload) ≡ e
    → check_times payload now i e ≡ accepted g
    → IsSpoken payload now g
unfolding check_times
check_times-accepted payload now g none e p q h = ground (arith, h)
check_times-accepted payload now g (some i) none p q h = ground (arith, h)
check_times-accepted payload now g (some i) (some e) p q h =
    let past : is_past e now ≡ false = ground (arith, h) in
    let skewed : is_skewed i now ≡ false = ground (arith, h, past) in
    let long : is_too_long e i ≡ false = ground (arith, h, past, skewed) in
    let powers : check_powers payload ≡ accepted g = ground (arith, h, past, skewed, long) in
    let (x, same, later, sooner) = timely now i e past skewed long in
    let (nonce, backed) = check_powers-accepted payload g powers in
    record {
      issued_at = i;
      expires_at = x;
      issued = p;
      expires = rw (sym same) q;
      unexpired = later;
      lifetime = sooner;
      nonce_claimed = nonce;
      backed = backed;
    }

-- Claims that are accepted.
claims-accepted :
    (payload : Fields) (now : ℕ) (g : Grant)
    → validate_assertion_claims payload now ≡ accepted g
    → IsSpoken payload now g × (is_nonce (claim (lit "nonce") payload) ≡ true)
unfolding validate_assertion_claims
claims-accepted payload now g h =
    let shaped : is_nonce (claim (lit "nonce") payload) ≡ true = ground (arith, h) in
    (check_times-accepted payload now g _ _ refl refl (ground (arith, h)), shaped)

payload_of-some : (v : Option Value) (fs : Fields) → payload_of v ≡ some fs → v ≡ some (obj fs)
payload_of-some none fs h = ground (arith, h)
payload_of-some (some (obj gs)) fs h = cc
payload_of-some (some null) fs h = ground (arith, h)
payload_of-some (some (bool b)) fs h = ground (arith, h)
payload_of-some (some (num n)) fs h = ground (arith, h)
payload_of-some (some (str t)) fs h = ground (arith, h)
payload_of-some (some (arr vs)) fs h = ground (arith, h)

pub validate_authority_assertion-IsBacked :
    (f : Platform) (key assertion : Option Str) (now : ℕ) (g : Grant)
    → validate_authority_assertion f key assertion now ≡ accepted g
    → IsBacked f (text_of key) (text_of assertion) now g
unfolding validate_authority_assertion check_parts
validate_authority_assertion-IsBacked f key assertion now g h =
    elim (Option-cases (two_parts (split_dots (text_of assertion)))) [
      | inl e ↦ ground (arith, e, h)
      | inr ((p, q), e) ↦ elim (Option-cases (payload_of (f.decode p))) [
        | inl d ↦ ground (arith, e, d, h)
        | inr (payload, d) ↦
            let signed : f.verify (text_of key) p q ≡ true = ground (arith, e, d, h) in
            let valid : validate_assertion_claims payload now ≡ accepted g =
              ground (arith, e, d, h, signed) in
            let (spoken, shaped) = claims-accepted payload now g valid in
            record {
              payload_part = p;
              signature_part = q;
              payload = payload;
              parts = e;
              decoded = payload_of-some (f.decode p) payload d;
              signed = signed;
              issued_at = spoken.issued_at;
              expires_at = spoken.expires_at;
              issued = spoken.issued;
              expires = spoken.expires;
              unexpired = spoken.unexpired;
              lifetime = spoken.lifetime;
              nonce_claimed = spoken.nonce_claimed;
              nonce_shaped = rw spoken.nonce_claimed shaped;
              backed = spoken.backed;
            }
      ]
    ]
