-- ===== src/Preflight/Accepted.antt =====
-- What an accepted input of preflight/engine.ts has been through.
use aegisone_core.Prelude.{
  ◌≡◌, refl, Str, lit, Option, none, some, if◌then◌else◌, arith, Option-cases, inl, inr, str_eq,
  str_eq_iff,
}
use aegisone_core.Json.{Value, null, bool, num, str, arr, obj, Fields, get_field}
use aegisone_core.Json.Lexer.{Result, ok, fail}
use aegisone_core.Json.Parse.{parse_strict_json}
use aegisone_core.Json.Canonical.{canonicalize_json}
use aegisone_core.Contracts.{
  CanonicalExecutionInput, ParsedEnvelope, PolicyTrust, ReasonCode, policy_version_mismatch,
}
use aegisone_core.Crypto.{Crypto, sha256_text, policy_hash}
use aegisone_core.Preflight.Checks.{Checked, pass}
use aegisone_core.Preflight.Reading.{Sections, Texts, Lists, split_sections, read_texts, read_lists}
use aegisone_core.Preflight.Amounts.{Numbers, Flags, read_numbers, read_flags}
use aegisone_core.Preflight.Ranges.{>>=-eq-ok}
use aegisone_core.Preflight.{
  envelope, run_strict_preflight, preflight_value, finish_preflight, read_input, build_input,
  read_trust, rules_of, pinned_policy_version,
}

-- The envelope stands for the value that the raw text holds.
pub record IsEnvelope (c : Crypto) (raw : Str) (e : ParsedEnvelope) : Type 0 where
  pub root : Fields
  pub parsed : parse_strict_json raw ≡ ok (obj root)
  pub canonical : canonicalize_json (obj root) ≡ some e.canonical_input
  pub hashed : e.request_hash ≡ sha256_text c e.canonical_input
  pub read : read_input c root ≡ Checked.ok e.parsed_input
  pub policy :
      policy_hash c e.parsed_input.policy_document.schema_version
        e.parsed_input.policy_document.policy_version e.parsed_input.policy_document.rules
      ≡ some e.policy_hash

finish_preflight-envelope :
    (c : Crypto) (raw canonical : Str) (r : Checked CanonicalExecutionInput) (e : ParsedEnvelope)
    → finish_preflight c raw canonical r ≡ some (envelope e)
    → (r ≡ Checked.ok e.parsed_input)
      × (canonical ≡ e.canonical_input)
      × (e.request_hash ≡ sha256_text c e.canonical_input)
      × (policy_hash c e.parsed_input.policy_document.schema_version
            e.parsed_input.policy_document.policy_version e.parsed_input.policy_document.rules
          ≡ some e.policy_hash)
unfolding finish_preflight
finish_preflight-envelope c raw canonical r e h = ground arith

preflight_value-IsEnvelope :
    (c : Crypto) (raw : Str) (v : Value) (e : ParsedEnvelope)
    → parse_strict_json raw ≡ ok v
    → preflight_value c raw v ≡ some (envelope e)
    → IsEnvelope c raw e
unfolding preflight_value
preflight_value-IsEnvelope c raw null e p h = absurd (ground arith)
preflight_value-IsEnvelope c raw (bool b) e p h = absurd (ground arith)
preflight_value-IsEnvelope c raw (num n) e p h = absurd (ground arith)
preflight_value-IsEnvelope c raw (str s) e p h = absurd (ground arith)
preflight_value-IsEnvelope c raw (arr vs) e p h = absurd (ground arith)
preflight_value-IsEnvelope c raw (obj root) e p h =
    elim (Option-cases (canonicalize_json (obj root))) [
      | inl x ↦ absurd (ground arith)
      | inr (t, x) ↦
          let (read, same, hashed, policy) =
            finish_preflight-envelope c raw t (read_input c root) e
              (rw (x, preflight_value) at h) in
          record {
            root = root;
            parsed = p;
            canonical = rw same at x;
            hashed = hashed;
            read = read;
            policy = policy;
          }
    ]

-- An accepted raw text holds one object; the envelope has its canonical text, the hash of that text
-- as the request hash, the input that is read from it, and the hash of the policy in that input.
pub run_strict_preflight-IsEnvelope :
    (c : Crypto) (raw : Str) (e : ParsedEnvelope)
    → run_strict_preflight c raw ≡ some (envelope e)
    → IsEnvelope c raw e
unfolding run_strict_preflight
run_strict_preflight-IsEnvelope c raw e h = parsed (parse_strict_json raw) refl
  where
    parsed : (r : Result Value) → parse_strict_json raw ≡ r → IsEnvelope c raw e
    parsed (fail f) p = absurd (ground arith)
    parsed (ok v) p = preflight_value-IsEnvelope c raw v e p (rw (p, run_strict_preflight) at h)

pub ok-injective {ℓ} : {A : Type ℓ} {a b : A} → Checked.ok a ≡ Checked.ok b → a ≡ b
ok-injective h = ground arith

-- The parts from which an input is built.
pub record Parts (c : Crypto) (root : Fields) (input : CanonicalExecutionInput) : Type 0 where
  pub sections : Sections
  pub texts : Texts
  pub lists : Lists
  pub numbers : Numbers
  pub flags : Flags
  pub trust : Option PolicyTrust
  pub texts_read : read_texts sections ≡ Checked.ok texts
  pub lists_read : read_lists sections ≡ Checked.ok lists
  pub numbers_read : read_numbers sections ≡ Checked.ok numbers
  pub pinned : texts.policy_version ≡ pinned_policy_version
  pub trusted :
      read_trust c texts (rules_of numbers flags) (get_field (lit "trust") sections.policy)
      ≡ Checked.ok trust
  pub built : build_input texts lists numbers flags trust ≡ input

pub pass-ok : (o : Option ReasonCode) {u : Unit {0}} → pass o ≡ Checked.ok u → o ≡ none
pass-ok none h = refl
pass-ok (some r) h = absurd (ground arith)

pinned-eq :
    (s : Str)
    → (if str_eq s pinned_policy_version then none else some policy_version_mismatch) ≡ none
    → s ≡ pinned_policy_version
pinned-eq s h = ground (arith, str_eq_iff s pinned_policy_version)

pub read_input-Parts :
    (c : Crypto) (root : Fields) (input : CanonicalExecutionInput)
    → read_input c root ≡ Checked.ok input
    → Parts c root input
unfolding read_input
read_input-Parts c root input h =
    let (s, _, h1) = >>=-eq-ok (split_sections root) _ h in
    let (t, texts, h2) = >>=-eq-ok (read_texts s) _ h1 in
    let (l, lists, h3) = >>=-eq-ok (read_lists s) _ h2 in
    let (n, numbers, h4) = >>=-eq-ok (read_numbers s) _ h3 in
    let (f, _, h5) = >>=-eq-ok (read_flags s) _ h4 in
    let (_, pinned, h6) =
      >>=-eq-ok
        (pass (
          if str_eq t.policy_version pinned_policy_version
          then none
          else some policy_version_mismatch))
        _ h5 in
    let (trust, trusted, h7) =
      >>=-eq-ok (read_trust c t (rules_of n f) (get_field (lit "trust") s.policy)) _ h6 in
    record {
      sections = s;
      texts = t;
      lists = l;
      numbers = n;
      flags = f;
      trust = trust;
      texts_read = texts;
      lists_read = lists;
      numbers_read = numbers;
      pinned = pinned-eq t.policy_version (pass-ok _ pinned);
      trusted = trusted;
      built = ok-injective h7;
    }
