-- ===== src/Preflight/Total.antt =====
-- `runStrictPreflight` of preflight/engine.ts always comes to a result.
use aegisone_core.Prelude.{
  ◌≡◌, ◌<◌, refl, Str, lit, true, Option, none, some, arith, has_str, str_eq, ◌≤◌,
}
use mathlib.Core.Path.{subst}
use aegisone_core.Preflight.Nesting.{nesting}
use aegisone_core.Json.{
  Value, null, bool, num, str, arr, obj, Fields, get_field, is_well_formed, safe_limit,
}
use aegisone_core.Json.Lexer.{Result, fail}
use aegisone_core.Json.Parse.{parse_strict_json}
use aegisone_core.Json.Printing.{canonicalize_json-total}
use aegisone_core.Json.Total.{parse_strict_json-total}
use aegisone_core.Contracts.{
  schema_validation, CanonicalExecutionInput, PolicyRules, ReasonCode, TypedFailure,
}
use aegisone_core.Crypto.{
  Crypto, canonical_policy_payload, hash_canonical_json, policy_hash, sha256_text,
}
use aegisone_core.Preflight.Checks.{Checked, ok, refused, thrown, ◌>>=◌}
use aegisone_core.Preflight.Reading.{Texts, split_sections, read_texts, read_lists}
use aegisone_core.Preflight.Amounts.{Numbers, Flags, read_numbers, read_flags}
use aegisone_core.Preflight.Ranges.{InRange, read_numbers-InRange}
use aegisone_core.Preflight.Calm.{
  IsCalm, >>=-IsCalm, pass-IsCalm, required-IsCalm, split_sections-IsCalm, read_texts-IsCalm,
  read_lists-IsCalm, read_numbers-IsCalm, read_flags-IsCalm,
}
use aegisone_core.Preflight.Accepted.{read_input-Parts}
use aegisone_core.Preflight.{
  failure_json, build_input, as_failure, parse_reason, Preflight, envelope, failure, check_trust,
  read_trust, read_input, rules_of, trust_text, payload_text, typed_failure, finish_preflight,
  preflight_value, run_strict_preflight,
}

-- The numbers of the rules are safe integers.
pub record AreSafeRules (r : PolicyRules) : Type 0 where
  pub cost : r.max_total_cost_cents < safe_limit
  pub gpus : r.max_gpu_count < safe_limit
  pub hours : r.max_hours < safe_limit
  pub approval : r.require_manual_approval_above_cents < safe_limit
  pub retries : r.max_retry_count < safe_limit

rules_of-AreSafeRules : (n : Numbers) (f : Flags) → InRange n → AreSafeRules (rules_of n f)
rules_of-AreSafeRules n f i = record {
  cost = i.max_cost.1;
  gpus = i.max_gpus.1;
  hours = i.max_hours.1;
  approval = i.approval;
  retries = i.max_retries;
}

canonical_policy_payload-total :
    (schema_version policy_version : Str) (r : PolicyRules)
    → AreSafeRules r
    → (t : Str) × (canonical_policy_payload schema_version policy_version r ≡ some t)
unfolding canonical_policy_payload is_well_formed has_str str_eq
canonical_policy_payload-total schema_version policy_version r a =
    canonicalize_json-total _ (ground (arith, a.cost, a.gpus, a.hours, a.approval, a.retries))

hash_canonical_json-total :
    (c : Crypto) (v : Value)
    → is_well_formed v ≡ true
    → (h : Str) × (hash_canonical_json c v ≡ some h)
unfolding hash_canonical_json
hash_canonical_json-total c v w =
    let (t, e) = canonicalize_json-total v w in (sha256_text c t, rw (e, hash_canonical_json))

policy_hash-total :
    (c : Crypto) (schema_version policy_version : Str) (r : PolicyRules)
    → AreSafeRules r
    → (h : Str) × (policy_hash c schema_version policy_version r ≡ some h)
unfolding policy_hash
policy_hash-total c schema_version policy_version r a =
    let (t, e) = canonical_policy_payload-total schema_version policy_version r a in
    (sha256_text c t, rw (e, policy_hash))

typed_failure-total :
    (c : Crypto) (hash : Str) (r : ReasonCode)
    → (f : TypedFailure) × (typed_failure c hash r ≡ some f)
unfolding typed_failure is_well_formed has_str str_eq
typed_failure-total c hash r =
    let (h, e) = hash_canonical_json-total c (failure_json hash r) refl in
    (record { request_hash = hash; decision_hash = h; reason_code = r }, rw (e, typed_failure))

payload_text-IsCalm : (o : Option Str) {t : Str} → o ≡ some t → IsCalm (payload_text o)
payload_text-IsCalm none h = absurd (ground arith)
payload_text-IsCalm (some s) h = tt

trust_text-IsCalm : (k : Str) (fs : Fields) → IsCalm (trust_text k fs)
trust_text-IsCalm k fs = search (required-IsCalm)

check_trust-IsCalm :
    (c : Crypto) (t : Texts) (rules : PolicyRules) (fs : Fields)
    → AreSafeRules rules
    → IsCalm (check_trust c t rules fs)
unfolding check_trust
check_trust-IsCalm c t rules fs a =
    let (p, e) = canonical_policy_payload-total t.schema_version t.policy_version rules a in
    let calm = payload_text-IsCalm _ e in
    search (>>=-IsCalm, pass-IsCalm, trust_text-IsCalm, calm) depth 60

read_trust-IsCalm :
    (c : Crypto) (t : Texts) (rules : PolicyRules) (v : Option Value)
    → AreSafeRules rules
    → IsCalm (read_trust c t rules v)
unfolding read_trust
read_trust-IsCalm c t rules none a = tt
read_trust-IsCalm c t rules (some v) a =
    search (>>=-IsCalm, required-IsCalm, check_trust-IsCalm) depth 60

known->>=-IsCalm {ℓ κ} :
    {In : Type ℓ} {Out : Type κ} (m : Checked In) (f : In → Checked Out)
    → IsCalm m
    → ((x : In) → m ≡ ok x → IsCalm (f x))
    → IsCalm (m >>= f)
known->>=-IsCalm (ok a) f h k = k a refl
known->>=-IsCalm (refused r) f h k = tt
known->>=-IsCalm thrown f h k = h

read_input-IsCalm : (c : Crypto) (root : Fields) → IsCalm (read_input c root)
unfolding read_input
read_input-IsCalm c root = >>=-IsCalm (split_sections root) _ (split_sections-IsCalm root) (λ s.
    >>=-IsCalm (read_texts s) _ (read_texts-IsCalm s) (λ t.
      >>=-IsCalm (read_lists s) _ (read_lists-IsCalm s) (λ l.
        known->>=-IsCalm (read_numbers s) _ (read_numbers-IsCalm s) (λ n e.
          >>=-IsCalm (read_flags s) _ (read_flags-IsCalm s) (λ f.
            let safe = rules_of-AreSafeRules n f (read_numbers-InRange s n e) in
            let calm =
              read_trust-IsCalm c t (rules_of n f) (get_field (lit "trust") s.policy) safe in
            search (>>=-IsCalm, pass-IsCalm, calm) depth 20)))))

read_input-AreSafeRules :
    (c : Crypto) (root : Fields) (input : CanonicalExecutionInput)
    → read_input c root ≡ ok input
    → AreSafeRules input.policy_document.rules
unfolding build_input
read_input-AreSafeRules c root input h =
    let p = read_input-Parts c root input h in
    subst (λ i. AreSafeRules i.policy_document.rules) p.built
      (rules_of-AreSafeRules p.numbers p.flags
        (read_numbers-InRange p.sections p.numbers p.numbers_read))

failed-total :
    (c : Crypto) (hash : Str) (r : ReasonCode)
    → (p : Preflight) × (as_failure (typed_failure c hash r) ≡ some p)
failed-total c hash r = let (f, e) = typed_failure-total c hash r in (failure f, rw (e, as_failure))

finish_preflight-total :
    (c : Crypto) (raw canonical : Str) (r : Checked CanonicalExecutionInput)
    → IsCalm r
    → ((input : CanonicalExecutionInput) → r ≡ ok input → AreSafeRules input.policy_document.rules)
    → (p : Preflight) × (finish_preflight c raw canonical r ≡ some p)
unfolding finish_preflight
finish_preflight-total c raw canonical thrown calm safe = absurd calm
finish_preflight-total c raw canonical (refused r) calm safe =
    failed-total c (sha256_text c canonical) r
finish_preflight-total c raw canonical (ok input) calm safe =
    let (h, e) =
      policy_hash-total c input.policy_document.schema_version input.policy_document.policy_version
        input.policy_document.rules (safe input refl) in
    (
      envelope (record {
        raw_input = raw;
        canonical_input = canonical;
        request_hash = sha256_text c canonical;
        parsed_input = input;
        policy_hash = h;
      }),
      rw (e, finish_preflight),
    )

preflight_value-total :
    (c : Crypto) (raw : Str) (v : Value)
    → is_well_formed v ≡ true
    → (p : Preflight) × (preflight_value c raw v ≡ some p)
unfolding preflight_value
preflight_value-total c raw null w = failed-total c (sha256_text c raw) schema_validation
preflight_value-total c raw (bool b) w = failed-total c (sha256_text c raw) schema_validation
preflight_value-total c raw (num n) w = failed-total c (sha256_text c raw) schema_validation
preflight_value-total c raw (str s) w = failed-total c (sha256_text c raw) schema_validation
preflight_value-total c raw (arr vs) w = failed-total c (sha256_text c raw) schema_validation
preflight_value-total c raw (obj root) w =
    let (t, e) = canonicalize_json-total (obj root) w in
    rw (e, preflight_value)
      (finish_preflight-total c raw t (read_input c root) (read_input-IsCalm c root)
        (read_input-AreSafeRules c root))

-- On every raw text whose brackets nest at most 500 deep, the strict preflight returns an envelope
-- or a typed failure: no error escapes from the parser, the checks, the printing or the hashing of
-- the policy, whatever the digests and the signature check of the platform give.
pub run_strict_preflight-total :
    (c : Crypto) (raw : Str)
    → nesting raw ≤ 500
    → (p : Preflight) × (run_strict_preflight c raw ≡ some p)
unfolding run_strict_preflight
run_strict_preflight-total c raw shallow = judged (parse_strict_json raw) refl
  where
    judged :
        (r : Result Value)
        → parse_strict_json raw ≡ r
        → (p : Preflight) × (run_strict_preflight c raw ≡ some p)
    judged (fail f) e =
        rw (e, run_strict_preflight) (failed-total c (sha256_text c raw) (parse_reason f))
    judged (Result.ok v) e =
        rw (e, run_strict_preflight)
          (preflight_value-total c raw v ((parse_strict_json-total raw).1 v e))
